-- ===== src/Maps.antt =====
-- What the clients of the hash map use of src/hashmap.h: the operations on a map, with their laws.
-- `same` is the map's `equal`; `keys` lists the keys in the order of iteration.
pub mod Assoc
pub mod Table
use softgre.Shared.{
  ℕ, ◌+◌, ◌≡◌, ◌↔◌, Bool, true, false, ◌||◌, not, ◌&&◌, List, [], ◌∷◌, Option, none, some,
  if◌then◌else◌, arith,
}

-- 1 if there is a value.
abbrev pub present {ℓ} : {V : Type ℓ} → Option V → ℕ
present none = 0
present (some v) = 1

abbrev pub is_some {ℓ} : {A : Type ℓ} → Option A → Bool
is_some (some a) = true
is_some none = false

-- Whether a key is in a list.
unfoldable pub contains : {K : Type 0} → (K → K → Bool) → List K → K → Bool
contains same [] k = false
contains same (j ∷ ks) k = same j k || contains same ks k

-- Whether no key is in a list twice.
unfoldable pub once : {K : Type 0} → (K → K → Bool) → List K → Bool
unfolding contains
once same [] = true
once same (k ∷ ks) = not (contains same ks k) && once same ks

pub record MapOps (K V M : Type 0) : Type 0 where
  pub same : K → K → Bool
  pub same_iff : (j k : K) → (same j k ≡ true) ↔ (j ≡ k)
  pub new : M
  pub lookup : M → K → Option V
  pub insert : M → K → V → M
  pub remove : M → K → M
  pub size : M → ℕ
  pub keys : M → List K
  pub lookup-new : (k : K) → lookup new k ≡ none
  pub lookup-insert :
      (m : M) (j k : K) (v : V)
      → lookup (insert m j v) k ≡ (if same j k then some v else lookup m k)
  pub lookup-remove :
      (m : M) (j k : K) → lookup (remove m j) k ≡ (if same j k then none else lookup m k)
  pub size-new : size new ≡ 0
  pub size-insert :
      (m : M) (k : K) (v : V) → size (insert m k v) + present (lookup m k) ≡ size m + 1
  pub size-remove : (m : M) (k : K) → size (remove m k) + present (lookup m k) ≡ size m
  pub contains-keys : (m : M) (k : K) → contains same (keys m) k ≡ is_some (lookup m k)
  pub once-keys : (m : M) → once same (keys m) ≡ true
