-- ===== src/Keys.antt =====
-- The function pointers `hash` and `equal` of a map (src/hashmap.h), with what open addressing
-- asks of them, and the two pairs of functions that src/hashmap.c provides.
use Prim.Native.Nat.{bit_xor}
use softgre.Shared.{
  ℕ, ◌*◌, ◌/◌, ◌%◌, ◌^◌, Bool, true, false, ◌&&◌, List, [], ◌∷◌, ◌≡◌, refl, ap, ◌==◌, arith,
}

-- `equal` is an equivalence, and `hash` does not tell equal keys apart.
pub record Key {ℓ} (K : Type ℓ) : Type ℓ where
  pub equal : K → K → Bool
  pub equal_self : (k : K) → equal k k ≡ true
  pub equal_flip : (k l : K) → equal k l ≡ equal l k
  pub equal_chain : (k l m : K) → equal k l ≡ true → equal l m ≡ true → equal k m ≡ true
  pub hash : K → ℕ
  pub hash-equal : (k l : K) → equal k l ≡ true → hash k ≡ hash l

-- Equal keys are equal to the same keys.
pub equal_congr_left {ℓ} :
    {K : Type ℓ} ⦃key : Key K⦄ (k l m : K) → key.equal k l ≡ true → key.equal k m ≡ key.equal l m
equal_congr_left ⦃key⦄ k l m e =
    ground (arith, key.equal_chain k l m, key.equal_flip k l, key.equal_chain l k m)

abbrev pub u32_mod : ℕ
u32_mod = 2 ^ 32

-- `uint32_t` arithmetic: a product wraps, and a shift to the right divides.
unfoldable pub mix32 : ℕ → ℕ
mix32 h =
    let h1 = bit_xor h (h / 2 ^ 16) in
    let h2 = h1 * 0x85ebca6b % u32_mod in
    let h3 = bit_xor h2 (h2 / 2 ^ 13) in
    let h4 = h3 * 0xc2b2ae35 % u32_mod in bit_xor h4 (h4 / 2 ^ 16)

-- The key is the pointer's value.
unfoldable pub hashmap_hash_u32 : ℕ → ℕ
unfolding mix32
hashmap_hash_u32 key = mix32 (key % u32_mod)

unfoldable pub hashmap_equal_u32 : ℕ → ℕ → Bool
hashmap_equal_u32 a b = a == b

-- A C string is the list of its bytes before the NUL.
unfoldable pub fnv_loop : ℕ → List ℕ → ℕ
fnv_loop h [] = h
fnv_loop h (c ∷ s) = fnv_loop (bit_xor h c * 16777619 % u32_mod) s

unfoldable pub hashmap_hash_str : List ℕ → ℕ
unfolding fnv_loop
hashmap_hash_str s = fnv_loop 2166136261 s

-- `strcmp(a, b) == 0`
unfoldable pub hashmap_equal_str : List ℕ → List ℕ → Bool
hashmap_equal_str [] [] = true
hashmap_equal_str (a ∷ s) (b ∷ t) = a == b && hashmap_equal_str s t
hashmap_equal_str _ _ = false

pub equal_str_refl : (s : List ℕ) → hashmap_equal_str s s ≡ true
unfolding hashmap_equal_str
equal_str_refl [] = refl
equal_str_refl (a ∷ s) = ground (arith, equal_str_refl s)

pub eq_of_equal_str : (s t : List ℕ) → hashmap_equal_str s t ≡ true → s ≡ t
unfolding hashmap_equal_str
eq_of_equal_str [] [] e = refl
eq_of_equal_str [] (b ∷ t) e = cc
eq_of_equal_str (a ∷ s) [] e = cc
eq_of_equal_str (a ∷ s) (b ∷ t) e = ground (arith, eq_of_equal_str s t)

pub equal_str_symm : (s t : List ℕ) → hashmap_equal_str s t ≡ hashmap_equal_str t s
unfolding hashmap_equal_str
equal_str_symm [] [] = refl
equal_str_symm [] (b ∷ t) = refl
equal_str_symm (a ∷ s) [] = refl
equal_str_symm (a ∷ s) (b ∷ t) = ground (arith, equal_str_symm s t)

pub equal_str_trans :
    (s t u : List ℕ)
    → hashmap_equal_str s t ≡ true
    → hashmap_equal_str t u ≡ true
    → hashmap_equal_str s u ≡ true
equal_str_trans s t u e f =
    ground (arith, eq_of_equal_str s t, eq_of_equal_str t u, equal_str_refl s)

pub hash_str_congr :
    (s t : List ℕ) → hashmap_equal_str s t ≡ true → hashmap_hash_str s ≡ hashmap_hash_str t
hash_str_congr s t e = ap hashmap_hash_str (eq_of_equal_str s t e)

pub equal_u32_trans :
    (a b c : ℕ)
    → hashmap_equal_u32 a b ≡ true
    → hashmap_equal_u32 b c ≡ true
    → hashmap_equal_u32 a c ≡ true
unfolding hashmap_equal_u32
equal_u32_trans a b c e f = ground arith

pub equal_u32_symm : (a b : ℕ) → hashmap_equal_u32 a b ≡ hashmap_equal_u32 b a
unfolding hashmap_equal_u32
equal_u32_symm a b = ground arith

pub equal_u32_refl : (a : ℕ) → hashmap_equal_u32 a a ≡ true
unfolding hashmap_equal_u32
equal_u32_refl a = ground arith

pub eq_of_equal_u32 : (a b : ℕ) → hashmap_equal_u32 a b ≡ true → a ≡ b
unfolding hashmap_equal_u32
eq_of_equal_u32 a b e = ground arith

pub hash_u32_congr :
    (a b : ℕ) → hashmap_equal_u32 a b ≡ true → hashmap_hash_u32 a ≡ hashmap_hash_u32 b
unfolding hashmap_equal_u32
hash_u32_congr a b e = let same : a ≡ b = ground arith in ap hashmap_hash_u32 same

-- The maps from IPv4 addresses.
instance abbrev pub u32_key : Key ℕ
u32_key = record {
  hash = hashmap_hash_u32;
  equal = hashmap_equal_u32;
  equal_self = equal_u32_refl;
  equal_flip = equal_u32_symm;
  equal_chain = equal_u32_trans;
  hash-equal = hash_u32_congr;
}

-- The maps from MAC texts.
instance abbrev pub str_key : Key (List ℕ)
str_key = record {
  hash = hashmap_hash_str;
  equal = hashmap_equal_str;
  equal_self = equal_str_refl;
  equal_flip = equal_str_symm;
  equal_chain = equal_str_trans;
  hash-equal = hash_str_congr;
}
