-- ===== src/Hashmap/Slots.antt =====
-- Sums over the slot array, and the finite map that the array stands for.
use softgre.Shared.{
  ℕ, zero, suc, ◌+◌, ◌≤◌, ◌<◌, ◌≡◌, refl, ap, true, List, [], ◌∷◌, Option, none, some, arith, ◌==◌,
  if◌then◌else◌, length, get_or, set, replicate, Bool-cases, inl, inr,
}
use softgre.Keys.{Key, equal_congr_left}
use softgre.Hashmap.{Slot, slot_empty, slot_occupied, slot_deleted}

module _ {ℓ} {A : Type ℓ} where
  unfoldable pub total : (A → ℕ) → List A → ℕ
  total f [] = 0
  total f (x ∷ xs) = f x + total f xs

  pub total-set :
      (f : A → ℕ) (xs : List A) (i : ℕ) (v d : A)
      → i < length xs
      → total f (set xs i v) + f (get_or xs i d) ≡ total f xs + f v
  unfolding total set get_or
  total-set f [] i v d h = absurd (omega arith)
  total-set f (x ∷ xs) zero v d h = omega arith
  total-set f (x ∷ xs) (suc i) v d h = omega (arith, total-set f xs i v d (omega arith))

  pub total-replicate : (f : A → ℕ) (n : ℕ) (a : A) → f a ≡ 0 → total f (replicate n a) ≡ 0
  unfolding total replicate
  total-replicate f zero a h = refl
  total-replicate f (suc n) a h = omega (arith, total-replicate f n a h)

  pub get_or-le-total :
      (f : A → ℕ) (xs : List A) (i : ℕ) (d : A) → i < length xs → f (get_or xs i d) ≤ total f xs
  unfolding total get_or
  get_or-le-total f [] i d h = absurd (omega arith)
  get_or-le-total f (x ∷ xs) zero d h = omega arith
  get_or-le-total f (x ∷ xs) (suc i) d h = omega (arith, get_or-le-total f xs i d (omega arith))

  pub total-eq-zero :
      (f : A → ℕ) (xs : List A) (d : A)
      → ((i : ℕ) → i < length xs → f (get_or xs i d) ≡ 0)
      → total f xs ≡ 0
  unfolding total get_or
  total-eq-zero f [] d h = refl
  total-eq-zero f (x ∷ xs) d h =
      omega (arith, h 0 (omega arith), total-eq-zero f xs d (λ i p. h (suc i) (omega arith)))

  -- A sum of ones and zeros below the length leaves a zero.
  pub total_gap :
      (f : A → ℕ) (xs : List A) (d : A)
      → total f xs < length xs
      → (i : ℕ) × (i < length xs) × (f (get_or xs i d) ≡ 0)
  unfolding total get_or
  total_gap f [] d h = absurd (omega arith)
  total_gap f (x ∷ xs) d h = elim (Bool-cases (f x == 0)) [
    | inl e ↦ (0, omega arith, ground arith)
    | inr e ↦
        let below : total f xs < length xs = ground arith in
        let (i, lt, z) = total_gap f xs d below in (suc i, omega arith, z)
  ]

  pub total_mono : (f g : A → ℕ) (xs : List A) → ((x : A) → f x ≤ g x) → total f xs ≤ total g xs
  unfolding total
  total_mono f g [] h = omega arith
  total_mono f g (x ∷ xs) h = omega (arith, h x, total_mono f g xs h)

module _ {ℓ} {K V : Type ℓ} where
  -- 1 for an occupied slot.
  unfoldable pub live : Slot K V → ℕ
  live (slot_occupied k v h) = 1
  live _ = 0

  -- 1 for an occupied or deleted slot.
  unfoldable pub used : Slot K V → ℕ
  used slot_empty = 0
  used _ = 1

  pub live-le-used : (s : Slot K V) → live s ≤ used s
  unfolding live used
  live-le-used slot_empty = omega arith
  live-le-used (slot_occupied k v h) = omega arith
  live-le-used slot_deleted = omega arith

abbrev pub or_first {ℓ} : {V : Type ℓ} → Option V → Option V → Option V
or_first (some v) rest = some v
or_first none rest = rest

module _ {ℓ} {K V : Type ℓ} ⦃key : Key K⦄ where
  -- 1 for an occupied slot under a key that is equal to `q`.
  unfoldable pub hit : K → Slot K V → ℕ
  hit q (slot_occupied k v h) = if key.equal k q then 1 else 0
  hit q _ = 0

  unfoldable pub value : K → Slot K V → Option V
  value q (slot_occupied k v h) = if key.equal k q then some v else none
  value q _ = none

  -- The map that the array stands for: the value of the first slot with the key, in array order.
  unfoldable pub view : List (Slot K V) → K → Option V
  unfolding value
  view [] q = none
  view (s ∷ slots) q = or_first (value q s) (view slots q)

  pub hit-value : (q : K) (s : Slot K V) → hit q s ≡ (elim (value q s) [ none ↦ 0 | some v ↦ 1 ])
  unfolding hit value
  hit-value q slot_empty = refl
  hit-value q (slot_occupied k v h) = ground arith
  hit-value q slot_deleted = refl

  pub view-eq-none :
      (q : K) (slots : List (Slot K V)) → total (hit q) slots ≡ 0 → view slots q ≡ none
  unfolding total view
  view-eq-none q [] h = refl
  view-eq-none q (s ∷ slots) h = ground (arith, hit-value q s, view-eq-none q slots)

  -- The entry of a key, wherever it stands, is what the array means at the key.
  pub view_of_entry :
      (q : K) (slots : List (Slot K V)) (i : ℕ) (v : V)
      → i < length slots
      → total (hit q) slots ≤ 1
      → value q (get_or slots i slot_empty) ≡ some v
      → view slots q ≡ some v
  unfolding total view get_or
  view_of_entry q [] i v lt h e = absurd (omega arith)
  view_of_entry q (s ∷ slots) zero v lt h e = ground arith
  view_of_entry q (s ∷ slots) (suc i) v lt h e = ground (
    arith,
    hit-value q s,
    hit-value q (get_or slots i slot_empty),
    get_or-le-total (hit q) slots i slot_empty,
    view_of_entry q slots i v,
  )

  -- A write that neither removes nor adds an entry of the key.
  pub view-set_other :
      (q : K) (slots : List (Slot K V)) (i : ℕ) (s : Slot K V)
      → value q (get_or slots i slot_empty) ≡ none
      → value q s ≡ none
      → view (set slots i s) q ≡ view slots q
  unfolding view get_or set
  view-set_other q [] i s h e = refl
  view-set_other q (t ∷ slots) zero s h e = ground arith
  view-set_other q (t ∷ slots) (suc i) s h e = ground (arith, view-set_other q slots i s)

  pub view-replicate : (q : K) (n : ℕ) → view (replicate n slot_empty) q ≡ none
  unfolding view replicate
  view-replicate q zero = refl
  view-replicate q (suc n) = view-replicate q n

  -- A slot with a value for `q` is occupied, under an equal key.
  pub value-eq-some :
      (q : K) (s : Slot K V) (v : V)
      → value q s ≡ some v
      → (k : K) × (h : ℕ) × (s ≡ slot_occupied k v h) × (key.equal k q ≡ true)
  unfolding value
  value-eq-some q slot_empty v e = cc
  value-eq-some q slot_deleted v e = cc
  value-eq-some q (slot_occupied k w h) v e = elim (Bool-cases (key.equal k q)) [
    | inl t ↦ let same : w ≡ v = ground arith in (k, h, ap (λ x. slot_occupied k x h) same, t)
    | inr f ↦ let no_value : none ≡ some v = rw f at e in cc
  ]

  -- Equal keys have the same hits.
  pub total-hit_congr :
      (k q : K) (slots : List (Slot K V))
      → key.equal k q ≡ true
      → total (hit q) slots ≡ total (hit k) slots
  unfolding total hit
  total-hit_congr k q [] e = refl
  total-hit_congr k q (slot_empty ∷ slots) e = omega (arith, total-hit_congr k q slots e)
  total-hit_congr k q (slot_deleted ∷ slots) e = omega (arith, total-hit_congr k q slots e)
  total-hit_congr k q (slot_occupied k' v h ∷ slots) e = ground (
    arith,
    total-hit_congr k q slots e,
    equal_congr_left k q k' e,
    key.equal_flip k' k,
    key.equal_flip k' q,
  )
