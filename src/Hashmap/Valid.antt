-- ===== src/Hashmap/Valid.antt =====
-- When a map is well formed, and what the operations that only read return.
use Prim.Native.Nat.{bit_and}
use softgre.Shared.{
  ℕ, ◌-◌, ◌*◌, ◌%◌, ◌^◌, ◌≤◌, ◌<◌, ◌≡◌, refl, ap, ◌∙◌, Bool, true, false, List, Option, none, some,
  arith, ok, length, get_elem?-get_or, bit_and-mask, inl, inr, replicate, length-replicate,
  get_or-replicate,
}
use softgre.Keys.{Key}
use softgre.Hashmap.{
  Slot, slot_empty, slot_occupied, Hashmap, find, value_at, hashmap_lookup, hashmap_contains,
  hashmap_min_cap,
}
use softgre.Hashmap.Slots.{
  total, total-replicate, live, used, hit, value, view, view_of_entry, view-eq-none, value-eq-some,
}
use softgre.Hashmap.Probe.{IsProbed, FindOk, find-FindOk, slot_at}

abbrev pub is_some {κ} : {A : Type κ} → Option A → Bool
is_some (some a) = true
is_some none = false

module _ {ℓ} {K V : Type ℓ} ⦃key : Key K⦄ where
  -- A well-formed slot array of a power of two: entries are where the walk finds them, and no key
  -- has two.
  pub record IsTable (slots : List (Slot K V)) : Type ℓ where
    pub exponent : ℕ
    pub power : length slots ≡ 2 ^ exponent
    pub probed : IsProbed slots
    pub unique : (q : K) → total (hit q) slots ≤ 1

  -- A well-formed map: the counters count, and less than three quarters of the slots are used.
  pub record IsValid (m : Hashmap K V) : Type ℓ where
    pub table : IsTable m.slots
    pub width : length m.slots ≡ m.cap
    pub roomy : hashmap_min_cap ≤ m.cap
    pub counted : total live m.slots ≡ m.count
    pub used_count : total used m.slots ≡ m.occupied
    pub load : m.occupied * 4 < m.cap * 3

  -- The mask of a table reduces to an index.
  pub mask_mod :
      {slots : List (Slot K V)}
      → IsTable slots
      → (x : ℕ) → bit_and x (length slots - 1) ≡ x % length slots
  mask_mod t x = rw t.power (bit_and-mask t.exponent x)

  pub find_map-FindOk :
      {m : Hashmap K V} → IsValid m → (k : K) → FindOk m.slots k (find m k (key.hash k))
  unfolding find
  find_map-FindOk {m} v k =
      rw (← v.width)
        (find-FindOk m.slots k (length m.slots - 1) (mask_mod v.table) v.table.probed (omega arith))

  -- `value_at` at a slot with a value for the key.
  value_at-slot :
      (slots : List (Slot K V)) (i : ℕ) (k : K) (v : V)
      → i < length slots
      → value k (slot_at slots i) ≡ some v
      → value_at slots i ≡ ok v
  unfolding value_at
  value_at-slot slots i k v lt e =
      let (k', h, o, _) = value-eq-some k (slot_at slots i) v e in
      rw (get_elem?-get_or slots i slot_empty lt ∙ ap some o, value_at)

  -- `hashmap_lookup` runs without a fault and returns what the array means at the key.
  pub lookup-view :
      {m : Hashmap K V} → IsValid m → (k : K) → hashmap_lookup m k ≡ ok (view m.slots k)
  unfolding hashmap_lookup
  lookup-view {m} v k = elim (find_map-FindOk v k) [
    | inl (i, w, e, lt, at) ↦ rw (
      e,
      hashmap_lookup,
      value_at-slot m.slots i k w lt at,
      view_of_entry k m.slots i w lt (v.table.unique k) at,
    )
    | inr (i, e, z, vac) ↦ rw (e, hashmap_lookup, view-eq-none k m.slots z)
  ]

  -- `hashmap_contains` runs without a fault and says whether the array has the key.
  pub contains-view :
      {m : Hashmap K V} → IsValid m → (k : K) → hashmap_contains m k ≡ ok (is_some (view m.slots k))
  unfolding hashmap_contains
  contains-view {m} v k = elim (find_map-FindOk v k) [
    | inl (i, w, e, lt, at) ↦
        rw (e, hashmap_contains, view_of_entry k m.slots i w lt (v.table.unique k) at)
    | inr (i, e, z, vac) ↦ rw (e, hashmap_contains, view-eq-none k m.slots z)
  ]

  replicate-IsProbed : (n : ℕ) → IsProbed {K = K} {V = V} (replicate n slot_empty)
  replicate-IsProbed n i k v h e =
      let empty : slot_empty ≡ slot_occupied k v h = rw get_or-replicate at e in cc

  -- A table of empty slots.
  pub replicate-IsTable : (e : ℕ) → IsTable (replicate (2 ^ e) slot_empty)
  unfolding hit
  replicate-IsTable e = record {
    exponent = e;
    power = length-replicate (2 ^ e) slot_empty;
    probed = replicate-IsProbed (2 ^ e);
    unique = λ q. omega (arith, total-replicate (hit q) (2 ^ e) slot_empty refl);
  }
