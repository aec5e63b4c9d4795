-- ===== src/Hashmap/Iter/Visit.antt =====
-- What the iterator of src/hashmap.c visits, also when entries are removed on the way.
use mathlib.Core.List.{append-nil, append_assoc}
use softgre.Shared.{
  ℕ, zero, suc, ◌+◌, ◌≤◌, ◌<◌, ◌≡◌, refl, sym, ap, ◌∙◌, true, false, List, [], ◌∷◌, ◌++◌, Option,
  none, some, arith, ◌==◌, if◌then◌else◌, ok, Returns, length, map, get_or, get_elem?-get_or, set,
  inl, inr, ◌⊎◌, drop, lt→ltb, length-append,
}
use softgre.Keys.{Key}
use softgre.Hashmap.{Slot, slot_empty, slot_occupied, slot_deleted, Hashmap}
use softgre.Hashmap.Slots.{total, live}
use softgre.Hashmap.Probe.{slot_at, Slot-cases}
use softgre.Hashmap.Valid.{IsValid}
use softgre.Hashmap.Iter.{HashmapIter, next_loop, keys_loop, hashmap_keys}

module _ {ℓ} {K V : Type ℓ} where
  -- The entries of an array, in order.
  unfoldable pub entries : List (Slot K V) → List (K × V)
  entries [] = []
  entries (slot_occupied k v h ∷ slots) = (k, v) ∷ entries slots
  entries (_ ∷ slots) = entries slots

  pub length-entries : (slots : List (Slot K V)) → length (entries slots) ≡ total live slots
  unfolding entries total live
  length-entries [] = refl
  length-entries (slot_empty ∷ slots) = omega (arith, length-entries slots)
  length-entries (slot_deleted ∷ slots) = omega (arith, length-entries slots)
  length-entries (slot_occupied k v h ∷ slots) = omega (arith, length-entries slots)

  abbrev pub keys_of : List (Slot K V) → List K
  keys_of slots = map (λ e. e.0) (entries slots)

  keys_loop-entries :
      (slots : List (Slot K V)) (limit : ℕ) (keys : List K)
      → length keys + total live slots ≤ limit
      → keys_loop slots limit keys ≡ ok (keys ++ keys_of slots)
  unfolding keys_loop entries total live
  keys_loop-entries [] limit keys h = ap ok (sym (append-nil keys))
  keys_loop-entries (slot_empty ∷ slots) limit keys h =
      keys_loop-entries slots limit keys (omega arith)
  keys_loop-entries (slot_deleted ∷ slots) limit keys h =
      keys_loop-entries slots limit keys (omega arith)
  keys_loop-entries (slot_occupied k v h ∷ slots) limit keys p =
      rw (lt→ltb (length keys) limit (omega arith)) (
        keys_loop-entries slots limit (keys ++ k ∷ []) (omega (arith, length-append keys (k ∷ [])))
        ∙ ap ok (append_assoc keys (k ∷ []) (keys_of slots)))

  -- Dropping slots one by one.
  pub drop_step :
      (slots : List (Slot K V)) (i : ℕ)
      → i < length slots
      → drop i slots ≡ slot_at slots i ∷ drop (suc i) slots
  unfolding get_or
  drop_step [] i h = absurd (omega arith)
  drop_step (s ∷ slots) zero h = refl
  drop_step (s ∷ slots) (suc i) h = drop_step slots i (omega arith)

  drop_all : (slots : List (Slot K V)) (i : ℕ) → length slots ≤ i → drop i slots ≡ []
  drop_all [] zero h = refl
  drop_all [] (suc i) h = refl
  drop_all (s ∷ slots) zero h = absurd (omega arith)
  drop_all (s ∷ slots) (suc i) h = drop_all slots i (omega arith)

  pub drop-set :
      (slots : List (Slot K V)) (i : ℕ) (s : Slot K V)
      → drop (suc i) (set slots i s) ≡ drop (suc i) slots
  unfolding set
  drop-set [] i s = refl
  drop-set (t ∷ slots) zero s = refl
  drop-set (t ∷ slots) (suc i) s = drop-set slots i s

  -- The entries that an iterator at slot `i` has before it.
  abbrev pub entries_from : List (Slot K V) → ℕ → List (K × V)
  entries_from slots i = entries (drop i slots)

  -- What `hashmap_iter_next` does at slot `j`: it stops past the first entry, or at the end.
  pub record Stops (m : Hashmap K V) (j : ℕ) (r : HashmapIter × Option (K × V)) (k : K) (v : V)
      : Type ℓ where
    pub index : ℕ
    pub hash : ℕ
    pub in_range : index < length m.slots
    pub entry : slot_at m.slots index ≡ slot_occupied k v hash
    pub result : r ≡ (record { slot = index + 1; current = some index; valid = true }, some (k, v))
    pub rest : entries_from m.slots j ≡ (k, v) ∷ entries_from m.slots (suc index)

  abbrev pub Visits : Hashmap K V → ℕ → HashmapIter × Option (K × V) → Type ℓ
  Visits m j r =
      ((k : K) × (v : V) × Stops m j r k v) ⊎ ((entries_from m.slots j ≡ []) × (r.1 ≡ none))

  pub next_loop-Visits :
      (rounds : ℕ) (m : Hashmap K V) (it : HashmapIter)
      → rounds + it.slot ≡ length m.slots
      → Returns (next_loop rounds m it) (Visits m it.slot)
  unfolding next_loop entries
  next_loop-Visits zero m it n = (
    (record it { valid = false }, none),
    refl,
    inr (rw (drop_all m.slots it.slot (omega arith)), refl),
  )
  next_loop-Visits (suc rounds) m it n =
      let lt : it.slot < length m.slots = omega arith in
      let read = get_elem?-get_or m.slots it.slot slot_empty lt in
      let here = drop_step m.slots it.slot lt in
      let (r, run, later) =
        next_loop-Visits rounds m (record it { slot = it.slot + 1 }) (omega arith) in
      elim (Slot-cases (slot_at m.slots it.slot)) [
        | inl c ↦ (
          r,
          rw (read ∙ ap some c, next_loop) run,
          skip (ap entries (here ∙ ap (λ s. s ∷ drop (suc it.slot) m.slots) c)) r later,
        )
        | inr (inl c) ↦ (
          r,
          rw (read ∙ ap some c, next_loop) run,
          skip (ap entries (here ∙ ap (λ s. s ∷ drop (suc it.slot) m.slots) c)) r later,
        )
        | inr (inr (k, v, h, c)) ↦ (
          (record { slot = it.slot + 1; current = some it.slot; valid = true }, some (k, v)),
          rw (read ∙ ap some c, next_loop),
          inl (
            k,
            v,
            record {
              index = it.slot;
              hash = h;
              in_range = lt;
              entry = c;
              result = refl;
              rest = ap entries (here ∙ ap (λ s. s ∷ drop (suc it.slot) m.slots) c);
            },
          ),
        )
      ]
    where
      skip :
          entries_from m.slots it.slot ≡ entries_from m.slots (suc it.slot)
          → (r : HashmapIter × Option (K × V)) → Visits m (it.slot + 1) r
          → Visits m it.slot r
      skip e r next =
          let p : it.slot + 1 ≡ suc it.slot = omega arith in
          let e' : entries_from m.slots it.slot ≡ entries_from m.slots (it.slot + 1) = rw p e in
          elim next [
            | inl (k, v, s) ↦ inl (
              k,
              v,
              record {
                index = s.index;
                hash = s.hash;
                in_range = s.in_range;
                entry = s.entry;
                result = s.result;
                rest = e' ∙ s.rest;
              },
            )
            | inr (none_left, stop) ↦ inr (e' ∙ none_left, stop)
          ]

module _ {ℓ} {K V : Type ℓ} ⦃key : Key K⦄ where
  -- `hashmap_keys` stays within its array and returns the key of each entry.
  pub keys-entries : (m : Hashmap K V) → IsValid m → hashmap_keys m ≡ ok (keys_of m.slots)
  unfolding hashmap_keys
  keys-entries m v =
      keys_loop-entries m.slots (if m.count == 0 then 1 else m.count) [] (ground (arith, v.counted))
