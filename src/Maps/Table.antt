-- ===== src/Maps/Table.antt =====
-- The hash map of src/hashmap.c as the map that its clients use: valid tables, with the results of the
-- operations, which all return.
use softgre.Shared.{
  ℕ, ◌+◌, ◌≤◌, ◌≡◌, refl, sym, ap, ◌∙◌, Bool, true, false, List, [], ◌∷◌, Option, none, some, arith,
  if◌then◌else◌, Bool-cases, inl, inr, ok,
}
use softgre.Keys.{Key}
use softgre.Maps.{MapOps, contains, once, is_some, present}
use softgre.Hashmap.{
  Slot, slot_empty, slot_occupied, slot_deleted, Hashmap, hashmap_new, hashmap_insert,
  hashmap_remove, hashmap_lookup, hashmap_size,
}
use softgre.Hashmap.Iter.{hashmap_keys}
use softgre.Hashmap.Slots.{total, hit, value, view, view-eq-none}
use softgre.Hashmap.Valid.{IsValid, lookup-view}
use softgre.Hashmap.Methods.{insert-Inserted, remove-Removed}
use softgre.Hashmap.Iter.Visit.{entries, keys_of, keys-entries}
use softgre.Hashmap.Lifetime.{new-IsFresh}

present_lem : {V : Type 0} (o : Option V) → softgre.Hashmap.Methods.present o ≡ present o
present_lem none = refl
present_lem (some v) = refl

module _ {K V : Type 0} ⦃key : Key K⦄ where
  contains-keys_of :
      (slots : List (Slot K V)) (q : K)
      → contains key.equal (keys_of slots) q ≡ is_some (view slots q)
  unfolding contains entries view value
  contains-keys_of [] q = refl
  contains-keys_of (slot_empty ∷ slots) q = contains-keys_of slots q
  contains-keys_of (slot_deleted ∷ slots) q = contains-keys_of slots q
  contains-keys_of (slot_occupied k v h ∷ slots) q = elim (Bool-cases (key.equal k q)) [
    | inl e ↦ rw e refl
    | inr e ↦ rw e (contains-keys_of slots q)
  ]

  once-keys_of :
      (slots : List (Slot K V))
      → ((q : K) → total (hit q) slots ≤ 1)
      → once key.equal (keys_of slots) ≡ true
  unfolding once entries total hit
  once-keys_of [] u = refl
  once-keys_of (slot_empty ∷ slots) u = once-keys_of slots (λ q. omega (arith, u q))
  once-keys_of (slot_deleted ∷ slots) u = once-keys_of slots (λ q. omega (arith, u q))
  once-keys_of (slot_occupied k v h ∷ slots) u =
      let one : (if key.equal k k then 1 else 0) + total (hit k) slots ≤ 1 = u k in
      let self = key.equal_self k in
      let nowhere : total (hit k) slots ≡ 0 = ground (arith, one, self) in
      let fresh : contains key.equal (keys_of slots) k ≡ false =
        contains-keys_of slots k ∙ ap is_some (view-eq-none k slots nowhere) in
      rw (fresh, once-keys_of slots (λ q. ground (arith, u q))) refl

-- A valid table.
abbrev pub Table : (K V : Type 0) → ⦃key : Key K⦄ → Type 0
Table K V = (m : Hashmap K V) × IsValid m

module _ {K V : Type 0} ⦃key : Key K⦄ (equal_eq : (j k : K) → key.equal j k ≡ true → j ≡ k) where
  -- `free` is called for the keys and the values as the two flags say.
  pub table_map : (key_free value_free : Bool) → MapOps K V (Table K V)
  unfolding hashmap_size
  table_map key_free value_free = record {
    same = key.equal;
    same_iff = λ j k. (equal_eq j k, λ e. rw e (key.equal_self k));
    new = (hashmap_new key_free value_free, (new-IsFresh key_free value_free).0);
    lookup = λ (m, v) k. view m.slots k;
    insert = λ (m, w) k v. let (m', e, r) = insert-Inserted m k v w in (m', r.valid);
    remove = λ (m, w) k. let (r', e, r) = remove-Removed m k w in (r'.0, r.valid);
    size = λ (m, w). hashmap_size m;
    keys = λ (m, w). keys_of m.slots;
    lookup-new = λ k. (new-IsFresh key_free value_free).3 k;
    lookup-insert = λ (m, w) j k v. let (m', e, r) = insert-Inserted m j v w in r.reads k;
    lookup-remove = λ (m, w) j k. let (r', e, r) = remove-Removed m j w in r.reads k;
    size-new = (new-IsFresh key_free value_free).1;
    size-insert = λ (m, w) k v.
        let (m', e, r) = insert-Inserted m k v w in
        ap (λ (n : ℕ). m'.count + n) (sym (present_lem (view m.slots k))) ∙ r.count;
    size-remove = λ (m, w) k.
        let (r', e, r) = remove-Removed m k w in
        ap (λ (n : ℕ). r'.0.count + n) (sym (present_lem (view m.slots k))) ∙ r.count;
    contains-keys = λ (m, w) k. contains-keys_of m.slots k;
    once-keys = λ (m, w). once-keys_of m.slots w.table.unique;
  }

  -- The operations of `table_map` are what the functions of src/hashmap.c return.
  table_map-hashmap :
      (key_free value_free : Bool) (t : Table K V) (k : K) (v : V)
      → let ops = table_map key_free value_free in
        (hashmap_lookup t.0 k ≡ ok (ops.lookup t k))
        × (hashmap_insert t.0 k v ≡ ok (ops.insert t k v).0)
        × (hashmap_remove t.0 k ≡ ok ((ops.remove t k).0, is_some (ops.lookup t k)))
        × (hashmap_keys t.0 ≡ ok (ops.keys t))
  unfolding table_map
  table_map-hashmap key_free value_free (m, w) k v =
      let (m1, e1, r1) = insert-Inserted m k v w in
      let ((m2, b), e2, r2) = remove-Removed m k w in
      (lookup-view w k, e1, e2 ∙ ap (λ (x : Bool). ok (m2, x)) r2.returned, keys-entries m w)
