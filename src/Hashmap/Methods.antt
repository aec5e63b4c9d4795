-- ===== src/Hashmap/Methods.antt =====
-- The operations of the map against a function from keys to values (src/hashmap.c).
use softgre.Shared.{
  ℕ, ◌+◌, ◌-◌, ◌*◌, ◌≤◌, ◌<◌, ◌≡◌, refl, sym, ap, ◌∙◌, Bool, true, false, List, ◌∷◌, Option, none,
  some, arith, ok, ◌>>=◌, Returns, length, get_elem?, set, get_elem?-get_or, length-set,
  if◌then◌else◌, Bool-cases, ◌⊎◌, inl, inr,
}
use softgre.Keys.{Key}
use softgre.Hashmap.{
  slot_empty, slot_occupied, slot_deleted, Freed, key_freed, value_freed, Hashmap, fill_slot,
  free_entry, replace_value, delete_slot, hashmap_lookup, hashmap_insert, hashmap_remove,
}
use softgre.Hashmap.Slots.{
  total, total-set, live, used, hit, value, view, view_of_entry, view-eq-none, value-eq-some,
  get_or-le-total, total-hit_congr,
}
use softgre.Hashmap.Probe.{Vacant, slot_at, Slot-cases}
use softgre.Hashmap.Valid.{IsValid, find_map-FindOk, lookup-view, is_some}
use softgre.Hashmap.Update.{
  store-IsTable, view-store, delete-IsTable, view-delete, replace-IsTable, view-replace,
}
use softgre.Hashmap.Rehash.{make_room-Roomy}

-- 1 if the key was there.
abbrev pub present {ℓ} : {V : Type ℓ} → Option V → ℕ
present none = 0
present (some v) = 1

module _ {ℓ} {K V : Type ℓ} where
  -- The destructor calls for a key and an old value, on top of the log.
  abbrev pub log_freed : Hashmap K V → K → Option V → List (Freed K V)
  log_freed m k none = m.freed
  log_freed m k (some v) =
      let log = if m.key_free then key_freed k ∷ m.freed else m.freed in
      if m.value_free then value_freed v ∷ log else log

module _ {ℓ} {K V : Type ℓ} ⦃key : Key K⦄ where
  -- The map `m'` is `m` with `v` at `k`: a new key is counted, and a replace frees the key that
  -- was passed and the value that was there.
  pub record Inserted (m : Hashmap K V) (k : K) (v : V) (m' : Hashmap K V) : Type ℓ where
    pub valid : IsValid m'
    pub reads : (q : K) → view m'.slots q ≡ (if key.equal k q then some v else view m.slots q)
    pub count : m'.count + present (view m.slots k) ≡ m.count + 1
    pub freed : m'.freed ≡ log_freed m k (view m.slots k)
    pub size : (m'.cap ≡ m.cap) ⊎ (m'.cap < 4 * (m.count + 1))

  -- Storing a new entry in the slot that `find` reported.
  fill_slot-Inserted :
      (m : Hashmap K V) (i : ℕ) (k : K) (v : V)
      → IsValid m
      → (m.occupied + 1) * 4 < m.cap * 3
      → total (hit k) m.slots ≡ 0
      → Vacant m.slots (key.hash k) i
      → Returns (fill_slot m i (slot_occupied k v (key.hash k))) λ m'.
        IsValid m'
        × ((q : K) → view m'.slots q ≡ (if key.equal k q then some v else view m.slots q))
        × (m'.count ≡ m.count + 1)
        × (m'.cap ≡ m.cap)
        × (m'.freed ≡ m.freed)
  unfolding fill_slot live used
  fill_slot-Inserted m i k v w room fresh vac =
      let lt = vac.in_range in
      let s = slot_occupied k v (key.hash k) in
      let read : get_elem? m.slots i ≡ some (slot_at m.slots i) =
        get_elem?-get_or m.slots i slot_empty lt in
      let lives = total-set live m.slots i s slot_empty lt in
      let useds = total-set used m.slots i s slot_empty lt in
      let valid = λ (occ : ℕ) (u : total used (set m.slots i s) ≡ occ) (l : occ * 4 < m.cap * 3).
        let r : IsValid
            (record m { slots = set m.slots i s; occupied = occ; count = m.count + 1 }) =
          record {
            table = store-IsTable m.slots w.table i lt k v fresh vac;
            width = length-set m.slots i s ∙ w.width;
            roomy = w.roomy;
            counted = omega (arith, vac.free, w.counted);
            used_count = u;
            load = l;
          } in
        r in
      let reads = view-store m.slots w.table i lt k v fresh vac in
      elim (Slot-cases (slot_at m.slots i)) [
        | inl c ↦
            let z : used (slot_at m.slots i) ≡ 0 = rw c in
            (
              record m { slots = set m.slots i s; occupied = m.occupied + 1; count = m.count + 1 },
              rw (read ∙ ap some c, fill_slot),
              (valid (m.occupied + 1) (omega (arith, w.used_count)) room, reads, refl, refl, refl),
            )
        | inr (inl c) ↦
            let z : used (slot_at m.slots i) ≡ 1 = rw c in
            (
              record m { slots = set m.slots i s; count = m.count + 1 },
              rw (read ∙ ap some c, fill_slot),
              (valid m.occupied (omega (arith, w.used_count)) w.load, reads, refl, refl, refl),
            )
        | inr (inr (k', v', h, c)) ↦
            let z : live (slot_at m.slots i) ≡ 1 = rw c in absurd (omega (arith, vac.free))
      ]

  -- Replacing the value in the slot that `find` returned.
  replace_value-Inserted :
      (m : Hashmap K V) (i : ℕ) (k : K) (old v : V)
      → IsValid m
      → i < length m.slots
      → value k (slot_at m.slots i) ≡ some old
      → Returns (replace_value m i k v) λ m'.
        IsValid m'
        × ((q : K) → view m'.slots q ≡ (if key.equal k q then some v else view m.slots q))
        × (m'.count ≡ m.count)
        × (m'.cap ≡ m.cap)
        × (m'.freed ≡ log_freed m k (some old))
  unfolding replace_value live used
  replace_value-Inserted m i k old v w lt there =
      let (k', h, o, same) = value-eq-some k (slot_at m.slots i) old there in
      let s = slot_occupied k' v h in
      let read : get_elem? m.slots i ≡ some (slot_occupied k' old h) =
        get_elem?-get_or m.slots i slot_empty lt ∙ ap some o in
      let one : live (slot_at m.slots i) ≡ 1 = rw o in
      let one' : used (slot_at m.slots i) ≡ 1 = rw o in
      (
        record m { slots = set m.slots i s; freed = log_freed m k (some old) },
        rw (read, replace_value),
        (
          record {
            table = replace-IsTable m.slots w.table i lt k old there k' v h o;
            width = length-set m.slots i s ∙ w.width;
            roomy = w.roomy;
            counted = omega (arith, w.counted, total-set live m.slots i s slot_empty lt);
            used_count = omega (arith, w.used_count, total-set used m.slots i s slot_empty lt);
            load = w.load;
          },
          view-replace m.slots w.table i lt k old there k' v h o same,
          refl,
          refl,
          refl,
        ),
      )

  log_freed_congr :
      (m m' : Hashmap K V) (k : K) (o : Option V)
      → m'.freed ≡ m.freed
      → m'.key_free ≡ m.key_free
      → m'.value_free ≡ m.value_free
      → log_freed m' k o ≡ log_freed m k o
  log_freed_congr m m' k none e f g = e
  log_freed_congr m m' k (some v) e f g = rw (e, f, g)

  -- `hashmap_insert` runs without a fault and refines the update of a function.
  pub insert-Inserted :
      (m : Hashmap K V) (k : K) (v : V)
      → IsValid m
      → Returns (hashmap_insert m k v) (Inserted m k v)
  unfolding hashmap_insert
  insert-Inserted m k v w =
      let (m1, run, r) = make_room-Roomy m w in
      elim (find_map-FindOk r.valid k) [
        | inl (i, old, e, lt, there) ↦
            let (m2, run', (valid, reads, count, cap, log)) =
              replace_value-Inserted m1 i k old v r.valid lt there in
            let was : view m.slots k ≡ some old =
              sym (r.reads k) ∙ view_of_entry k m1.slots i old lt (r.valid.table.unique k) there in
            (
              m2,
              rw (run, ◌>>=◌, e) run',
              record {
                valid = valid;
                reads = λ q. rw (← r.reads q) (reads q);
                count = rw was (omega (arith, count, r.count));
                freed =
                    rw was
                      (log ∙ log_freed_congr m m1 k (some old) r.freed r.key_free r.value_free);
                size = rw cap r.size;
              },
            )
        | inr (i, e, fresh, vac) ↦
            let (m2, run', (valid, reads, count, cap, log)) =
              fill_slot-Inserted m1 i k v r.valid r.room fresh vac in
            let was : view m.slots k ≡ none = sym (r.reads k) ∙ view-eq-none k m1.slots fresh in
            (
              m2,
              rw (run, ◌>>=◌, e) run',
              record {
                valid = valid;
                reads = λ q. rw (← r.reads q) (reads q);
                count = rw was (omega (arith, count, r.count));
                freed = rw was (log ∙ r.freed);
                size = rw cap r.size;
              },
            )
      ]

  -- The map `m'` is `m` without `k`, and `b` says whether the key was there; the stored key and
  -- value are freed.
  pub record Removed (m : Hashmap K V) (k : K) (m' : Hashmap K V) (b : Bool) : Type ℓ where
    pub valid : IsValid m'
    pub returned : b ≡ is_some (view m.slots k)
    pub reads : (q : K) → view m'.slots q ≡ (if key.equal k q then none else view m.slots q)
    pub count : m'.count + present (view m.slots k) ≡ m.count
    pub cap : m'.cap ≡ m.cap
    pub freed : (k' : K) × (key.equal k' k ≡ true) × (m'.freed ≡ log_freed m k' (view m.slots k))

  -- Leaving a tombstone in the slot of an entry.
  pub delete_slot-Removed :
      (m : Hashmap K V) (i : ℕ) (k : K) (old : V)
      → IsValid m
      → i < length m.slots
      → value k (slot_at m.slots i) ≡ some old
      → Returns (delete_slot m i) λ m'. Removed m k m' true
  unfolding delete_slot free_entry live used
  delete_slot-Removed m i k old w lt there =
      let (k', h, o, same) = value-eq-some k (slot_at m.slots i) old there in
      let read : get_elem? m.slots i ≡ some (slot_occupied k' old h) =
        get_elem?-get_or m.slots i slot_empty lt ∙ ap some o in
      let one : live (slot_at m.slots i) ≡ 1 = rw o in
      let one' : used (slot_at m.slots i) ≡ 1 = rw o in
      let was : view m.slots k ≡ some old =
        view_of_entry k m.slots i old lt (w.table.unique k) there in
      let some_live : 1 ≤ m.count =
        omega (arith, w.counted, get_or-le-total live m.slots i slot_empty lt) in
      (
        record (free_entry m k' old) { slots = set m.slots i slot_deleted; count = m.count - 1 },
        rw (read, delete_slot),
        record {
          valid = record {
            table = delete-IsTable m.slots w.table i lt k old there;
            width = length-set m.slots i slot_deleted ∙ w.width;
            roomy = w.roomy;
            counted = omega (arith, w.counted, total-set live m.slots i slot_deleted slot_empty lt);
            used_count =
                omega (arith, w.used_count, total-set used m.slots i slot_deleted slot_empty lt);
            load = w.load;
          };
          returned = rw was;
          reads = view-delete m.slots w.table i lt k old there;
          count = rw was (omega arith);
          cap = refl;
          freed = (k', same, rw was);
        },
      )

  -- `hashmap_remove` runs without a fault and refines the removal from a function.
  pub remove-Removed :
      (m : Hashmap K V) (k : K) → IsValid m → Returns (hashmap_remove m k) λ r. Removed m k r.0 r.1
  unfolding hashmap_remove
  remove-Removed m k w = elim (find_map-FindOk w k) [
    | inl (i, old, e, lt, there) ↦
        let (m', run, r) = delete_slot-Removed m i k old w lt there in
        ((m', true), rw (e, hashmap_remove, run), r)
    | inr (i, e, fresh, vac) ↦
        let was : view m.slots k ≡ none = view-eq-none k m.slots fresh in
        (
          (m, false),
          rw (e, hashmap_remove),
          record {
            valid = w;
            returned = rw was;
            reads = λ q. elim (Bool-cases (key.equal k q)) [
              | inl t ↦ rw t (view-eq-none q m.slots (total-hit_congr k q m.slots t ∙ fresh))
              | inr f ↦ rw f
            ];
            count = rw was (omega arith);
            cap = refl;
            freed = (k, key.equal_self k, rw was);
          },
        )
  ]

  -- A lookup after an insert: the new value under every equal key, and what was there elsewhere.
  pub lookup-insert :
      (m : Hashmap K V) (k q : K) (v : V)
      → IsValid m
      → hashmap_insert m k v >>= (λ m'. hashmap_lookup m' q)
        ≡ (if key.equal k q then ok (some v) else hashmap_lookup m q)
  lookup-insert m k q v w =
      let (m', run, r) = insert-Inserted m k v w in
      rw (run, ◌>>=◌, lookup-view r.valid q, lookup-view w q, r.reads q) (ground arith)

  -- A lookup after a remove: nothing under an equal key, and what was there elsewhere.
  pub lookup-remove :
      (m : Hashmap K V) (k q : K)
      → IsValid m
      → hashmap_remove m k >>= (λ r. hashmap_lookup r.0 q)
        ≡ (if key.equal k q then ok none else hashmap_lookup m q)
  lookup-remove m k q w =
      let (r', run, r) = remove-Removed m k w in
      rw (run, ◌>>=◌, lookup-view r.valid q, lookup-view w q, r.reads q) (ground arith)
