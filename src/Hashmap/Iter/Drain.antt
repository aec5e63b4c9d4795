-- ===== src/Hashmap/Iter/Drain.antt =====
-- Whole loops over the iterator of src/hashmap.c.
use softgre.Shared.{
  ℕ, zero, suc, ◌+◌, ◌-◌, ◌≤◌, ◌<◌, ◌≡◌, sym, ap, ◌∙◌, true, false, List, [], ◌∷◌, none, some,
  arith, ok, ◌>>=◌, Returns, length, set, inl, inr,
}
use softgre.Keys.{Key}
use softgre.Hashmap.{
  Slot, slot_empty, slot_occupied, slot_deleted, Hashmap, free_entry, delete_slot,
}
use softgre.Hashmap.Slots.{total_mono, live, hit, value, view, view-eq-none, view_of_entry}
use softgre.Hashmap.Probe.{slot_at}
use softgre.Hashmap.Valid.{IsValid}
use softgre.Hashmap.Methods.{present, delete_slot-Removed}
use softgre.Hashmap.Iter.{
  HashmapIter, hashmap_iter_init, hashmap_iter_next, hashmap_iter_remove, visit, drain,
}
use softgre.Hashmap.Iter.Visit.{
  entries, entries_from, length-entries, Visits, next_loop-Visits, drop-set,
}

module _ {ℓ} {K V : Type ℓ} where
  iter_next-Visits :
      (m : Hashmap K V) (it : HashmapIter)
      → length m.slots ≡ m.cap
      → it.slot ≤ m.cap
      → Returns (hashmap_iter_next m it) (Visits m it.slot)
  unfolding hashmap_iter_next
  iter_next-Visits m it w h = next_loop-Visits (m.cap - it.slot) m it (omega arith)

  visit_from :
      (fuel : ℕ) (m : Hashmap K V) (it : HashmapIter)
      → length m.slots ≡ m.cap
      → it.slot ≤ m.cap
      → length (entries_from m.slots it.slot) < fuel
      → visit fuel m it ≡ ok (entries_from m.slots it.slot)
  unfolding visit
  visit_from zero m it w h f = absurd (omega arith)
  visit_from (suc fuel) m it w h f =
      let (r, run, next) = iter_next-Visits m it w h in
      elim next [
        | inr (none_left, stop) ↦ rw (run, ◌>>=◌, stop, none_left)
        | inl (k, v, s) ↦
            let p : s.index + 1 ≡ suc s.index = omega arith in
            let more : length (entries_from m.slots (s.index + 1)) < fuel =
              rw p (omega (arith, ap length s.rest)) in
            let rest =
              visit_from fuel m
                (record { slot = s.index + 1; current = some s.index; valid = true }) w
                (omega (arith, s.in_range)) more in
            rw (run ∙ ap ok s.result, ◌>>=◌, rest, s.rest, p)
      ]

  -- With one more round than there are entries, the loop ends and has seen the entries in order.
  pub visit-entries :
      (m : Hashmap K V)
      → length m.slots ≡ m.cap
      → visit (suc (length (entries m.slots))) m hashmap_iter_init ≡ ok (entries m.slots)
  unfolding hashmap_iter_init
  visit-entries m w = visit_from (suc (length (entries m.slots))) m _ w (omega arith) (omega arith)

module _ {ℓ} {K V : Type ℓ} ⦃key : Key K⦄ where
  hit-le-live : (q : K) (s : Slot K V) → hit q s ≤ live s
  unfolding hit live
  hit-le-live q slot_empty = omega arith
  hit-le-live q slot_deleted = omega arith
  hit-le-live q (slot_occupied k v h) = ground arith

  -- What the loop that removes what it visits leaves.
  pub record Drained (m : Hashmap K V) (es : List (K × V)) (r : Hashmap K V × List (K × V))
      : Type ℓ where
    pub valid : IsValid r.0
    pub seen : r.1 ≡ es
    pub count : r.0.count + length es ≡ m.count

  -- Removing an entry leaves those after it in place.
  entries_after :
      (m m' : Hashmap K V) (i : ℕ)
      → delete_slot m i ≡ ok m'
      → entries_from m'.slots (i + 1) ≡ entries_from m.slots (i + 1)
  unfolding delete_slot free_entry
  entries_after m m' i run =
      let e : m'.slots ≡ set m.slots i slot_deleted = ground arith in
      let p : i + 1 ≡ suc i = omega arith in
      rw (p, e) (ap entries (drop-set m.slots i slot_deleted))

  drain_from :
      (fuel : ℕ) (m : Hashmap K V) (it : HashmapIter)
      → IsValid m
      → it.slot ≤ m.cap
      → length (entries_from m.slots it.slot) < fuel
      → Returns (drain fuel m it) (Drained m (entries_from m.slots it.slot))
  unfolding drain hashmap_iter_remove value
  drain_from zero m it v h f = absurd (omega arith)
  drain_from (suc fuel) m it v h f =
      let (r, run, next) = iter_next-Visits m it v.width h in
      elim next [
        | inr (none_left, stop) ↦ (
          (m, []),
          rw (run, ◌>>=◌, stop),
          record { valid = v; seen = sym none_left; count = rw none_left (omega arith) },
        )
        | inl (k, x, s) ↦
            let it' : HashmapIter = record {
              slot = s.index + 1;
              current = some s.index;
              valid = true;
            } in
            let at : value k (slot_at m.slots s.index) ≡ some x = rw (s.entry, key.equal_self k) in
            let (m', del, rem) = delete_slot-Removed m s.index k x v s.in_range at in
            let same : entries_from m'.slots (s.index + 1) ≡ entries_from m.slots (s.index + 1) =
              entries_after m m' s.index del in
            let p : s.index + 1 ≡ suc s.index = omega arith in
            let fewer : length (entries_from m'.slots (s.index + 1)) < fuel =
              omega (arith, ap length s.rest, ap length (same ∙ ap (entries_from m.slots) p)) in
            let (r', run', d) =
              drain_from fuel m' (record it' { valid = false }) rem.valid
                (omega (arith, s.in_range, v.width, rem.cap)) fewer in
            let was : view m.slots k ≡ some x =
              view_of_entry k m.slots s.index x s.in_range (v.table.unique k) at in
            let one : m'.count + 1 ≡ m.count =
              ap (λ o. m'.count + present o) (sym was) ∙ rem.count in
            (
              (r'.0, (k, x) ∷ r'.1),
              rw (run ∙ ap ok s.result, ◌>>=◌, del, run'),
              record {
                valid = d.valid;
                seen =
                    ap (λ es. (k, x) ∷ es) (d.seen ∙ same ∙ ap (entries_from m.slots) p)
                    ∙ sym s.rest;
                count = omega (
                  arith,
                  d.count,
                  one,
                  ap length s.rest,
                  ap length (same ∙ ap (entries_from m.slots) p),
                );
              },
            )
      ]

  -- `while (hashmap_iter_next(...)) hashmap_iter_remove(...)` ends, sees every entry once, and leaves
  -- a well-formed map with nothing in it.
  pub drain-Drained :
      (m : Hashmap K V)
      → IsValid m
      → Returns (drain (suc (length (entries m.slots))) m hashmap_iter_init) λ r.
        IsValid r.0
        × (r.1 ≡ entries m.slots)
        × (r.0.count ≡ 0)
        × ((q : K) → view r.0.slots q ≡ none)
  unfolding hashmap_iter_init
  drain-Drained m v =
      let (r, run, d) =
        drain_from (suc (length (entries m.slots))) m _ v (omega arith) (omega arith) in
      let empty : r.0.count ≡ 0 = omega (arith, d.count, length-entries m.slots, v.counted) in
      (
        r,
        run,
        (
          d.valid,
          d.seen,
          empty,
          λ q.
              view-eq-none q r.0.slots
                (omega (arith, total_mono (hit q) live r.0.slots (hit-le-live q), d.valid.counted)),
        ),
      )
