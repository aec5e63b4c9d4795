-- ===== src/Hashmap/Rehash.antt =====
-- `resize` and the test before it: the placing loop and the new array.
use Prim.Native.Nat.{bit_and}
use native.Mathlib.Nat.{mod-lt, pow-suc}
use softgre.Shared.{
  ℕ, zero, suc, ◌+◌, ◌-◌, ◌*◌, ◌%◌, ◌^◌, ◌≤◌, ◌<◌, ◌≡◌, refl, sym, ap, ◌∙◌, subst, List, [], ◌∷◌,
  Option, none, some, arith, ok, ◌>>=◌, Returns, length, get_or, get_elem?, get_elem?-get_or, set,
  length-set, replicate, length-replicate, ltb, leb, ◌==◌, if◌then◌else◌, Bool-cases, ◌⊎◌, inl, inr,
}
use softgre.Keys.{Key}
use softgre.Hashmap.{
  Slot, slot_empty, slot_occupied, slot_deleted, Hashmap, place, rehash, resize, make_room,
}
use softgre.Hashmap.Slots.{
  total, total-set, total_gap, total-replicate, live, used, live-le-used, hit, value, view,
  or_first, view-eq-none, view-replicate, total_mono,
}
use softgre.Hashmap.Probe.{Vacant, slot_at, Slot-cases, walk_onto, walk_step}
use softgre.Hashmap.Valid.{IsTable, IsValid, mask_mod, replicate-IsTable}
use softgre.Hashmap.Update.{store-IsTable, view-store}

or_first-none {ℓ} : {V : Type ℓ} (o : Option V) → or_first o none ≡ o
or_first-none none = refl
or_first-none (some v) = refl

module _ {ℓ} {K V : Type ℓ} where
  used_of_live : (s : Slot K V) → live s ≡ 1 → used s ≡ 1
  unfolding live used
  used_of_live slot_empty e = cc
  used_of_live slot_deleted e = cc
  used_of_live (slot_occupied k v h) e = refl

module _ {ℓ} {K V : Type ℓ} ⦃key : Key K⦄ (slots : List (Slot K V)) (hash mask : ℕ)
    (masks : (x : ℕ) → bit_and x mask ≡ x % length slots) (room : total live slots < length slots)
    (s : Slot K V) where
  abbrev walk : ℕ → ℕ
  walk d = (hash + d) % length slots

  -- The placing loop ends within one round of the table, in a vacant slot.
  place-Vacant :
      (fuel d j : ℕ)
      → fuel + d ≡ length slots
      → j ≡ walk d
      → ((e : ℕ) → e < d → live (slot_at slots (walk e)) ≡ 1)
      → (i : ℕ) × Vacant slots hash i × (place fuel slots mask j s ≡ ok (set slots i s))
  unfolding place live
  place-Vacant zero d j n e seen =
      let (i, lt, z) = total_gap live slots slot_empty room in
      let (d', near, lands) = walk_onto hash i (length slots) lt in
      let one : live (slot_at slots i) ≡ 1 = rw lands at (seen d' (omega arith)) in
      absurd (omega arith)
  place-Vacant (suc fuel) d j n e seen =
      let lt : j < length slots = rw e (mod-lt (hash + d) (omega arith)) in
      let read : get_elem? slots j ≡ some (slot_at slots j) =
        get_elem?-get_or slots j slot_empty lt in
      let vacant = λ (free : live (slot_at slots j) ≡ 0).
        let v : Vacant slots hash j = record {
          in_range = lt;
          free = free;
          reached = record {
            dist = d;
            dist_lt = omega arith;
            lands = sym e;
            path = λ x near. used_of_live (slot_at slots (walk x)) (seen x near);
          };
        } in
        v in
      elim (Slot-cases (slot_at slots j)) [
        | inl c ↦ (j, vacant (rw c), rw (read ∙ ap some c, place))
        | inr (inl c) ↦ (j, vacant (rw c), rw (read ∙ ap some c, place))
        | inr (inr (k, v, h, c)) ↦
            let next : bit_and (j + 1) mask ≡ walk (d + 1) =
              masks (j + 1)
              ∙ ap (λ (x : ℕ). (x + 1) % length slots) e
              ∙ walk_step hash d (length slots) in
            let here : live (slot_at slots (walk d)) ≡ 1 = rw (← e) (rw c) in
            let (i, vac, run) =
              place-Vacant fuel (d + 1) (bit_and (j + 1) mask) (omega arith) next (λ x near.
                elim (Bool-cases (x == d)) [
                  | inl p ↦ let q : x ≡ d = ground arith in rw q here
                  | inr p ↦ seen x (ground arith)
                ]) in
            (i, vac, rw (read ∙ ap some c, place) run)
      ]

  pub place_home :
      (i : ℕ) × Vacant slots hash i
      × (place (length slots) slots mask (bit_and hash mask) s ≡ ok (set slots i s))
  place_home =
      place-Vacant (length slots) 0 (bit_and hash mask) (omega arith)
        (masks hash ∙ ap (λ (x : ℕ). x % length slots) (omega arith))
        (λ e near. absurd (omega arith))

module _ {ℓ} {K V : Type ℓ} ⦃key : Key K⦄ where
  -- Every entry carries the hash of its key.
  abbrev IsHashed : List (Slot K V) → Type ℓ
  IsHashed slots =
      (i : ℕ) (k : K) (v : V) (h : ℕ) → slot_at slots i ≡ slot_occupied k v h → h ≡ key.hash k

  -- `slots` has the entries of `old` and of `new`, and nothing else.
  pub record Rehashed (old new slots : List (Slot K V)) : Type ℓ where
    pub table : IsTable slots
    pub width : length slots ≡ length new
    pub lives : total live slots ≡ total live old + total live new
    pub clean : total used slots ≡ total live slots
    pub reads : (q : K) → view slots q ≡ or_first (view old q) (view new q)

  -- One entry moves into a table without tombstones.
  record Moved (k : K) (v : V) (new new' : List (Slot K V)) : Type ℓ where
    table : IsTable new'
    width : length new' ≡ length new
    lives : total live new' ≡ total live new + 1
    clean : total used new' ≡ total live new'
    hits : (q : K) → total (hit q) new' ≡ total (hit q) new + hit q (slot_occupied k v (key.hash k))
    reads : (q : K) → view new' q ≡ (if key.equal k q then some v else view new q)

  hit_of_live : (q : K) (s : Slot K V) → live s ≡ 0 → hit q s ≡ 0
  unfolding live hit
  hit_of_live q slot_empty e = refl
  hit_of_live q slot_deleted e = refl
  hit_of_live q (slot_occupied k v h) e = absurd (omega arith)

  place-Moved :
      (k : K) (v : V) (new : List (Slot K V))
      → IsTable new
      → total (hit k) new ≡ 0
      → total live new < length new
      → total used new ≡ total live new
      → Returns
          (place
            (length new)
            new
            (length new - 1)
            (bit_and (key.hash k) (length new - 1))
            (slot_occupied k v (key.hash k)))
          (Moved k v new)
  unfolding live used
  place-Moved k v new t fresh room z =
      let s = slot_occupied k v (key.hash k) in
      let (i, vac, run) = place_home new (key.hash k) (length new - 1) (mask_mod t) room s in
      let lt = vac.in_range in
      let few = total_mono live used (set new i s) live-le-used in
      let lives = total-set live new i s slot_empty lt in
      let useds = total-set used new i s slot_empty lt in
      (
        set new i s,
        run,
        record {
          table = store-IsTable new t i lt k v fresh vac;
          width = length-set new i s;
          lives = omega (arith, vac.free);
          clean = omega (arith, vac.free);
          hits = λ q. omega (
            arith,
            total-set (hit q) new i s slot_empty lt,
            hit_of_live q (slot_at new i) vac.free,
          );
          reads = view-store new t i lt k v fresh vac;
        },
      )

  step-Rehashed :
      (k : K) (v : V) (old new : List (Slot K V)) {new' slots : List (Slot K V)}
      → ((q : K) → total (hit q) (slot_occupied k v (key.hash k) ∷ old) + total (hit q) new ≤ 1)
      → Moved k v new new'
      → Rehashed old new' slots
      → Rehashed (slot_occupied k v (key.hash k) ∷ old) new slots
  unfolding total view live hit value
  step-Rehashed k v old new u m r = record {
    table = r.table;
    width = r.width ∙ m.width;
    lives = omega (arith, r.lives, m.lives);
    clean = r.clean;
    reads = λ q. ground (arith, r.reads q, m.reads q, u q, view-eq-none q old);
  }

  -- A slot that is not occupied is passed over.
  skip-Rehashed :
      (s : Slot K V) (old new : List (Slot K V)) {slots : List (Slot K V)}
      → live s ≡ 0
      → ((q : K) → value q s ≡ none)
      → Rehashed old new slots
      → Rehashed (s ∷ old) new slots
  unfolding total view
  skip-Rehashed s old new z e r = record {
    table = r.table;
    width = r.width;
    lives = omega (arith, r.lives);
    clean = r.clean;
    reads = λ q. rw (e q) (r.reads q);
  }

  rehash-Rehashed :
      (old new : List (Slot K V))
      → IsTable new
      → IsHashed old
      → ((q : K) → total (hit q) old + total (hit q) new ≤ 1)
      → total live old + total live new < length new
      → total used new ≡ total live new
      → Returns (rehash old (length new - 1) new) (Rehashed old new)
  unfolding rehash total view live used hit value get_or
  rehash-Rehashed [] new t hs u room z = (
    new,
    refl,
    record { table = t; width = refl; lives = omega arith; clean = z; reads = λ q. refl },
  )
  rehash-Rehashed (slot_empty ∷ old) new t hs u room z =
      let (slots, run, r) =
        rehash-Rehashed old new t (λ i. hs (suc i)) (λ q. omega (arith, u q)) (omega arith) z in
      (slots, run, skip-Rehashed slot_empty old new refl (λ q. refl) r)
  rehash-Rehashed (slot_deleted ∷ old) new t hs u room z =
      let (slots, run, r) =
        rehash-Rehashed old new t (λ i. hs (suc i)) (λ q. omega (arith, u q)) (omega arith) z in
      (slots, run, skip-Rehashed slot_deleted old new refl (λ q. refl) r)
  rehash-Rehashed (slot_occupied k v h ∷ old) new t hs u room z =
      subst
        (λ x.
          Returns (rehash (slot_occupied k v x ∷ old) (length new - 1) new)
            (Rehashed (slot_occupied k v x ∷ old) new))
        (sym (hs 0 k v h refl))
        (let fresh : total (hit k) new ≡ 0 = ground (arith, u k, key.equal_self k) in
          let (new', run, m) = place-Moved k v new t fresh (omega arith) z in
          let (slots, run', r) =
            rehash-Rehashed old new' m.table (λ i. hs (suc i)) (λ q. omega (arith, u q, m.hits q))
              (omega (arith, m.lives, m.width)) m.clean in
          (slots, rw (run, ◌>>=◌) (rw m.width at run'), step-Rehashed k v old new u m r))

  -- Rehashing a well-formed map into a larger power of two ends, and keeps every entry.
  record Resized (m m' : Hashmap K V) (new_cap : ℕ) : Type ℓ where
    valid : IsValid m'
    width : m'.cap ≡ new_cap
    tight : m'.occupied ≡ m'.count
    count : m'.count ≡ m.count
    freed : m'.freed ≡ m.freed
    key_free : m'.key_free ≡ m.key_free
    value_free : m'.value_free ≡ m.value_free
    reads : (q : K) → view m'.slots q ≡ view m.slots q

  resize-Resized :
      (m : Hashmap K V) (e : ℕ)
      → IsValid m
      → 16 ≤ 2 ^ e
      → m.count * 4 < 2 ^ e * 3
      → Returns (resize m (2 ^ e)) λ m'. Resized m m' (2 ^ e)
  unfolding resize hit live used
  resize-Resized m e v big load =
      let new : List (Slot K V) = replicate (2 ^ e) slot_empty in
      let wide : length new ≡ 2 ^ e = length-replicate (2 ^ e) slot_empty in
      let lives : total live new ≡ 0 = total-replicate live (2 ^ e) slot_empty refl in
      let useds : total used new ≡ 0 = total-replicate used (2 ^ e) slot_empty refl in
      let (slots, run, r) =
        rehash-Rehashed m.slots new (replicate-IsTable e)
          (λ i k x h q. (v.table.probed i k x h q).0)
          (λ q. omega (arith, v.table.unique q, total-replicate (hit q) (2 ^ e) slot_empty refl))
          (omega arith) (useds ∙ sym lives) in
      (
        record m { slots = slots; cap = 2 ^ e; occupied = m.count },
        rw (rw wide at run),
        record {
          valid = record {
            table = r.table;
            width = r.width ∙ wide;
            roomy = big;
            counted = omega arith;
            used_count = omega arith;
            load = load;
          };
          width = refl;
          tight = refl;
          count = refl;
          freed = refl;
          key_free = refl;
          value_free = refl;
          reads = λ q. rw (r.reads q, view-replicate q (2 ^ e)) (or_first-none (view m.slots q));
        },
      )

  -- The test before an insert: afterwards one more slot may be used, and nothing else changed.
  pub record Roomy (m m' : Hashmap K V) : Type ℓ where
    pub valid : IsValid m'
    pub room : (m'.occupied + 1) * 4 < m'.cap * 3
    pub count : m'.count ≡ m.count
    pub freed : m'.freed ≡ m.freed
    pub key_free : m'.key_free ≡ m.key_free
    pub value_free : m'.value_free ≡ m.value_free
    pub size : (m'.cap ≡ m.cap) ⊎ (m'.cap < 4 * (m.count + 1))
    pub reads : (q : K) → view m'.slots q ≡ view m.slots q

  Resized-Roomy :
      {m m' : Hashmap K V} {n : ℕ}
      → Resized m m' n
      → (m.count + 1) * 4 < n * 3
      → (n ≡ m.cap) ⊎ (n < 4 * (m.count + 1))
      → Roomy m m'
  Resized-Roomy r h g = record {
    valid = r.valid;
    room = omega (arith, r.tight, r.count, r.width);
    count = r.count;
    freed = r.freed;
    key_free = r.key_free;
    value_free = r.value_free;
    size = rw r.width g;
    reads = r.reads;
  }

  pub make_room-Roomy : (m : Hashmap K V) → IsValid m → Returns (make_room m) (Roomy m)
  unfolding make_room
  make_room-Roomy m v =
      let e = v.table.exponent in
      let p : m.cap ≡ 2 ^ e = sym v.width ∙ v.table.power in
      let few : m.count ≤ m.occupied =
        omega (arith, total_mono live used m.slots live-le-used, v.counted, v.used_count) in
      elim (Bool-cases (leb (m.cap * 3) ((m.occupied + 1) * 4))) [
        | inr f ↦ (
          m,
          rw f,
          record {
            valid = v;
            room = ground arith;
            count = refl;
            freed = refl;
            key_free = refl;
            value_free = refl;
            size = inl refl;
            reads = λ q. refl;
          },
        )
        | inl t ↦ elim (Bool-cases (ltb m.cap ((m.count + 1) * 2))) [
          | inl t' ↦
              let twice : m.cap * 2 ≡ 2 ^ suc e = omega (arith, pow-suc 2 e) in
              let (m', run, r) =
                resize-Resized m (suc e) v (omega (arith, v.roomy))
                  (omega (arith, v.load, v.roomy)) in
              (
                m',
                rw (t, t', twice) run,
                Resized-Roomy r (omega (arith, v.load, v.roomy)) (inr (ground (arith, twice))),
              )
          | inr f' ↦
              let few' : (m.count + 1) * 2 ≤ m.cap = ground arith in
              let (m', run, r) =
                resize-Resized m e v (omega (arith, v.roomy)) (omega (arith, v.roomy)) in
              (m', rw (t, f', p) run, Resized-Roomy r (omega (arith, v.roomy)) (inl (sym p)))
        ]
      ]
