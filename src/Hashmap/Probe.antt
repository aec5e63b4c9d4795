-- ===== src/Hashmap/Probe.antt =====
-- The probing loop of `find` in src/hashmap.c against what the array means.
use Prim.Native.Nat.{bit_and}
use native.Mathlib.Nat.{
  mod-lt, mod-eq_of_lt, mod-add-mod, add-mod-mod, mul-add-mod_self_left, div-add-mod,
}
use native.Mathlib.Decide.{dec_lt}
use softgre.Shared.{
  ℕ, zero, suc, ◌+◌, ◌-◌, ◌*◌, ◌/◌, ◌%◌, ◌<◌, ◌≡◌, refl, sym, ap, ◌∙◌, subst, true, false, ◌&&◌,
  List, Option, none, some, arith, ◌==◌, length, get_or, get_elem?, get_elem?-get_or, Bool-cases,
  inl, inr, ◌⊎◌,
}
use softgre.Keys.{Key}
use softgre.Hashmap.{
  Slot, slot_empty, slot_occupied, slot_deleted, Find, found, missing, first_reusable, find_loop,
}
use softgre.Hashmap.Slots.{total, total-eq-zero, total_gap, live, used, hit, value, hit-value}

-- Every slot lies on the walk from any start.
pub walk_onto : (hash i n : ℕ) → i < n → (d : ℕ) × (d < n) × ((hash + d) % n ≡ i)
walk_onto hash i n lt =
    let pos : 0 < n = omega arith in
    let r = hash % n in
    let small : r < n = mod-lt hash pos in
    let e : hash + (i + n - r) ≡ n * (hash / n + 1) + i = omega (arith, div-add-mod hash n) in
    (
      (i + n - r) % n,
      mod-lt (i + n - r) pos,
      add-mod-mod hash (i + n - r) n
          ∙ ap (λ (x : ℕ). x % n) e
          ∙ mul-add-mod_self_left n (hash / n + 1) i
          ∙ mod-eq_of_lt lt,
    )

pub walk_step : (hash d n : ℕ) → ((hash + d) % n + 1) % n ≡ (hash + (d + 1)) % n
walk_step hash d n = mod-add-mod (hash + d) n 1 ∙ ap (λ (x : ℕ). x % n) (omega arith)

module _ {ℓ} {K V : Type ℓ} where
  -- The slot at an index.
  abbrev pub slot_at : List (Slot K V) → ℕ → Slot K V
  slot_at slots i = get_or slots i slot_empty

  pub Slot-cases :
      (s : Slot K V)
      → (s ≡ slot_empty)
        ⊎ (s ≡ slot_deleted)
        ⊎ ((k : K) × (v : V) × (h : ℕ) × (s ≡ slot_occupied k v h))
  Slot-cases slot_empty = inl refl
  Slot-cases slot_deleted = inr (inl refl)
  Slot-cases (slot_occupied k v h) = inr (inr (k, v, h, refl))

  -- The walk from `hash` comes to slot `i` before any empty slot.
  pub record Reached (slots : List (Slot K V)) (hash i : ℕ) : Type 0 where
    pub dist : ℕ
    pub dist_lt : dist < length slots
    pub lands : (hash + dist) % length slots ≡ i
    pub path : (d : ℕ) → d < dist → used (slot_at slots ((hash + d) % length slots)) ≡ 1

module _ {ℓ} {K V : Type ℓ} ⦃key : Key K⦄ where
  -- Every entry carries the hash of its key, and the walk from that hash comes to it.
  abbrev pub IsProbed : List (Slot K V) → Type ℓ
  IsProbed slots =
      (i : ℕ) (k : K) (v : V) (h : ℕ)
      → slot_at slots i ≡ slot_occupied k v h
      → (h ≡ key.hash k) × Reached slots h i

  -- A slot in which the entry of a missing key can be stored.
  pub record Vacant (slots : List (Slot K V)) (hash i : ℕ) : Type 0 where
    pub in_range : i < length slots
    pub free : live (slot_at slots i) ≡ 0
    pub reached : Reached slots hash i

  -- A right answer of `find`: the slot of the key's entry, or, where there is none, a vacant slot.
  abbrev pub FindOk : List (Slot K V) → K → Find → Type ℓ
  FindOk slots k r =
      ((i : ℕ) × (v : V) × (r ≡ found i)
        × (i < length slots)
        × (value k (slot_at slots i) ≡ some v))
      ⊎ ((i : ℕ) × (r ≡ missing (some i)) × (total (hit k) slots ≡ 0) × Vacant slots (key.hash k) i)

module _ {ℓ} {K V : Type ℓ} ⦃key : Key K⦄ (slots : List (Slot K V)) (k : K) (mask : ℕ)
    (masks : (x : ℕ) → bit_and x mask ≡ x % length slots) (probed : IsProbed slots)
    (room : total used slots < length slots) where
  abbrev walk : ℕ → ℕ
  walk d = (key.hash k + d) % length slots

  walk-lt : (d : ℕ) → walk d < length slots
  walk-lt d = mod-lt (key.hash k + d) (omega arith)

  -- What the loop has seen before it comes to distance `d`.
  record Seen (d : ℕ) : Type ℓ where
    on_way : (e : ℕ) → e < d → used (slot_at slots (walk e)) ≡ 1
    no_hit : (e : ℕ) → e < d → value k (slot_at slots (walk e)) ≡ none

  Seen-next :
      (d : ℕ)
      → Seen d
      → used (slot_at slots (walk d)) ≡ 1
      → value k (slot_at slots (walk d)) ≡ none
      → Seen (d + 1)
  Seen-next d s u v = record {
    on_way = λ e lt. elim (Bool-cases (e == d)) [
      | inl p ↦ let q : e ≡ d = ground arith in rw q u
      | inr p ↦ s.on_way e (ground arith)
    ];
    no_hit = λ e lt. elim (Bool-cases (e == d)) [
      | inl p ↦ let q : e ≡ d = ground arith in rw q v
      | inr p ↦ s.no_hit e (ground arith)
    ];
  }

  -- All slots seen: one of them is empty, which stopped the loop.
  not-Seen_all : ¬ Seen (length slots)
  not-Seen_all s =
      let (i, lt, z) = total_gap used slots slot_empty room in
      let (d, near, lands) = walk_onto (key.hash k) i (length slots) lt in
      let e : used (slot_at slots i) ≡ 1 = rw lands at (s.on_way d near) in omega arith

  -- An entry of the key that the walk reaches stands neither before, nor at, nor after an empty
  -- slot that ends the search.
  entry_absent :
      (d i : ℕ) (k' : K) (v : V) (h : ℕ)
      → Seen d
      → slot_at slots (walk d) ≡ slot_empty
      → slot_at slots i ≡ slot_occupied k' v h
      → key.equal k' k ≡ true
      → Reached slots (key.hash k) i
      → ⊥
  unfolding value used
  entry_absent d i k' v h s e c eq r = elim (dec_lt r.dist d) [
    | yes lt ↦
        let none_here : value k (slot_at slots i) ≡ none = rw r.lands at (s.no_hit r.dist lt) in
        let some_here : value k (slot_at slots i) ≡ some v = rw (c, eq) in cc
    | no ge ↦ elim (dec_lt d r.dist) [
      | yes lt ↦
          let one : used (slot_at slots (walk d)) ≡ 1 = r.path d lt in
          let nil : used (slot_at slots (walk d)) ≡ 0 = rw e in omega arith
      | no le ↦
          let at : d ≡ r.dist = omega arith in
          let there : walk d ≡ i = rw at r.lands in
          let empty : slot_at slots i ≡ slot_empty = rw there at e in cc
    ]
  ]

  -- So an empty slot on the way means that no slot holds the key.
  value_absent :
      (d : ℕ)
      → Seen d
      → slot_at slots (walk d) ≡ slot_empty
      → (i : ℕ) → value k (slot_at slots i) ≡ none
  unfolding value
  value_absent d s e i = elim (Slot-cases (slot_at slots i)) [
    | inl c ↦ rw c
    | inr (inl c) ↦ rw c
    | inr (inr (k', v, h, c)) ↦ elim (Bool-cases (key.equal k' k)) [
      | inr ne ↦ rw (c, ne)
      | inl eq ↦
          let (hash_eq, r) = probed i k' v h c in
          let same : h ≡ key.hash k = hash_eq ∙ key.hash-equal k' k eq in
          absurd (entry_absent d i k' v h s e c eq (subst (λ x. Reached slots x i) same r))
    ]
  ]

  total_absent : (d : ℕ) → Seen d → slot_at slots (walk d) ≡ slot_empty → total (hit k) slots ≡ 0
  total_absent d s e =
      total-eq-zero (hit k) slots slot_empty
        (λ i _. rw (hit-value k (slot_at slots i), value_absent d s e i))

  -- What is known of the first reusable slot.
  abbrev ReusableOk : Option ℕ → Type 0
  ReusableOk none = Unit {0}
  ReusableOk (some i) = Vacant slots (key.hash k) i

  here_Vacant :
      (d : ℕ)
      → d < length slots
      → Seen d
      → live (slot_at slots (walk d)) ≡ 0
      → Vacant slots (key.hash k) (walk d)
  here_Vacant d lt s free = record {
    in_range = walk-lt d;
    free = free;
    reached = record { dist = d; dist_lt = lt; lands = refl; path = s.on_way };
  }

  first_reusable-Vacant :
      (o : Option ℕ) (i : ℕ)
      → ReusableOk o
      → Vacant slots (key.hash k) i
      → (j : ℕ) × (first_reusable o i ≡ some j) × Vacant slots (key.hash k) j
  first_reusable-Vacant none i u v = (i, refl, v)
  first_reusable-Vacant (some j) i u v = (j, refl, u)

  -- The test of the loop at an entry: without a hit it goes on.
  value_missed :
      (i : ℕ) (k' : K) (v : V) (h : ℕ)
      → slot_at slots i ≡ slot_occupied k' v h
      → (h == key.hash k && key.equal k' k) ≡ false
      → value k (slot_at slots i) ≡ none
  unfolding value
  value_missed i k' v h c t = rw c (ground (arith, (probed i k' v h c).0, key.hash-equal k' k))

  find_loop-FindOk :
      (rounds d i : ℕ) (o : Option ℕ)
      → rounds + d ≡ length slots
      → i ≡ walk d
      → Seen d
      → ReusableOk o
      → FindOk slots k (find_loop rounds slots mask k (key.hash k) i o)
  unfolding find_loop live used value
  find_loop-FindOk zero d i o n e s u =
      let all : d ≡ length slots = omega arith in absurd (not-Seen_all (subst Seen all s))
  find_loop-FindOk (suc rounds) d i o n e s u =
      let read : get_elem? slots i ≡ some (slot_at slots i) =
        get_elem?-get_or slots i slot_empty (rw e (walk-lt d)) in
      let next : bit_and (i + 1) mask ≡ walk (d + 1) =
        masks (i + 1)
        ∙ ap (λ (x : ℕ). (x + 1) % length slots) e
        ∙ walk_step (key.hash k) d (length slots) in
      let lt : i < length slots = rw e (walk-lt d) in
      let after = λ (o' : Option ℕ).
        find_loop-FindOk rounds (d + 1) (bit_and (i + 1) mask) o' (omega arith) next in
      elim (Slot-cases (slot_at slots i)) [
        | inl c ↦
            let here = rw e at c in
            let free : live (slot_at slots (walk d)) ≡ 0 = rw here in
            let (j, p, v) =
              first_reusable-Vacant o i u
                (subst (Vacant slots _) (sym e) (here_Vacant d (omega arith) s free)) in
            inr (j, rw (read ∙ ap some c, find_loop) (ap missing p), total_absent d s here, v)
        | inr (inl c) ↦
            let here = rw e at c in
            let free : live (slot_at slots (walk d)) ≡ 0 = rw here in
            let (j, p, v) =
              first_reusable-Vacant o i u
                (subst (Vacant slots _) (sym e) (here_Vacant d (omega arith) s free)) in
            let ok' : ReusableOk (first_reusable o i) = rw p v in
            rw (read ∙ ap some c, find_loop)
              (after (first_reusable o i) (Seen-next d s (rw here) (rw here)) ok')
        | inr (inr (k', v, h, c)) ↦
            let here = rw e at c in
            elim (Bool-cases (h == key.hash k && key.equal k' k)) [
              | inl t ↦ inl (i, v, rw (read ∙ ap some c, find_loop, t), lt, rw c (ground arith))
              | inr t ↦
                  rw (read ∙ ap some c, find_loop, t)
                    (after o
                      (Seen-next d s (rw here) (
                        subst (λ x. value k (slot_at slots x) ≡ none) e
                          (value_missed i k' v h c t)))
                      u)
            ]
      ]

  -- The whole search from the home slot.
  pub find-FindOk :
      FindOk slots k
        (find_loop (length slots) slots mask k (key.hash k) (bit_and (key.hash k) mask) none)
  find-FindOk =
      find_loop-FindOk (length slots) 0 (bit_and (key.hash k) mask) none (omega arith)
        (masks (key.hash k) ∙ ap (λ (x : ℕ). x % length slots) (omega arith))
        (record { on_way = λ e lt. absurd (omega arith); no_hit = λ e lt. absurd (omega arith) }) tt
