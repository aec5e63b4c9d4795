-- ===== src/Hashmap/Update.antt =====
-- Writes of one slot: storing an entry, replacing a value, and leaving a tombstone.
use softgre.Shared.{
  ℕ, ◌+◌, ◌%◌, ◌≤◌, ◌<◌, ◌≡◌, refl, sym, ap, ◌∙◌, subst, true, false, List, none, some, arith,
  length, set, length-set, get_or-set, ◌==◌, if◌then◌else◌, Bool-cases, inl, inr,
}
use softgre.Keys.{Key, equal_congr_left}
use softgre.Hashmap.{Slot, slot_empty, slot_occupied, slot_deleted}
use softgre.Hashmap.Slots.{
  total, total-set, live, used, hit, value, view, view_of_entry, view-eq-none, view-set_other,
  total-hit_congr, value-eq-some,
}
use softgre.Hashmap.Probe.{Reached, Vacant, slot_at}
use softgre.Hashmap.Valid.{IsTable}

module _ {ℓ} {K V : Type ℓ} (slots : List (Slot K V)) (i : ℕ) (lt : i < length slots)
    (s : Slot K V) where
  slot_at-set : (j : ℕ) → slot_at (set slots i s) j ≡ (if i == j then s else slot_at slots j)
  slot_at-set j = get_or-set slots i j s slot_empty lt

  -- A write of a used slot shortens no walk.
  Reached-set : (hash j : ℕ) → used s ≡ 1 → Reached slots hash j → Reached (set slots i s) hash j
  Reached-set hash j u r = record {
    dist = r.dist;
    dist_lt = rw (length-set slots i s) r.dist_lt;
    lands = rw (length-set slots i s) r.lands;
    path = λ d near.
        rw (length-set slots i s, slot_at-set ((hash + d) % length slots))
          (elim (Bool-cases (i == (hash + d) % length slots)) [
            | inl e ↦ rw e u
            | inr e ↦ rw e (r.path d near)
          ]);
  }

module _ {ℓ} {K V : Type ℓ} ⦃key : Key K⦄ (slots : List (Slot K V)) (t : IsTable slots) (i : ℕ)
    (lt : i < length slots) where
  -- A write keeps the table if the new entry stands where its walk comes, under a key that no
  -- other slot has.
  set-IsTable :
      (s : Slot K V)
      → used s ≡ 1
      → ((k : K) (v : V) (h : ℕ) → s ≡ slot_occupied k v h → (h ≡ key.hash k) × Reached slots h i)
      → ((q : K) → total (hit q) slots + hit q s ≤ 1 + hit q (slot_at slots i))
      → IsTable (set slots i s)
  set-IsTable s u entry few = record {
    exponent = t.exponent;
    power = length-set slots i s ∙ t.power;
    probed = λ j k v h e. elim (Bool-cases (i == j)) [
      | inl same ↦
          let new : s ≡ slot_occupied k v h = rw (slot_at-set slots i lt s j, same) at e in
          let (hash_eq, r) = entry k v h new in
          let at : i ≡ j = ground arith in
          (hash_eq, Reached-set slots i lt s h j u (subst (Reached slots h) at r))
      | inr other ↦
          let old : slot_at slots j ≡ slot_occupied k v h =
            rw (slot_at-set slots i lt s j, other) at e in
          let (hash_eq, r) = t.probed j k v h old in (hash_eq, Reached-set slots i lt s h j u r)
    ];
    unique = λ q. omega (arith, total-set (hit q) slots i s slot_empty lt, few q);
  }

  value_written : (s : Slot K V) (q : K) → value q (slot_at (set slots i s) i) ≡ value q s
  value_written s q = rw (slot_at-set slots i lt s i) (ground arith)

  live_of_none : (q : K) (s : Slot K V) → live s ≡ 0 → value q s ≡ none
  unfolding live value
  live_of_none q slot_empty e = refl
  live_of_none q slot_deleted e = refl
  live_of_none q (slot_occupied k v h) e = absurd (omega arith)

  -- Storing an entry of a new key in a vacant slot.
  module _ (k : K) (v : V) (new : total (hit k) slots ≡ 0) (vac : Vacant slots (key.hash k) i) where
    hits_new : (q : K) → total (hit q) slots + hit q (slot_occupied k v (key.hash k)) ≤ 1
    unfolding hit
    hits_new q = elim (Bool-cases (key.equal k q)) [
      | inl e ↦ rw e (omega (arith, total-hit_congr k q slots e))
      | inr e ↦ rw e (omega (arith, t.unique q))
    ]

    pub store-IsTable : IsTable (set slots i (slot_occupied k v (key.hash k)))
    unfolding used
    store-IsTable =
        set-IsTable (slot_occupied k v (key.hash k)) refl
          (λ k' v' h e.
            let hk : key.hash k ≡ h = cc in
            let kk : k ≡ k' = cc in
            (sym hk ∙ ap key.hash kk, subst (λ x. Reached slots x i) hk vac.reached))
          (λ q. omega (arith, hits_new q))

    pub view-store :
        (q : K)
        → view (set slots i (slot_occupied k v (key.hash k))) q
          ≡ (if key.equal k q then some v else view slots q)
    unfolding value
    view-store q = elim (Bool-cases (key.equal k q)) [
      | inl e ↦ rw e (
          view_of_entry q _ i v (rw (length-set slots i (slot_occupied k v (key.hash k))) lt)
            (store-IsTable.unique q) (value_written _ q ∙ (rw e)))
      | inr e ↦ rw e (view-set_other q slots i _ (live_of_none q _ vac.free) (rw e))
    ]

  -- Replacing the value of an entry, or its key's entry by a tombstone.
  module _ (k : K) (old : V) (there : value k (slot_at slots i) ≡ some old) where
    pub delete-IsTable : IsTable (set slots i slot_deleted)
    unfolding used hit
    delete-IsTable =
        set-IsTable slot_deleted refl
          (λ k' v' h e. let absurd_eq : slot_deleted ≡ slot_occupied k' v' h = e in cc)
          (λ q. omega (arith, t.unique q))

    pub view-delete :
        (q : K) → view (set slots i slot_deleted) q ≡ (if key.equal k q then none else view slots q)
    unfolding value hit
    view-delete q =
        let (k', h, o, e') = value-eq-some k (slot_at slots i) old there in
        elim (Bool-cases (key.equal k q)) [
          | inl e ↦
              let one : hit q (slot_at slots i) ≡ 1 = rw (o, key.equal_chain k' k q e' e) in
              rw e (
                view-eq-none q _
                  (omega (arith, t.unique q, total-set (hit q) slots i slot_deleted slot_empty lt)))
          | inr e ↦
              let other : key.equal k' q ≡ false = equal_congr_left k' k q e' ∙ e in
              rw e (view-set_other q slots i _ (rw (o, other)) refl)
        ]

    pub replace-IsTable :
        (k' : K) (v : V) (h : ℕ)
        → slot_at slots i ≡ slot_occupied k' old h
        → IsTable (set slots i (slot_occupied k' v h))
    unfolding used hit
    replace-IsTable k' v h o =
        let (hash_eq, r) = t.probed i k' old h o in
        set-IsTable (slot_occupied k' v h) refl
          (λ k'' v'' h'' e.
            let hh : h ≡ h'' = cc in
            let kk : k' ≡ k'' = cc in
            (sym hh ∙ hash_eq ∙ ap key.hash kk, subst (λ x. Reached slots x i) hh r))
          (λ q. rw o (omega (arith, t.unique q)))

    pub view-replace :
        (k' : K) (v : V) (h : ℕ)
        → slot_at slots i ≡ slot_occupied k' old h
        → key.equal k' k ≡ true
        → (q : K)
        → view (set slots i (slot_occupied k' v h)) q
          ≡ (if key.equal k q then some v else view slots q)
    unfolding value
    view-replace k' v h o e' q =
        let same : key.equal k' q ≡ key.equal k q = equal_congr_left k' k q e' in
        elim (Bool-cases (key.equal k q)) [
          | inl e ↦ rw e (
              view_of_entry q _ i v (rw (length-set slots i (slot_occupied k' v h)) lt)
                ((replace-IsTable k' v h o).unique q) (value_written _ q ∙ (rw (same, e))))
          | inr e ↦ rw e (view-set_other q slots i _ (rw (o, same, e)) (rw (same, e)))
        ]
