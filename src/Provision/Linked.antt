-- ===== src/Provision/Linked.antt =====
-- src/provision.c: the invariant of the shared objects when a tunnel is made and when it is freed.
use softgre.Shared.{
  ℕ, ◌<◌, ◌≡◌, ◌≢◌, refl, sym, ap, ◌∙◌, true, false, List, none, some, ◌==◌, arith, Bool-cases, ◌⊎◌,
  inl, inr,
}
use softgre.Maps.{MapOps}
use softgre.Provision.Heap.{TunnelContext, Tables, max_slots, link, unlink}
use softgre.Provision.Owned.{At, Owned}

-- Whether a remote is another one.
same-cases :
    {T : Type 0} (tun : MapOps ℕ ℕ T) (i j : ℕ)
    → ((tun.same i j ≡ true) × (i ≡ j)) ⊎ ((tun.same i j ≡ false) × (j ≢ i))
same-cases tun i j = elim (Bool-cases (tun.same i j)) [
  | inl e ↦ inl (e, (tun.same_iff i j).0 e)
  | inr e ↦ inr (e, λ q. let f = (tun.same_iff i j).1 (sym q) in cc)
]

module _ {T X S : Type 0} ⦃tun : MapOps ℕ ℕ T⦄ ⦃idx : MapOps (List ℕ) ℕ X⦄
    ⦃set : MapOps (List ℕ) (Unit {0}) S⦄ where
  module _ (tb : Tables T X S) (o : Owned tb) (t : TunnelContext S) where
    used : {ip0 p0 : ℕ} {t0 : TunnelContext S} → At tb ip0 p0 t0 → p0 < tb.next
    used {p0 = p0} b = ground (arith, o.fresh p0, b.object)

    linked_cases :
        {ip0 p0 : ℕ} {t0 : TunnelContext S}
        → At (link tb t) ip0 p0 t0
        → ((ip0 ≡ t.ip_remote) × (p0 ≡ tb.next) × (t0 ≡ t)) ⊎ At tb ip0 p0 t0
    unfolding link
    linked_cases {ip0} {p0} {t0} b = elim (same-cases tun t.ip_remote ip0) [
      | inl (e, q) ↦
          let f : some tb.next ≡ some p0 =
            rw (tun.lookup-insert tb.tunnels t.ip_remote ip0 tb.next, e) at b.entry in
          let p : p0 ≡ tb.next = cc in
          let s : tb.next == p0 ≡ true = ground arith in
          let g : some t ≡ some t0 = rw s at b.object in inl (sym q, p, cc)
      | inr (e, n) ↦
          let f : tun.lookup tb.tunnels ip0 ≡ some p0 =
            rw (tun.lookup-insert tb.tunnels t.ip_remote ip0 tb.next, e) at b.entry in
          let (t1, k) = o.alive ip0 p0 f in
          let lt = used (record { entry = f; object = k }) in
          let s : tb.next == p0 ≡ false = ground arith in
          inr (record { entry = f; object = rw s at b.object })
    ]

    module _ (absent : tun.lookup tb.tunnels t.ip_remote ≡ none) (no_slot : tb.slots t.id ≡ false)
        (small : t.id < max_slots) (empty : t.macs ≡ set.new) where
      old_remote : {ip0 p0 : ℕ} {t0 : TunnelContext S} → At tb ip0 p0 t0 → ip0 ≢ t.ip_remote
      old_remote b q = let f : none ≡ some _ = sym absent ∙ (rw q at b.entry) in cc

      linked_there :
          {ip0 p0 : ℕ} {t0 : TunnelContext S} → At tb ip0 p0 t0 → At (link tb t) ip0 p0 t0
      unfolding link
      linked_there {ip0} {p0} {t0} b = elim (same-cases tun t.ip_remote ip0) [
        | inl (e, q) ↦ absurd (old_remote b (sym q))
        | inr (e, n) ↦
            let lt = used b in
            let s : tb.next == p0 ≡ false = ground arith in
            record {
              entry = rw (tun.lookup-insert tb.tunnels t.ip_remote ip0 tb.next, e) b.entry;
              object = rw s b.object;
            }
      ]

      pub linked_here : At (link tb t) t.ip_remote tb.next t
      unfolding link
      linked_here =
          let e = (tun.same_iff t.ip_remote t.ip_remote).1 refl in
          let s : tb.next == tb.next ≡ true = ground arith in
          record {
            entry = rw (tun.lookup-insert tb.tunnels t.ip_remote t.ip_remote tb.next, e);
            object = rw s;
          }

      linked_slot : {ip0 p0 : ℕ} {t0 : TunnelContext S} → At tb ip0 p0 t0 → t.id ≢ t0.id
      linked_slot b q = let s = (o.slot b).0 in let f : tb.slots t.id ≡ true = rw q s in cc

      no_mac : (mac : List ℕ) → set.lookup t.macs mac ≡ none
      no_mac mac = rw empty (set.lookup-new mac)

      pub link-Owned : Owned (link tb t)
      unfolding link
      link-Owned = record {
        fresh = λ q le. let z = o.fresh q (omega arith) in ground arith;
        alive = λ ip0 p0 e. elim (same-cases tun t.ip_remote ip0) [
          | inl (s, q) ↦
              let f : some tb.next ≡ some p0 =
                rw (tun.lookup-insert tb.tunnels t.ip_remote ip0 tb.next, s) at e in
              let p : tb.next ≡ p0 = cc in (t, ground arith)
          | inr (s, n) ↦
              let f : tun.lookup tb.tunnels ip0 ≡ some p0 =
                rw (tun.lookup-insert tb.tunnels t.ip_remote ip0 tb.next, s) at e in
              let (t1, k) = o.alive ip0 p0 f in
              (t1, (linked_there (record { entry = f; object = k })).object)
        ];
        remote = λ b. elim (linked_cases b) [ inl (i, q, e) ↦ rw (e, i) | inr c ↦ o.remote c ];
        slot = λ b. elim (linked_cases b) [
          | inl (i, q, e) ↦ rw e (ground arith)
          | inr c ↦ let h = o.slot c in ground arith
        ];
        few = λ b. elim (linked_cases b) [
          | inl (i, q, e) ↦ rw (e, empty, set.size-new) (omega arith)
          | inr c ↦ o.few c
        ];
        distinct = λ b c e. elim (linked_cases b) [
          | inl (i, q, f) ↦ elim (linked_cases c) [
            | inl (i', q', f') ↦ i ∙ sym i'
            | inr c' ↦ absurd (linked_slot c' (ap (λ x. x.id) (sym f) ∙ e))
          ]
          | inr b' ↦ elim (linked_cases c) [
            | inl (i', q', f') ↦ absurd (linked_slot b' (ap (λ x. x.id) (sym f') ∙ sym e))
            | inr c' ↦ o.distinct b' c' e
          ]
        ];
        owner = λ mac p0 e. let (ip0, t0, b, k) = o.owner mac p0 e in (ip0, t0, linked_there b, k);
        indexed = λ mac b h. elim (linked_cases b) [
          | inl (i, q, e) ↦
              let z = no_mac mac in let f : set.lookup t.macs mac ≡ some tt = rw e at h in cc
          | inr c ↦ o.indexed mac c h
        ];
      }

  module _ (tb : Tables T X S) (o : Owned tb) {ip p : ℕ} {t : TunnelContext S}
      (t' : TunnelContext S) (a : At tb ip p t) (same_id : t'.id ≡ t.id)
      (empty : (mac : List ℕ) → set.lookup t.macs mac ≡ none) where
    unlinked_cases :
        {ip0 p0 : ℕ} {t0 : TunnelContext S}
        → At (unlink tb p t' ip) ip0 p0 t0
        → (ip0 ≢ ip) × (p0 ≢ p) × At tb ip0 p0 t0
    unfolding unlink
    unlinked_cases {ip0} {p0} {t0} b = elim (same-cases tun ip ip0) [
      | inl (e, q) ↦
          let f : none ≡ some p0 = rw (tun.lookup-remove tb.tunnels ip ip0, e) at b.entry in cc
      | inr (e, n) ↦
          let f : tun.lookup tb.tunnels ip0 ≡ some p0 =
            rw (tun.lookup-remove tb.tunnels ip ip0, e) at b.entry in
          elim (Bool-cases (p == p0)) [
            | inl g ↦ let h : none ≡ some t0 = rw g at b.object in cc
            | inr g ↦ (n, ground arith, record { entry = f; object = rw g at b.object })
          ]
    ]

    -- Another tunnel is not at this one's address: their remotes differ.
    other_pointer : {ip0 p0 : ℕ} {t0 : TunnelContext S} → ip0 ≢ ip → At tb ip0 p0 t0 → p0 ≢ p
    other_pointer {ip0} {p0} {t0} n b q =
        let h : tb.heap p ≡ some t0 = rw (← q) b.object in
        let e : t0 ≡ t = let k = sym h ∙ a.object in cc in
        n (sym (o.remote b) ∙ ap (λ x. x.ip_remote) e ∙ o.remote a)

    unlinked_there :
        {ip0 p0 : ℕ} {t0 : TunnelContext S}
        → ip0 ≢ ip
        → At tb ip0 p0 t0
        → At (unlink tb p t' ip) ip0 p0 t0
    unfolding unlink
    unlinked_there {ip0} {p0} {t0} n b =
        let m = other_pointer n b in
        let g : p == p0 ≡ false = ground arith in
        elim (same-cases tun ip ip0) [
          | inl (e, q) ↦ absurd (n (sym q))
          | inr (e, _) ↦ record {
            entry = rw (tun.lookup-remove tb.tunnels ip ip0, e) b.entry;
            object = rw g b.object;
          }
        ]

    other_slot : {ip0 p0 : ℕ} {t0 : TunnelContext S} → ip0 ≢ ip → At tb ip0 p0 t0 → t'.id ≢ t0.id
    other_slot n b q = n (o.distinct b a (sym q ∙ same_id))

    own_mac :
        {mac : List ℕ} {ip0 p0 : ℕ} {t0 : TunnelContext S}
        → At tb ip0 p0 t0
        → set.lookup t0.macs mac ≡ some tt
        → ip0 ≢ ip
    own_mac {mac} {ip0} {p0} {t0} b k q =
        let f : tun.lookup tb.tunnels ip ≡ some p0 = rw (← q) b.entry in
        let same : some p0 ≡ some p = sym f ∙ a.entry in
        let p0p : p0 ≡ p = cc in
        let h : tb.heap p ≡ some t0 = rw (← p0p) b.object in
        let e : some t0 ≡ some t = sym h ∙ a.object in
        let tt0 : t0 ≡ t = cc in
        let z = empty mac in let w : set.lookup t.macs mac ≡ some tt = rw (← tt0) k in cc

    pub unlink-Owned : Owned (unlink tb p t' ip)
    unfolding unlink
    unlink-Owned = record {
      fresh = λ q le. let z = o.fresh q le in ground arith;
      alive = λ ip0 p0 e. elim (same-cases tun ip ip0) [
        | inl (s, q) ↦
            let f : none ≡ some p0 = rw (tun.lookup-remove tb.tunnels ip ip0, s) at e in cc
        | inr (s, n) ↦
            let f : tun.lookup tb.tunnels ip0 ≡ some p0 =
              rw (tun.lookup-remove tb.tunnels ip ip0, s) at e in
            let (t1, k) = o.alive ip0 p0 f in
            (t1, (unlinked_there n (record { entry = f; object = k })).object)
      ];
      remote = λ b. let (_, _, c) = unlinked_cases b in o.remote c;
      slot = λ b.
          let (n, _, c) = unlinked_cases b in
          let d = other_slot n c in let h = o.slot c in ground arith;
      few = λ b. let (_, _, c) = unlinked_cases b in o.few c;
      distinct = λ b c e.
          let (_, _, b') = unlinked_cases b in
          let (_, _, c') = unlinked_cases c in o.distinct b' c' e;
      owner = λ mac p0 e.
          let (ip0, t0, b, k) = o.owner mac p0 e in
          let n : ip0 ≢ ip = λ q. own_mac b k q in (ip0, t0, unlinked_there n b, k);
      indexed = λ mac b h. let (_, _, c) = unlinked_cases b in o.indexed mac c h;
    }

  pub unlink-gone :
      (tb : Tables T X S) (p : ℕ) (t : TunnelContext S) (ip : ℕ)
      → tun.lookup (unlink tb p t ip).tunnels ip ≡ none
  unfolding unlink
  unlink-gone tb p t ip =
      let e = (tun.same_iff ip ip).1 refl in rw (tun.lookup-remove tb.tunnels ip ip, e)
