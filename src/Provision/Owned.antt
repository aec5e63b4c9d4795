-- ===== src/Provision/Owned.antt =====
-- The invariant of the shared objects: no dangling pointer, a slot for each tunnel, and one owner
-- for each MAC; and the writes of the code to them.
use softgre.Shared.{
  ℕ, ◌≤◌, ◌<◌, ◌≡◌, ◌≢◌, refl, sym, ap, ◌∙◌, true, false, List, none, some, ◌==◌, if◌then◌else◌,
  arith, Bool-cases, ◌⊎◌, inl, inr,
}
use softgre.Maps.{MapOps}
use softgre.Provision.Heap.{
  TunnelContext, Tables, provision_max_clients, max_slots, store, learn, forget,
}

module _ {T X S : Type 0} ⦃tun : MapOps ℕ ℕ T⦄ ⦃idx : MapOps (List ℕ) ℕ X⦄
    ⦃set : MapOps (List ℕ) (Unit {0}) S⦄ where
  -- The tunnel of a remote: where its context is, and what it is.
  pub record At (tb : Tables T X S) (ip p : ℕ) (t : TunnelContext S) : Type 0 where
    pub entry : tun.lookup tb.tunnels ip ≡ some p
    pub object : tb.heap p ≡ some t

  pub record Owned (tb : Tables T X S) : Type 0 where
    -- Addresses from `next` on are free.
    pub fresh : (p : ℕ) → tb.next ≤ p → tb.heap p ≡ none
    -- An entry of `tunnels` points to a context for its remote, with a slot of its own.
    pub alive :
        (ip p : ℕ)
        → tun.lookup tb.tunnels ip ≡ some p
        → (t : TunnelContext S) × (tb.heap p ≡ some t)
    pub remote : {ip p : ℕ} {t : TunnelContext S} → At tb ip p t → t.ip_remote ≡ ip
    pub slot :
        {ip p : ℕ} {t : TunnelContext S}
        → At tb ip p t
        → (tb.slots t.id ≡ true) × (t.id < max_slots)
    pub few :
        {ip p : ℕ} {t : TunnelContext S} → At tb ip p t → set.size t.macs ≤ provision_max_clients
    pub distinct :
        {ip ip' p p' : ℕ} {t t' : TunnelContext S}
        → At tb ip p t
        → At tb ip' p' t'
        → t.id ≡ t'.id
        → ip ≡ ip'
    -- An entry of `mac_index` points to the context of a tunnel that has the MAC.
    pub owner :
        (mac : List ℕ) (p : ℕ)
        → idx.lookup tb.mac_index mac ≡ some p
        → (ip : ℕ) × (t : TunnelContext S) × At tb ip p t × (set.lookup t.macs mac ≡ some tt)
    -- A MAC of a tunnel has an entry that points to it.
    pub indexed :
        {ip p : ℕ} {t : TunnelContext S} (mac : List ℕ)
        → At tb ip p t
        → set.lookup t.macs mac ≡ some tt
        → idx.lookup tb.mac_index mac ≡ some p

  -- While the invariant holds, two tunnels that have learned one MAC are for one remote.
  pub one_owner :
      {tb : Tables T X S} {ip ip' p p' : ℕ} {t t' : TunnelContext S} (mac : List ℕ)
      → Owned tb
      → At tb ip p t
      → At tb ip' p' t'
      → set.lookup t.macs mac ≡ some tt
      → set.lookup t'.macs mac ≡ some tt
      → ip ≡ ip'
  one_owner {t = t} {t' = t'} mac o a a' h h' =
      let same_pointer = sym (o.indexed mac a h) ∙ o.indexed mac a' h' in
      let same_object : t ≡ t' = cc in
      sym (o.remote a) ∙ ap (λ x. x.ip_remote) same_object ∙ o.remote a'

  module _ (tb : Tables T X S) (o : Owned tb) {ip p : ℕ} {t : TunnelContext S}
      (a : At tb ip p t) where
    abbrev written : TunnelContext S → X → Tables T X S
    written t' x = record tb { heap = λ q. if p == q then some t' else tb.heap q; mac_index = x }

    same_object : {ip0 : ℕ} {t0 : TunnelContext S} → At tb ip0 p t0 → (t0 ≡ t) × (ip0 ≡ ip)
    same_object {ip0} {t0} b =
        let e : t0 ≡ t = let q = sym b.object ∙ a.object in cc in
        (e, sym (o.remote b) ∙ ap (λ x. x.ip_remote) e ∙ o.remote a)

    -- The tunnels after a write through `p`: the one written, and the others as they were.
    written_cases :
        (t' : TunnelContext S) (x : X) {ip0 p0 : ℕ} {t0 : TunnelContext S}
        → At (written t' x) ip0 p0 t0
        → ((p0 ≡ p) × (t0 ≡ t') × (ip0 ≡ ip)) ⊎ ((p0 ≢ p) × At tb ip0 p0 t0)
    written_cases t' x {ip0} {p0} {t0} b = elim (Bool-cases (p == p0)) [
      | inl e ↦
          let same : p0 ≡ p = ground arith in
          let obj : some t' ≡ some t0 = rw e at b.object in
          let old : At tb ip0 p t = record { entry = rw same at b.entry; object = a.object } in
          inl (same, cc, (same_object old).1)
      | inr e ↦ inr (ground arith, record { entry = b.entry; object = rw e at b.object })
    ]

    written_here : (t' : TunnelContext S) (x : X) → At (written t' x) ip p t'
    written_here t' x =
        let e : p == p ≡ true = ground arith in record { entry = a.entry; object = rw e }

    written_there :
        (t' : TunnelContext S) (x : X) {ip0 p0 : ℕ} {t0 : TunnelContext S}
        → p0 ≢ p
        → At tb ip0 p0 t0
        → At (written t' x) ip0 p0 t0
    written_there t' x {ip0} {p0} {t0} n b =
        let e : p == p0 ≡ false = ground arith in record { entry = b.entry; object = rw e b.object }

    -- What a write of `t'` through `p` and a new index `x` owe each other.
    record Agrees (t' : TunnelContext S) (x : X) : Type 0 where
      same_remote : t'.ip_remote ≡ t.ip_remote
      same_id : t'.id ≡ t.id
      few : set.size t'.macs ≤ provision_max_clients
      owned :
          (mac : List ℕ) (p0 : ℕ)
          → idx.lookup x mac ≡ some p0
          → ((p0 ≡ p) × (set.lookup t'.macs mac ≡ some tt))
            ⊎ ((p0 ≢ p) × (idx.lookup tb.mac_index mac ≡ some p0))
      here : (mac : List ℕ) → set.lookup t'.macs mac ≡ some tt → idx.lookup x mac ≡ some p
      there :
          (mac : List ℕ) (p0 : ℕ)
          → p0 ≢ p
          → idx.lookup tb.mac_index mac ≡ some p0
          → idx.lookup x mac ≡ some p0

    written_back :
        (t' : TunnelContext S) (x : X)
        → Agrees t' x
        → {ip0 p0 : ℕ} {t0 : TunnelContext S} → At (written t' x) ip0 p0 t0
        → (t1 : TunnelContext S) × At tb ip0 p0 t1 × (t1.id ≡ t0.id)
    written_back t' x g {ip0} {p0} {t0} b = elim (written_cases t' x b) [
      | inl (q, e, i) ↦ (
        t,
        record { entry = rw (q, i) a.entry; object = rw q a.object },
        sym g.same_id ∙ ap (λ y. y.id) (sym e),
      )
      | inr (n, c) ↦ (t0, c, refl)
    ]

    written-Owned : (t' : TunnelContext S) (x : X) → Agrees t' x → Owned (written t' x)
    written-Owned t' x g = record {
      fresh = λ q le. ground (arith, o.fresh q, a.object);
      alive = λ ip0 p0 e. elim (Bool-cases (p == p0)) [
        | inl f ↦ (t', rw f)
        | inr f ↦ let (t1, h) = o.alive ip0 p0 e in (t1, rw f h)
      ];
      remote = λ b. elim (written_cases t' x b) [
        | inl (q, e, i) ↦ rw (e, i) (g.same_remote ∙ o.remote a)
        | inr (n, c) ↦ o.remote c
      ];
      slot = λ b. elim (written_cases t' x b) [
        | inl (q, e, i) ↦ rw (e, g.same_id) (o.slot a)
        | inr (n, c) ↦ o.slot c
      ];
      few = λ b. elim (written_cases t' x b) [ inl (q, e, i) ↦ rw e g.few | inr (n, c) ↦ o.few c ];
      distinct = λ b c e.
          let (t1, b', m) = written_back t' x g b in
          let (t2, c', n) = written_back t' x g c in o.distinct b' c' (m ∙ e ∙ sym n);
      owner = λ mac p0 e. elim (g.owned mac p0 e) [
        | inl (q, h) ↦ rw q (ip, t', written_here t' x, h)
        | inr (n, h) ↦
            let (ip0, t0, b, k) = o.owner mac p0 h in (ip0, t0, written_there t' x n b, k)
      ];
      indexed = λ {p = p0} mac b h. elim (written_cases t' x b) [
        | inl (q, e, i) ↦ rw q (g.here mac (rw e at h))
        | inr (n, c) ↦ g.there mac p0 n (o.indexed mac c h)
      ];
    }

    same_agree : (j k : List ℕ) → idx.same j k ≡ set.same j k
    same_agree j k = elim (Bool-cases (idx.same j k)) [
      | inl e ↦ e ∙ sym ((set.same_iff j k).1 ((idx.same_iff j k).0 e))
      | inr e ↦ elim (Bool-cases (set.same j k)) [
        | inl f ↦ let g = (idx.same_iff j k).1 ((set.same_iff j k).0 f) in cc
        | inr f ↦ e ∙ sym f
      ]
    ]

    -- An entry of the index is for this tunnel, and its MAC one of its own, or for another one.
    owner_split :
        (mac : List ℕ) (p0 : ℕ)
        → idx.lookup tb.mac_index mac ≡ some p0
        → ((p0 ≡ p) × (set.lookup t.macs mac ≡ some tt)) ⊎ (p0 ≢ p)
    owner_split mac p0 e = elim (Bool-cases (p0 == p)) [
      | inr f ↦ inr (ground arith)
      | inl f ↦
          let same : p0 ≡ p = ground arith in
          let (ip0, t0, b, h) = o.owner mac p0 e in
          let c : At tb ip0 p t0 = record {
            entry = rw same at b.entry;
            object = rw same at b.object;
          } in
          let q = (same_object c).0 in inl (same, rw q at h)
    ]

    -- A write of the flag or the hook bits.
    pub store-Owned :
        (t' : TunnelContext S)
        → t'.ip_remote ≡ t.ip_remote
        → t'.id ≡ t.id
        → t'.macs ≡ t.macs
        → Owned (store tb p (some t'))
    unfolding store
    store-Owned t' r i m = written-Owned t' tb.mac_index (record {
      same_remote = r;
      same_id = i;
      few = rw m (o.few a);
      owned = λ mac p0 e. elim (owner_split mac p0 e) [
        | inl (q, h) ↦ inl (q, rw m h)
        | inr n ↦ inr (n, e)
      ];
      here = λ mac h. o.indexed mac a (rw m at h);
      there = λ mac p0 n e. e;
    })

    pub learn-Owned :
        (mac : List ℕ)
        → idx.lookup tb.mac_index mac ≡ none
        → set.size t.macs < provision_max_clients
        → Owned (learn tb p t mac)
    unfolding learn store
    learn-Owned mac new room =
        written-Owned (record t { macs = set.insert t.macs mac tt }) (idx.insert tb.mac_index mac p)
          (record {
            same_remote = refl;
            same_id = refl;
            few = omega (arith, set.size-insert t.macs mac tt);
            owned = λ m p0 e. elim (Bool-cases (idx.same mac m)) [
              | inl s ↦
                  let f : some p ≡ some p0 = rw (idx.lookup-insert tb.mac_index mac m p, s) at e in
                  inl (ground arith, rw (set.lookup-insert t.macs mac m tt, ← same_agree mac m, s))
              | inr s ↦
                  let f : idx.lookup tb.mac_index m ≡ some p0 =
                    rw (idx.lookup-insert tb.mac_index mac m p, s) at e in
                  elim (owner_split m p0 f) [
                    | inl (q, h) ↦
                        inl (q, rw (set.lookup-insert t.macs mac m tt, ← same_agree mac m, s) h)
                    | inr n ↦ inr (n, f)
                  ]
            ];
            here = λ m h. elim (Bool-cases (idx.same mac m)) [
              | inl s ↦ rw (idx.lookup-insert tb.mac_index mac m p, s)
              | inr s ↦
                  rw (idx.lookup-insert tb.mac_index mac m p, s)
                    (o.indexed m a
                      (rw (set.lookup-insert t.macs mac m tt, ← same_agree mac m, s) at h))
            ];
            there = λ m p0 n e. elim (Bool-cases (idx.same mac m)) [
              | inl s ↦ let q = (idx.same_iff mac m).0 s in cc
              | inr s ↦ rw (idx.lookup-insert tb.mac_index mac m p, s) e
            ];
          })

    pub forget-Owned : (mac : List ℕ) → set.lookup t.macs mac ≡ some tt → Owned (forget tb p t mac)
    unfolding forget store
    forget-Owned mac h =
        written-Owned (record t { macs = set.remove t.macs mac }) (idx.remove tb.mac_index mac)
          (record {
            same_remote = refl;
            same_id = refl;
            few = omega (arith, set.size-remove t.macs mac, o.few a);
            owned = λ m p0 e. elim (Bool-cases (idx.same mac m)) [
              | inl s ↦
                  let f : none ≡ some p0 = rw (idx.lookup-remove tb.mac_index mac m, s) at e in cc
              | inr s ↦
                  let f : idx.lookup tb.mac_index m ≡ some p0 =
                    rw (idx.lookup-remove tb.mac_index mac m, s) at e in
                  elim (owner_split m p0 f) [
                    | inl (q, k) ↦
                        inl (q, rw (set.lookup-remove t.macs mac m, ← same_agree mac m, s) k)
                    | inr n ↦ inr (n, f)
                  ]
            ];
            here = λ m k. elim (Bool-cases (idx.same mac m)) [
              | inl s ↦
                  let f : none ≡ some tt =
                    rw (set.lookup-remove t.macs mac m, ← same_agree mac m, s) at k in
                  cc
              | inr s ↦
                  rw (idx.lookup-remove tb.mac_index mac m, s)
                    (o.indexed m a
                      (rw (set.lookup-remove t.macs mac m, ← same_agree mac m, s) at k))
            ];
            there = λ m p0 n e. elim (Bool-cases (idx.same mac m)) [
              | inl s ↦
                  let q = (idx.same_iff mac m).0 s in
                  let i = o.indexed mac a h in
                  absurd (n (let w : some p0 ≡ some p = cc in ground arith))
              | inr s ↦ rw (idx.lookup-remove tb.mac_index mac m, s) e
            ];
          })

    pub forget-At :
        (mac : List ℕ) → At (forget tb p t mac) ip p (record t { macs = set.remove t.macs mac })
    unfolding forget store
    forget-At mac =
        written_here (record t { macs = set.remove t.macs mac }) (idx.remove tb.mac_index mac)

    pub learn-At :
        (mac : List ℕ) → At (learn tb p t mac) ip p (record t { macs = set.insert t.macs mac tt })
    unfolding learn store
    learn-At mac =
        written_here (record t { macs = set.insert t.macs mac tt }) (idx.insert tb.mac_index mac p)

    pub store-At : (t' : TunnelContext S) → At (store tb p (some t')) ip p t'
    unfolding store
    store-At t' = written_here t' tb.mac_index
