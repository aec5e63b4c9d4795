-- ===== src/Provision/Emptied.antt =====
-- src/provision.c: `provision_delall` and the invariant of the shared objects.
use softgre.Shared.{
  ℕ, ◌≡◌, refl, sym, ap, ◌∙◌, true, false, not, ◌&&◌, List, [], ◌∷◌, none, some, ◌==◌, arith,
  Bool-cases, Option-cases, inl, inr, Returns, Returns-bind, Returns-if,
}
use softgre.Maps.{MapOps, contains, is_some}
use softgre.Provision.Heap.{TunnelContext, Tables, store}
use softgre.Provision.{Host, State, enodev, called, with_tables}
use softgre.Provision.Cleanup.{
  free_all, clear_tables, entry_of, dismantle, dismantle_all, provision_delall,
}
use softgre.Provision.Owned.{At, Owned, store-Owned, store-At}
use softgre.Provision.Removal.{same_self, deref-Returns}

module _ {T X S : Type 0} ⦃tun : MapOps ℕ ℕ T⦄ ⦃idx : MapOps (List ℕ) ℕ X⦄
    ⦃set : MapOps (List ℕ) (Unit {0}) S⦄ where
  pub free_all-unused :
      (tb : Tables T X S) (remotes : List ℕ) (q : ℕ)
      → tb.heap q ≡ none
      → free_all tb remotes q ≡ none
  unfolding free_all
  free_all-unused tb [] q h = h
  free_all-unused tb (remote ∷ remotes) q h = elim (Option-cases (tun.lookup tb.tunnels remote)) [
    | inl e ↦ rw (free_all, e) (free_all-unused tb remotes q h)
    | inr (p, e) ↦
        rw (free_all, e)
          (elim (Bool-cases (p == q)) [
            | inl f ↦ rw f
            | inr f ↦ rw f (free_all-unused tb remotes q h)
          ])
  ]

  -- The context of each tunnel in the list is freed.
  pub free_all-listed :
      (tb : Tables T X S) (remotes : List ℕ) (remote p : ℕ)
      → contains tun.same remotes remote ≡ true
      → tun.lookup tb.tunnels remote ≡ some p
      → free_all tb remotes p ≡ none
  unfolding free_all contains
  free_all-listed tb [] remote p c e = cc
  free_all-listed tb (r ∷ remotes) remote p c e = elim (Bool-cases (tun.same r remote)) [
    | inl f ↦
        let q = (tun.same_iff r remote).0 f in
        let here : p == p ≡ true = ground arith in rw (free_all, q, e, here)
    | inr f ↦
        let c' : contains tun.same remotes remote ≡ true = rw f at c in
        let later = free_all-listed tb remotes remote p c' e in
        elim (Option-cases (tun.lookup tb.tunnels r)) [
          | inl g ↦ rw (free_all, g) later
          | inr (p', g) ↦
              rw (free_all, g) (elim (Bool-cases (p' == p)) [ inl h ↦ rw h | inr h ↦ rw h later ])
        ]
  ]

  clear_tables-Owned : (tb : Tables T X S) → Owned tb → Owned (clear_tables tb)
  unfolding clear_tables
  clear_tables-Owned tb o = record {
    fresh = λ q le. free_all-unused tb (tun.keys tb.tunnels) q (o.fresh q le);
    alive = λ ip p e. let z = tun.lookup-new ip in cc;
    remote = λ {ip = ip} a. let z = tun.lookup-new ip in let f = a.entry in cc;
    slot = λ {ip = ip} a. let z = tun.lookup-new ip in let f = a.entry in cc;
    few = λ {ip = ip} a. let z = tun.lookup-new ip in let f = a.entry in cc;
    distinct = λ {ip = ip} a b e. let z = tun.lookup-new ip in let f = a.entry in cc;
    owner = λ mac p e. let z = idx.lookup-new mac in cc;
    indexed = λ {ip = ip} mac a h. let z = tun.lookup-new ip in let f = a.entry in cc;
  }

module _ {T X S W : Type 0} ⦃tun : MapOps ℕ ℕ T⦄ ⦃idx : MapOps (List ℕ) ℕ X⦄
    ⦃set : MapOps (List ℕ) (Unit {0}) S⦄ ⦃host : Host W⦄ where
  -- What the loop over the tunnels keeps.
  record Dismantled (s s' : State T X S W) : Type 0 where
    owned : Owned s'.tables
    same_tunnels : s'.tables.tunnels ≡ s.tables.tunnels
    same_pending : s'.cleanup_pending ≡ s.cleanup_pending

  pub entry_of-Returns :
      (s : State T X S W) (remote : ℕ)
      → is_some (tun.lookup s.tables.tunnels remote) ≡ true
      → Returns (entry_of s remote) (λ p. tun.lookup s.tables.tunnels remote ≡ some p)
  entry_of-Returns s remote has = elim (Option-cases (tun.lookup s.tables.tunnels remote)) [
    | inl e ↦ let f : false ≡ true = rw e at has in cc
    | inr (p, e) ↦ (p, rw (entry_of, e), e)
  ]

  dismantle-Dismantled :
      (s : State T X S W) (remote : ℕ)
      → Owned s.tables
      → is_some (tun.lookup s.tables.tunnels remote) ≡ true
      → Returns (dismantle s remote) (λ r. Dismantled s r.0)
  unfolding dismantle store
  dismantle-Dismantled s remote o has = Returns-bind (entry_of-Returns s remote has) (λ p e.
      Returns-bind (deref-Returns s p (o.alive remote p e)) (λ t h.
        let a : At s.tables remote p t = record { entry = e; object = h } in
        let t1 = record t { ready = false } in
        let o1 = store-Owned s.tables o a t1 refl refl refl in
        let a1 = store-At s.tables o a t1 in
        let tb1 = store s.tables p (some t1) in
        let s1 = with_tables s tb1 in
        let r = host.iface_gre_del s.world t.id in
        let s2 = called s1 r in
        let k = host.iface_ebtables_del_tunnel s2.world t.id t.firewall_hooks in
        let t2 = record t1 { firewall_hooks = k.hooks } in
        Returns-if (not r.success && not (s2.errno == enodev))
          (λ _. (_, refl, record { owned = o1; same_tunnels = refl; same_pending = refl }))
          (λ _. (
            _,
            refl,
            record {
              owned = store-Owned tb1 o1 a1 t2 refl refl refl;
              same_tunnels = refl;
              same_pending = refl;
            },
          ))))

  dismantle_all-Dismantled :
      (s : State T X S W) (remotes : List ℕ)
      → Owned s.tables
      → ((r : ℕ)
          → contains tun.same remotes r ≡ true
          → is_some (tun.lookup s.tables.tunnels r) ≡ true)
      → Returns (dismantle_all s remotes) (λ r. Dismantled s r.0)
  unfolding dismantle_all contains
  dismantle_all-Dismantled s [] o all =
      (_, refl, record { owned = o; same_tunnels = refl; same_pending = refl })
  dismantle_all-Dismantled s (remote ∷ remotes) o all =
      let e = same_self tun remote in
      Returns-bind (dismantle-Dismantled s remote o (all remote (rw e))) (λ (s1, fine) d.
        Returns-bind
          (dismantle_all-Dismantled s1 remotes d.owned
            (λ r c. rw d.same_tunnels (all r (ground arith))))
          (λ (s2, rest) d2. (
            _,
            refl,
            record {
              owned = d2.owned;
              same_tunnels = d2.same_tunnels ∙ d.same_tunnels;
              same_pending = d2.same_pending ∙ d.same_pending;
            },
          )))

  -- What `provision_delall` leaves if the cleanup is complete: no tunnel, no learned MAC, no slot in
  -- use and no time to wait, and the context of each tunnel is freed.
  pub record Emptied (s s' : State T X S W) : Type 0 where
    pub no_tunnel : (ip : ℕ) → tun.lookup s'.tables.tunnels ip ≡ none
    pub no_mac : (mac : List ℕ) → idx.lookup s'.tables.mac_index mac ≡ none
    pub no_slot : (i : ℕ) → s'.tables.slots i ≡ false
    pub no_wait : s'.retry_after ≡ 0
    pub freed : (ip p : ℕ) (t : TunnelContext S) → At s.tables ip p t → s'.tables.heap p ≡ none

  pub record Cleaned (s s' : State T X S W) : Type 0 where
    pub owned : Owned s'.tables
    pub complete : s'.cleanup_pending ≡ false → Emptied s s'
    pub kept : s'.cleanup_pending ≡ true → s'.tables.tunnels ≡ s.tables.tunnels

  clear_tables-Emptied :
      (s s2 : State T X S W)
      → Owned s2.tables
      → s2.tables.tunnels ≡ s.tables.tunnels
      → Cleaned s
          (record s2 { tables = clear_tables s2.tables; cleanup_pending = false; retry_after = 0 })
  unfolding clear_tables
  clear_tables-Emptied s s2 o same = record {
    owned = clear_tables-Owned s2.tables o;
    kept = λ e. cc;
    complete = λ _. record {
      no_tunnel = λ ip. tun.lookup-new ip;
      no_mac = λ mac. idx.lookup-new mac;
      no_slot = λ i. refl;
      no_wait = refl;
      freed = λ ip p t a.
          let e : tun.lookup s2.tables.tunnels ip ≡ some p = rw same a.entry in
          let c : contains tun.same (tun.keys s2.tables.tunnels) ip ≡ true =
            tun.contains-keys s2.tables.tunnels ip ∙ ap is_some e in
          free_all-listed s2.tables (tun.keys s2.tables.tunnels) ip p c e;
    };
  }

  -- From a state with the invariant, `provision_delall` follows no dangling pointer and returns, and
  -- the invariant holds after it. If the flag for a pending cleanup is clear then, no tunnel, no
  -- learned MAC and no slot in use is left, no time to wait is set, and the contexts of all the
  -- tunnels that there were are freed; if it is set, the table of the tunnels is as before.
  pub provision_delall-Cleaned :
      (s : State T X S W) → Owned s.tables → Returns (provision_delall s) (Cleaned s)
  unfolding provision_delall
  provision_delall-Cleaned s o =
      let keys = tun.keys s.tables.tunnels in
      Returns-bind
        (dismantle_all-Dismantled (record s { cleanup_pending = true }) keys o
          (λ r c. sym (tun.contains-keys s.tables.tunnels r) ∙ c))
        (λ (s1, fine) d.
          let r = host.iface_ebtables_reset s1.world in
          let s2 = called s1 r in
          let pending = d.same_pending in
          Returns-if (not fine)
            (λ _. (
              s1,
              refl,
              record { owned = d.owned; complete = λ e. cc; kept = λ _. d.same_tunnels },
            ))
            (λ _.
              Returns-if (not r.success)
                (λ _. (
                  s2,
                  refl,
                  record { owned = d.owned; complete = λ e. cc; kept = λ _. d.same_tunnels },
                ))
                (λ _. (_, refl, clear_tables-Emptied s s2 d.owned d.same_tunnels))))
