-- ===== src/Provision/Creation.antt =====
-- src/provision.c: `provision_add` and the invariant of the shared objects.
use softgre.Shared.{
  ℕ, zero, suc, ◌+◌, ◌<◌, ◌≡◌, refl, ◌∙◌, true, false, not, ◌||◌, List, [], ◌∷◌, Option, none, some,
  ◌==◌, arith, Bool-cases, Option-cases, ◌⊎◌, inl, inr, ◌>>=◌, Returns, Returns-bind, Returns-if,
}
use softgre.Maps.{MapOps}
use softgre.Provision.Heap.{TunnelContext, max_slots, link, store}
use softgre.Provision.{
  Host, TunnelBridge, Config, State, enodev, called, with_tables, provision_get_tunnel_byip,
  free_slot, attach_all, set_up, roll_back, create_tunnel, provision_add,
}
use softgre.Provision.Owned.{At, Owned, store-Owned, store-At}
use softgre.Provision.Linked.{link-Owned, linked_here}
use softgre.Provision.Removal.{ledger, deref-Returns, provision_del-Deleted}

module _ {T X S W : Type 0} ⦃tun : MapOps ℕ ℕ T⦄ ⦃idx : MapOps (List ℕ) ℕ X⦄
    ⦃set : MapOps (List ℕ) (Unit {0}) S⦄ ⦃host : Host W⦄ where
  -- The slot that the search finds is free, and its name too.
  free_slot_lem :
      (rounds : ℕ) (s : State T X S W) (id : ℕ)
      → (free_slot rounds s id ≡ id + rounds)
        ⊎ ((s.tables.slots (free_slot rounds s id) ≡ false) × (free_slot rounds s id < id + rounds))
  unfolding free_slot
  free_slot_lem zero s id = inl (omega arith)
  free_slot_lem (suc rounds) s id =
      elim (Bool-cases (s.tables.slots id || host.has_name s.world id)) [
        | inl e ↦ rw e (ground (arith, free_slot_lem rounds s (id + 1)))
        | inr e ↦ rw e (ground arith)
      ]

  attach_all_tables :
      (s : State T X S W) (id : ℕ) (bridges : List TunnelBridge)
      → ((attach_all s id bridges).0.tables ≡ s.tables)
        × (ledger (attach_all s id bridges).0 ≡ ledger s)
  unfolding attach_all
  attach_all_tables s id [] = (refl, refl)
  attach_all_tables s id (b ∷ bridges) =
      let r = host.iface_bridge_attach s.world id b.ifname b.vlan_id in
      elim (Bool-cases r.success) [
        | inl e ↦ rw e (attach_all_tables (called s r) id bridges)
        | inr e ↦ rw e (refl, refl)
      ]

  -- What making a tunnel for a remote leaves: the invariant, and a ready tunnel if it returned one.
  pub record Added (s : State T X S W) (remote : ℕ) (r : State T X S W × Option ℕ) : Type 0 where
    pub owned : Owned r.0.tables
    pub same_ledger : ledger r.0 ≡ ledger s
    pub tunnel :
        (p : ℕ) → r.1 ≡ some p → (t : TunnelContext S) × At r.0.tables remote p t × (t.ready ≡ true)

  roll_back-Added :
      (s0 s : State T X S W) (remote : ℕ)
      → Owned s.tables
      → ledger s ≡ ledger s0
      → Returns (roll_back s remote) (Added s0 remote)
  roll_back-Added s0 s remote o kept = Returns-bind (provision_del-Deleted s remote o) (λ (s', b) d.
      (_, refl, record { owned = d.owned; same_ledger = d.same_ledger ∙ kept; tunnel = λ p e. cc }))

  set_up-Added :
      (cfg : Config) (s : State T X S W) (p remote : ℕ) {t : TunnelContext S}
      → Owned s.tables
      → At s.tables remote p t
      → Returns (set_up cfg s p remote) (Added s remote)
  unfolding set_up
  set_up-Added cfg s p remote {t} o a =
      let h = host.iface_ebtables_add_tunnel s.world t.id t.firewall_hooks in
      let t' = record t { firewall_hooks = h.hooks } in
      let s1 = with_tables (called s h.reply) (store s.tables p (some t')) in
      let o1 : Owned s1.tables = store-Owned s.tables o a t' refl refl refl in
      let r = attach_all s1 t.id cfg.bridges in
      let (same, kept) = attach_all_tables s1 t.id cfg.bridges in
      let o2 : Owned r.0.tables = rw same o1 in
      let a2 : At r.0.tables remote p t' = rw same (store-At s.tables o a t') in
      rw (a.object, ◌>>=◌)
        (Returns-if (not h.reply.success) (λ _. roll_back-Added s s1 remote o1 refl)
          (λ _.
            Returns-if (not r.1) (λ _. roll_back-Added s r.0 remote o2 kept)
              (λ _.
                let t2 = record t' { ready = true } in
                (
                  _,
                  refl,
                  record {
                    owned = store-Owned r.0.tables o2 a2 t2 refl refl refl;
                    same_ledger = kept;
                    tunnel = λ q e.
                        let same_p : p ≡ q = cc in
                        (t2, rw (← same_p) (store-At r.0.tables o2 a2 t2), refl);
                  },
                ))))

  create_tunnel-Added :
      (cfg : Config) (s : State T X S W) (remote : ℕ)
      → Owned s.tables
      → provision_get_tunnel_byip s remote ≡ none
      → Returns (create_tunnel cfg s remote) (Added s remote)
  unfolding create_tunnel provision_get_tunnel_byip
  create_tunnel-Added cfg s remote o absent =
      let id = free_slot max_slots s 0 in
      let s0 = record s { errno = enodev } in
      let r = host.iface_gre_add s.world id cfg.local remote in
      let s1 = called s0 r in
      let t : TunnelContext S = record {
        ip_remote = remote;
        id = id;
        ready = false;
        firewall_hooks = 0;
        macs = set.new;
      } in
      Returns-if (id == max_slots)
        (λ _. (_, refl, record { owned = o; same_ledger = refl; tunnel = λ p e. cc }))
        (λ some_slot.
          Returns-if (not r.success)
            (λ _. (_, refl, record { owned = o; same_ledger = refl; tunnel = λ p e. cc }))
            (λ _.
              let (free, small) : (s.tables.slots id ≡ false) × (id < max_slots) =
                ground (arith, free_slot_lem max_slots s 0) in
              let (x, e, d) =
                set_up-Added cfg (with_tables s1 (link s.tables t)) s.tables.next remote
                  (link-Owned s.tables o t absent free small refl)
                  (linked_here s.tables o t absent free small refl) in
              (x, e, record { owned = d.owned; same_ledger = d.same_ledger; tunnel = d.tunnel })))

  -- From a state with the invariant, `provision_add` follows no dangling pointer and returns; the
  -- invariant holds after it, also when a call of the kernel or of the firewall fails on the way; the
  -- counters, the time to wait and the flag for a pending cleanup are as before; and a pointer that
  -- it returns is the entry of the remote, to a context that is ready.
  pub provision_add-Added :
      (cfg : Config) (s : State T X S W) (remote : ℕ)
      → Owned s.tables
      → Returns (provision_add cfg s remote) (Added s remote)
  unfolding provision_add
  provision_add-Added cfg s remote o =
      Returns-if s.cleanup_pending
        (λ _. (_, refl, record { owned = o; same_ledger = refl; tunnel = λ p e. cc }))
        (λ _. elim (Option-cases (provision_get_tunnel_byip s remote)) [
          | inl e ↦ rw e (create_tunnel-Added cfg s remote o e)
          | inr (p, e) ↦ rw e (
              Returns-bind (deref-Returns s p (o.alive remote p e)) (λ t h.
                Returns-if t.ready
                  (λ ready. (
                    _,
                    refl,
                    record {
                      owned = o;
                      same_ledger = refl;
                      tunnel = λ q f.
                          let same_p : p ≡ q = cc in
                          (t, record { entry = rw (← same_p) e; object = rw (← same_p) h }, ready);
                    },
                  ))
                  (λ _. Returns-bind (provision_del-Deleted s remote o) (λ (s', b) d.
                    Returns-if b
                      (λ f.
                        let (x, q, c) = create_tunnel-Added cfg s' remote d.owned (d.gone f) in
                        (
                          x,
                          q,
                          record {
                            owned = c.owned;
                            same_ledger = c.same_ledger ∙ d.same_ledger;
                            tunnel = c.tunnel;
                          },
                        ))
                      (λ _. (
                        _,
                        refl,
                        record { owned = d.owned; same_ledger = d.same_ledger; tunnel = λ q f. cc },
                      ))))))
        ])
