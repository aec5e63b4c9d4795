-- ===== src/Provision/Removal.antt =====
-- src/provision.c: `provision_del` and the invariant of the shared objects.
use softgre.Shared.{
  ℕ, ◌≡◌, refl, sym, ◌∙◌, Bool, true, false, not, ◌&&◌, List, [], ◌∷◌, Option, none, some, ◌==◌,
  arith, Bool-cases, Option-cases, inl, inr, ◌>>=◌, Returns, Returns-bind, Returns-if,
}
use softgre.Maps.{MapOps, contains, once, is_some}
use softgre.Provision.Heap.{TunnelContext, forget}
use softgre.Provision.{
  Host, State, enodev, called, with_tables, deref, provision_get_tunnel_byip, revoke_all,
  del_tunnel, provision_del,
}
use softgre.Provision.Owned.{At, Owned, forget-Owned, forget-At, store-Owned}
use softgre.Provision.Linked.{unlink-Owned, unlink-gone}

-- The counters and flags, which only `provision_packet` and `provision_delall` change.
abbrev pub ledger : {T X S W : Type 0} → State T X S W → ℕ × ℕ × ℕ × ℕ × Bool
ledger s = (s.packets, s.ignored, s.failures, s.retry_after, s.cleanup_pending)

module _ {K V M : Type 0} (ops : MapOps K V M) where
  pub same_self : (k : K) → ops.same k k ≡ true
  same_self k = (ops.same_iff k k).1 refl

  pub rest_once : (j : K) (ks : List K) → once ops.same (j ∷ ks) ≡ true → once ops.same ks ≡ true
  unfolding once
  rest_once j ks one = ground arith

  -- The keys that a removal leaves are those behind the first.
  pub rest_keys :
      (m : M) (j : K) (ks : List K)
      → once ops.same (j ∷ ks) ≡ true
      → ((k : K) → contains ops.same (j ∷ ks) k ≡ is_some (ops.lookup m k))
      → (k : K) → contains ops.same ks k ≡ is_some (ops.lookup (ops.remove m j) k)
  unfolding once contains
  rest_keys m j ks one all k = elim (Bool-cases (ops.same j k)) [
    | inl e ↦
        let q = (ops.same_iff j k).0 e in
        let absent : contains ops.same ks j ≡ false = ground arith in
        rw (ops.lookup-remove m j k, e, ← q) absent
    | inr e ↦ rw (ops.lookup-remove m j k, e) (let h = all k in rw e at h)
  ]

  pub first_key :
      (m : M) (j : K) (ks : List K)
      → ((k : K) → contains ops.same (j ∷ ks) k ≡ is_some (ops.lookup m k))
      → is_some (ops.lookup m j) ≡ true
  unfolding contains
  first_key m j ks all = let h = all j in sym (rw (same_self j) at h)

  pub no_key :
      (m : M)
      → ((k : K) → contains ops.same [] k ≡ is_some (ops.lookup m k))
      → (k : K) → ops.lookup m k ≡ none
  unfolding contains
  no_key m all k = elim (Option-cases (ops.lookup m k)) [
    | inl e ↦ e
    | inr (v, e) ↦ let f : false ≡ true = let h = all k in rw e at h in cc
  ]

pub is_unit : (o : Option (Unit {0})) → is_some o ≡ true → o ≡ some tt
is_unit none e = cc
is_unit (some u) e = refl

module _ {T X S W : Type 0} ⦃tun : MapOps ℕ ℕ T⦄ ⦃idx : MapOps (List ℕ) ℕ X⦄
    ⦃set : MapOps (List ℕ) (Unit {0}) S⦄ ⦃host : Host W⦄ where
  pub deref-Returns :
      (s : State T X S W) (p : ℕ)
      → (t : TunnelContext S) × (s.tables.heap p ≡ some t)
      → Returns (deref s p) (λ t. s.tables.heap p ≡ some t)
  deref-Returns s p (t, e) = (t, rw (deref, e), e)

  -- What the loop over the MACs of the tunnel of `ip` leaves.
  record Revoked (s : State T X S W) (ip p id : ℕ) (r : State T X S W × Bool) : Type 0 where
    owned : Owned r.0.tables
    same_ledger : ledger r.0 ≡ ledger s
    tunnel : TunnelContext S
    at : At r.0.tables ip p tunnel
    same_id : tunnel.id ≡ id
    empty : r.1 ≡ true → (mac : List ℕ) → set.lookup tunnel.macs mac ≡ none

  revoke_all-Revoked :
      (s : State T X S W) (macs : List (List ℕ)) {ip p : ℕ} {t : TunnelContext S}
      → Owned s.tables
      → At s.tables ip p t
      → once set.same macs ≡ true
      → ((k : List ℕ) → contains set.same macs k ≡ is_some (set.lookup t.macs k))
      → Returns (revoke_all s p macs) (Revoked s ip p t.id)
  unfolding revoke_all
  revoke_all-Revoked s [] {ip} {p} {t} o a one all = (
    (s, true),
    refl,
    record {
      owned = o;
      same_ledger = refl;
      tunnel = t;
      at = a;
      same_id = refl;
      empty = λ _. no_key set t.macs all;
    },
  )
  revoke_all-Revoked s (mac ∷ macs) {ip} {p} {t} o a one all =
      rw (a.object, ◌>>=◌)
        (Returns-if (host.iface_ebtables_revoke s.world t.id mac).success
          (λ _.
            let s' = called s (host.iface_ebtables_revoke s.world t.id mac) in
            let has = is_unit (set.lookup t.macs mac) (first_key set t.macs mac macs all) in
            let (r, e, h) =
              revoke_all-Revoked (with_tables s' (forget s.tables p t mac)) macs
                (forget-Owned s.tables o a mac has) (forget-At s.tables o a mac)
                (rest_once set mac macs one) (rest_keys set t.macs mac macs one all) in
            (
              r,
              e,
              record {
                owned = h.owned;
                same_ledger = h.same_ledger;
                tunnel = h.tunnel;
                at = h.at;
                same_id = h.same_id;
                empty = h.empty;
              },
            ))
          (λ _. (
            _,
            refl,
            record {
              owned = o;
              same_ledger = refl;
              tunnel = t;
              at = a;
              same_id = refl;
              empty = λ e. cc;
            },
          )))

  -- What `provision_del` leaves: the invariant, and no tunnel of the remote if it returned 0.
  pub record Deleted (s : State T X S W) (remote : ℕ) (r : State T X S W × Bool) : Type 0 where
    pub owned : Owned r.0.tables
    pub same_ledger : ledger r.0 ≡ ledger s
    pub gone : r.1 ≡ true → provision_get_tunnel_byip r.0 remote ≡ none

  del_tunnel-Deleted :
      (s : State T X S W) (ip p : ℕ) {t : TunnelContext S}
      → Owned s.tables
      → At s.tables ip p t
      → ((mac : List ℕ) → set.lookup t.macs mac ≡ none)
      → Returns (del_tunnel s p ip) (Deleted s ip)
  unfolding del_tunnel provision_get_tunnel_byip
  del_tunnel-Deleted s ip p {t} o a empty =
      rw (a.object, ◌>>=◌)
        (Returns-if (host.iface_ebtables_del_tunnel s.world t.id t.firewall_hooks).reply.success
          (λ _.
            let h = host.iface_ebtables_del_tunnel s.world t.id t.firewall_hooks in
            let t' = record t { firewall_hooks = h.hooks } in
            (
              _,
              refl,
              record {
                owned = unlink-Owned s.tables o t' a refl empty;
                same_ledger = refl;
                gone = λ _. unlink-gone s.tables p t' ip;
              },
            ))
          (λ _. (
            _,
            refl,
            record {
              owned = store-Owned s.tables o a _ refl refl refl;
              same_ledger = refl;
              gone = λ e. cc;
            },
          )))

  -- From a state with the invariant, `provision_del` follows no dangling pointer and returns; the
  -- invariant holds after it, also when a call fails on the way; the counters, the time to wait and
  -- the flag for a pending cleanup are as before; and if it returns 0, the remote has no tunnel.
  pub provision_del-Deleted :
      (s : State T X S W) (remote : ℕ)
      → Owned s.tables
      → Returns (provision_del s remote) (Deleted s remote)
  unfolding provision_del provision_get_tunnel_byip
  provision_del-Deleted s remote o = elim (Option-cases (tun.lookup s.tables.tunnels remote)) [
    | inl e ↦
        rw (provision_del, e)
          ((s, true), refl, record { owned = o; same_ledger = refl; gone = λ _. e })
    | inr (p, e) ↦
        let (t, h) = o.alive remote p e in
        let r = host.iface_gre_del s.world t.id in
        let s1 = called s r in
        rw (provision_del, e, h, ◌>>=◌)
          (Returns-if (not r.success && not (s1.errno == enodev))
            (λ _. (_, refl, record { owned = o; same_ledger = refl; gone = λ f. cc }))
            (λ _.
              Returns-bind
                (revoke_all-Revoked s1 (set.keys t.macs) o (record { entry = e; object = h })
                  (set.once-keys t.macs) (set.contains-keys t.macs))
                (λ (s2, b) v.
                  Returns-if b
                    (λ f.
                      let (r, q, d) = del_tunnel-Deleted s2 remote p v.owned v.at (v.empty f) in
                      (
                        r,
                        q,
                        record {
                          owned = d.owned;
                          same_ledger = d.same_ledger ∙ v.same_ledger;
                          gone = d.gone;
                        },
                      ))
                    (λ f. (
                      _,
                      refl,
                      record { owned = v.owned; same_ledger = v.same_ledger; gone = λ f. cc },
                    )))))
  ]
