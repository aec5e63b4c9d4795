-- ===== src/Provision/Learning.antt =====
-- src/provision.c: learning a MAC, and the part of `provision_packet` behind its first tests.
use softgre.Shared.{
  ℕ, ◌+◌, ◌<◌, ◌≡◌, refl, ap, ◌∙◌, Bool, true, false, not, List, Option, none, some, ltb, leb, ◌==◌,
  if◌then◌else◌, arith, Bool-cases, inl, inr, ok, ◌>>=◌, Returns, Returns-bind, Returns-if,
}
use softgre.Maps.{MapOps, is_some}
use softgre.Provision.Heap.{TunnelContext, Tables, provision_max_clients}
use softgre.Provision.{
  Host, Config, State, enospc, usec_per_sec, bump, provision_get_tunnel_byip,
  provision_get_tunnel_by_mac, provision_tunnel_allow_mac,
}
use softgre.Provision.Packet.{is_ready, admit, back_off, try_provision}
use softgre.Provision.Owned.{At, Owned, learn-Owned, learn-At}
use softgre.Provision.Removal.{ledger, deref-Returns, is_unit, same_self}
use softgre.Provision.Creation.{Added, provision_add-Added}

is_some-none : {A : Type 0} (o : Option A) → is_some o ≡ false → o ≡ none
is_some-none none e = refl
is_some-none (some a) e = cc

module _ {T X S : Type 0} ⦃tun : MapOps ℕ ℕ T⦄ ⦃idx : MapOps (List ℕ) ℕ X⦄
    ⦃set : MapOps (List ℕ) (Unit {0}) S⦄ where
  -- The tunnel of a remote has learned a MAC.
  pub record Has (tb : Tables T X S) (ip : ℕ) (mac : List ℕ) : Type 0 where
    pub pointer : ℕ
    pub tunnel : TunnelContext S
    pub at : At tb ip pointer tunnel
    pub member : set.lookup tunnel.macs mac ≡ some tt

module _ {T X S W : Type 0} ⦃tun : MapOps ℕ ℕ T⦄ ⦃idx : MapOps (List ℕ) ℕ X⦄
    ⦃set : MapOps (List ℕ) (Unit {0}) S⦄ ⦃host : Host W⦄ where
  -- What `provision_tunnel_allow_mac` leaves: the invariant, and the MAC learned if it returned true.
  pub record Allowed (s : State T X S W) (ip : ℕ) (mac : List ℕ) (r : State T X S W × Bool)
      : Type 0 where
    pub owned : Owned r.0.tables
    pub same_ledger : ledger r.0 ≡ ledger s
    pub learned : r.1 ≡ true → Has r.0.tables ip mac

  -- For a tunnel of a state with the invariant, `provision_tunnel_allow_mac` returns and keeps the
  -- invariant, so a MAC of another tunnel is not taken and no tunnel exceeds its limit; the counters,
  -- the time to wait and the flag for a pending cleanup are as before; and if it returns true, the
  -- tunnel has the MAC.
  pub provision_tunnel_allow_mac-Allowed :
      (s : State T X S W) (ip p : ℕ) (mac : List ℕ) (t : TunnelContext S)
      → Owned s.tables
      → At s.tables ip p t
      → Returns (provision_tunnel_allow_mac s p mac) (Allowed s ip mac)
  unfolding provision_tunnel_allow_mac
  provision_tunnel_allow_mac-Allowed s ip p mac t o a =
      rw (a.object, ◌>>=◌)
        (Returns-if (not t.ready)
          (λ _. (_, refl, record { owned = o; same_ledger = refl; learned = λ e. cc }))
          (λ _.
            Returns-if (is_some (set.lookup t.macs mac))
              (λ has. (
                _,
                refl,
                record {
                  owned = o;
                  same_ledger = refl;
                  learned = λ _. record {
                    pointer = p;
                    tunnel = t;
                    at = a;
                    member = is_unit (set.lookup t.macs mac) has;
                  };
                },
              ))
              (λ _.
                Returns-if (leb provision_max_clients (set.size t.macs))
                  (λ _. (_, refl, record { owned = o; same_ledger = refl; learned = λ e. cc }))
                  (λ room.
                    Returns-if (is_some (provision_get_tunnel_by_mac s mac))
                      (λ _. (_, refl, record { owned = o; same_ledger = refl; learned = λ e. cc }))
                      (λ new.
                        Returns-if (host.iface_ebtables_allow s.world t.id mac).success
                          (λ _. (
                            _,
                            refl,
                            record {
                              owned =
                                  learn-Owned s.tables o a mac
                                    (is_some-none (provision_get_tunnel_by_mac s mac) new)
                                    (ground arith);
                              same_ledger = refl;
                              learned = λ _. record {
                                pointer = p;
                                tunnel = record t { macs = set.insert t.macs mac tt };
                                at = learn-At s.tables o a mac;
                                member =
                                    rw (set.lookup-insert t.macs mac mac tt, same_self set mac);
                              };
                            },
                          ))
                          (λ _. (
                            _,
                            refl,
                            record { owned = o; same_ledger = refl; learned = λ e. cc },
                          )))))))

  -- What a packet leads to.
  pub data Outcome (s : State T X S W) (remote : ℕ) (mac : List ℕ) (s' : State T X S W)
      : Type 0 where
    learned : ledger s' ≡ ledger s → Has s'.tables remote mac → Outcome s remote mac s'
    waiting : s' ≡ s → host.monotonic_usec s.world < s.retry_after → Outcome s remote mac s'
    dropped : ledger s' ≡ ledger (record s { ignored = bump s.ignored }) → Outcome s remote mac s'
    failed :
        ledger s'
          ≡ ledger (record s {
            failures = bump s.failures;
            retry_after = host.monotonic_usec s.world + usec_per_sec;
          })
        → Outcome s remote mac s'

  pub record Handled (s : State T X S W) (remote : ℕ) (mac : List ℕ) (s' : State T X S W)
      : Type 0 where
    pub owned : Owned s'.tables
    pub outcome : Outcome s remote mac s'

  -- A tunnel that is usable: what is known when the MAC is to be admitted.
  Usable : State T X S W → ℕ → Option ℕ → Type 0
  Usable s remote o = (p : ℕ) → o ≡ some p → (t : TunnelContext S) × At s.tables remote p t

  is_ready-Returns :
      (s : State T X S W) (remote : ℕ) (o : Option ℕ)
      → Usable s remote o
      → Returns (is_ready s o) (λ b. b ≡ b)
  unfolding is_ready Usable
  is_ready-Returns s remote none u = (false, refl, refl)
  is_ready-Returns s remote (some p) u =
      let (t, a) = u p refl in
      Returns-bind (deref-Returns s p (t, a.object)) (λ t e. (t.ready, refl, refl))

  admit-Allowed :
      (s : State T X S W) (remote : ℕ) (o : Option ℕ) (mac : List ℕ)
      → Owned s.tables
      → Usable s remote o
      → Returns (admit s o mac) (Allowed s remote mac)
  unfolding admit Usable
  admit-Allowed s remote none mac ow u =
      (_, refl, record { owned = ow; same_ledger = refl; learned = λ e. cc })
  admit-Allowed s remote (some p) mac ow u =
      let (t, a) = u p refl in
      Returns-bind (is_ready-Returns s remote (some p) u) (λ ready e.
        Returns-if ready (λ _. provision_tunnel_allow_mac-Allowed s remote p mac t ow a)
          (λ _. (_, refl, record { owned = ow; same_ledger = refl; learned = λ e. cc })))

  -- The rest of `try_provision` once it has a tunnel or none.
  finish-Handled :
      (s s2 : State T X S W) (remote : ℕ) (o : Option ℕ) (mac : List ℕ)
      → Owned s2.tables
      → Usable s2 remote o
      → ledger s2 ≡ ledger s
      → Returns
          (admit s2 o mac >>= λ (s3, done).
            if done then ok s3 else ok (back_off s3 (host.monotonic_usec s.world)))
          (Handled s remote mac)
  unfolding back_off
  finish-Handled s s2 remote o mac ow u kept =
      Returns-bind (admit-Allowed s2 remote o mac ow u) (λ (s3, done) d.
        Returns-if done
          (λ f. (
            _,
            refl,
            record { owned = d.owned; outcome = learned (d.same_ledger ∙ kept) (d.learned f) },
          ))
          (λ f.
            let now = host.monotonic_usec s.world in
            let same = d.same_ledger ∙ kept in
            elim (Bool-cases (s3.errno == enospc)) [
              | inl e ↦ rw e (
                _,
                refl,
                record {
                  owned = d.owned;
                  outcome = dropped (ap (λ l. (l.0, bump l.1, l.2, l.3, l.4)) same);
                },
              )
              | inr e ↦ rw e (
                _,
                refl,
                record {
                  owned = d.owned;
                  outcome = failed (ap (λ l. (l.0, l.1, bump l.2, now + usec_per_sec, l.4)) same);
                },
              )
            ]))

  lookup-Usable :
      (s : State T X S W) (remote : ℕ)
      → Owned s.tables
      → Usable s remote (provision_get_tunnel_byip s remote)
  unfolding Usable provision_get_tunnel_byip
  lookup-Usable s remote o p e =
      let (t, h) = o.alive remote p e in (t, record { entry = e; object = h })

  Added-Usable :
      (s s2 : State T X S W) (remote : ℕ) (o : Option ℕ)
      → Added s remote (s2, o)
      → Usable s2 remote o
  unfolding Usable
  Added-Usable s s2 remote o d p e = let (t, a, r) = d.tunnel p e in (t, a)

  pub try_provision-Handled :
      (cfg : Config) (s : State T X S W) (remote : ℕ) (mac : List ℕ)
      → Owned s.tables
      → Returns (try_provision cfg s remote mac) (Handled s remote mac)
  unfolding try_provision
  try_provision-Handled cfg s remote mac o =
      let s1 = record s { errno = 0 } in
      let u = lookup-Usable s1 remote o in
      Returns-if (ltb (host.monotonic_usec s.world) s.retry_after)
        (λ e. (_, refl, record { owned = o; outcome = waiting refl (ground arith) }))
        (λ _.
          Returns-bind (is_ready-Returns s1 remote (provision_get_tunnel_byip s1 remote) u)
            (λ ready e. elim (Bool-cases ready) [
              | inl f ↦
                  rw f
                    (finish-Handled s s1 remote (provision_get_tunnel_byip s1 remote) mac o u refl)
              | inr f ↦ rw f (
                  Returns-bind (provision_add-Added cfg s1 remote o) (λ (s2, p) d.
                    finish-Handled s s2 remote p mac d.owned (Added-Usable s1 s2 remote p d)
                      d.same_ledger))
            ]))
