-- ===== src/Provision/Cleanup.antt =====
-- src/provision.c: removing all tunnels.
use softgre.Shared.{
  ℕ, Bool, true, false, not, ◌&&◌, List, [], ◌∷◌, Option, none, some, ◌==◌, if◌then◌else◌, Run, ok,
  fault, ◌>>=◌,
}
use softgre.Maps.{MapOps}
use softgre.Provision.Heap.{TunnelContext, Tables, store}
use softgre.Provision.{Host, State, enodev, called, with_tables, deref}

module _ {T X S : Type 0} ⦃tun : MapOps ℕ ℕ T⦄ ⦃idx : MapOps (List ℕ) ℕ X⦄ where
  -- `hashmap_remove_all(tunnels)` frees the context of each entry.
  unfoldable pub free_all : Tables T X S → List ℕ → ℕ → Option (TunnelContext S)
  free_all tb [] q = tb.heap q
  free_all tb (remote ∷ remotes) q = elim (tun.lookup tb.tunnels remote) [
    | none ↦ free_all tb remotes q
    | some p ↦ if p == q then none else free_all tb remotes q
  ]

  unfoldable pub clear_tables : Tables T X S → Tables T X S
  unfolding free_all
  clear_tables tb = record {
    tunnels = tun.new;
    mac_index = idx.new;
    heap = free_all tb (tun.keys tb.tunnels);
    next = tb.next;
    slots = λ i. false;
  }

module _ {T X S W : Type 0} ⦃tun : MapOps ℕ ℕ T⦄ ⦃idx : MapOps (List ℕ) ℕ X⦄
    ⦃set : MapOps (List ℕ) (Unit {0}) S⦄ ⦃host : Host W⦄ where
  -- `value` of the entry that the iterator returned.
  abbrev pub entry_of : State T X S W → ℕ → Run ℕ
  entry_of s remote = elim (tun.lookup s.tables.tunnels remote) [ none ↦ fault | some p ↦ ok p ]

  -- The body of the loop of `provision_delall`; the result says whether `ok` may stay true.
  unfoldable pub dismantle : State T X S W → ℕ → Run (State T X S W × Bool)
  unfolding store
  dismantle s remote = do
    p ← entry_of s remote
    t ← deref s p
    let t1 = record t { ready = false }
    let s1 = with_tables s (store s.tables p (some t1))
    let r = host.iface_gre_del s1.world t.id
    let s2 = called s1 r
    if not r.success && not (s2.errno == enodev) then ok (s2, false) else do
      let h = host.iface_ebtables_del_tunnel s2.world t.id t.firewall_hooks
      let t2 = record t1 { firewall_hooks = h.hooks }
      ok (with_tables (called s2 h.reply) (store s2.tables p (some t2)), h.reply.success)

  unfoldable pub dismantle_all : State T X S W → List ℕ → Run (State T X S W × Bool)
  unfolding dismantle
  dismantle_all s [] = ok (s, true)
  dismantle_all s (remote ∷ remotes) = do
    (s1, fine) ← dismantle s remote
    (s2, rest_fine) ← dismantle_all s1 remotes
    ok (s2, fine && rest_fine)

  -- `tunnels` is not NULL between `provision_init` and `provision_end`.
  unfoldable pub provision_delall : State T X S W → Run (State T X S W)
  unfolding dismantle_all clear_tables
  provision_delall s = do
    (s1, fine) ← dismantle_all (record s { cleanup_pending = true }) (tun.keys s.tables.tunnels)
    let r = host.iface_ebtables_reset s1.world
    let s2 = called s1 r
    if not fine
        then ok s1
        else if not r.success
        then ok s2
        else ok (record s2 {
          tables = clear_tables s2.tables;
          cleanup_pending = false;
          retry_after = 0;
        })
