-- ===== src/Provision.antt =====
-- src/provision.h and src/provision.c: tunnels, learned MACs, and their limits.
pub mod Heap
pub mod Packet
pub mod Cleanup
pub mod Owned
pub mod Linked
pub mod Removal
pub mod Creation
pub mod Learning
pub mod Capture
pub mod Emptied
pub mod Runs
use softgre.Shared.{
  ℕ, zero, suc, ◌+◌, ◌-◌, ◌*◌, ◌/◌, ◌%◌, ◌^◌, Bool, true, false, not, ◌&&◌, ◌||◌, List, [], ◌∷◌,
  ◌++◌, Option, none, some, ltb, leb, ◌==◌, if◌then◌else◌, Run, ok, fault, ◌>>=◌,
}
use softgre.Maps.{MapOps, is_some}
use softgre.Payload.{Mac, PayloadPacket}
use Heap.{
  TunnelContext, Tables, provision_max_clients, max_slots, store, learn, forget, link, unlink,
}

abbrev pub enospc : ℕ
enospc = 28

abbrev pub enodev : ℕ
enodev = 19

abbrev pub usec_per_sec : ℕ
usec_per_sec = 1000000

-- What a call of an interface function returns: whether it returned 0, the value it left in `errno`
-- if it set it, and the world after it.
pub record Reply (W : Type 0) : Type 0 where
  pub success : Bool
  pub errno_set : Option ℕ
  pub world : W

-- The same, with the hook bits of a tunnel that the call updates.
pub record HookReply (W : Type 0) : Type 0 where
  pub reply : Reply W
  pub hooks : ℕ

-- What provisioning calls: src/iface_gre.c, src/iface_bridge.c, src/iface_ebtables.c and the clock.
-- A tunnel's interface is named by the prefix and its id, so the id stands for the name.
pub record Host (W : Type 0) : Type 0 where
  pub has_name : W → ℕ → Bool
  pub iface_gre_add : W → ℕ → ℕ → ℕ → Reply W
  pub iface_gre_del : W → ℕ → Reply W
  pub iface_bridge_attach : W → ℕ → List ℕ → ℕ → Reply W
  pub iface_ebtables_add_tunnel : W → ℕ → ℕ → HookReply W
  pub iface_ebtables_del_tunnel : W → ℕ → ℕ → HookReply W
  pub iface_ebtables_allow : W → ℕ → List ℕ → Reply W
  pub iface_ebtables_revoke : W → ℕ → List ℕ → Reply W
  pub iface_ebtables_reset : W → Reply W
  pub monotonic_usec : W → ℕ

-- `struct tunnel_bridge`
pub record TunnelBridge : Type 0 where
  pub ifname : List ℕ
  pub vlan_id : ℕ

-- The configuration that provisioning reads; addresses in host byte order.
pub record Config : Type 0 where
  pub local : ℕ
  pub bridges : List TunnelBridge
  pub remote_allowed : ℕ → Bool

-- The static variables of the file, `errno`, and the world outside.
pub record State (T X S W : Type 0) : Type 0 where
  pub tables : Tables T X S
  pub packets : ℕ
  pub ignored : ℕ
  pub failures : ℕ
  pub retry_after : ℕ
  pub cleanup_pending : Bool
  pub errno : ℕ
  pub world : W

abbrev pub or_keep : Option ℕ → ℕ → ℕ
or_keep (some e) old = e
or_keep none old = old

-- `uint64_t` counters wrap.
abbrev pub bump : ℕ → ℕ
bump n = (n + 1) % 2 ^ 64

-- `%02x`
abbrev pub hex_digit : ℕ → ℕ
hex_digit n = if ltb n 10 then 48 + n else 87 + n

unfoldable pub hex_byte : ℕ → List ℕ → List ℕ
hex_byte b rest = hex_digit (b / 16) ∷ hex_digit (b % 16) ∷ rest

unfoldable pub mac_text : Mac → List ℕ
unfolding hex_byte
mac_text m = hex_byte m.m0 (
    b':'
    ∷ hex_byte m.m1 (
        b':'
        ∷ hex_byte m.m2 (b':' ∷ hex_byte m.m3 (b':' ∷ hex_byte m.m4 (b':' ∷ hex_byte m.m5 [])))))

module _ {T X S W : Type 0} ⦃tun : MapOps ℕ ℕ T⦄ ⦃idx : MapOps (List ℕ) ℕ X⦄
    ⦃set : MapOps (List ℕ) (Unit {0}) S⦄ ⦃host : Host W⦄ where
  -- After a call of the interface.
  abbrev pub called : State T X S W → Reply W → State T X S W
  called s r = record s { errno = or_keep r.errno_set s.errno; world = r.world }

  abbrev pub with_tables : State T X S W → Tables T X S → State T X S W
  with_tables s tb = record s { tables = tb }

  -- A read through a pointer faults at freed memory.
  abbrev pub deref : State T X S W → ℕ → Run (TunnelContext S)
  deref s p = elim (s.tables.heap p) [ none ↦ fault | some t ↦ ok t ]

  unfoldable pub provision_get_tunnel_byip : State T X S W → ℕ → Option ℕ
  provision_get_tunnel_byip s remote = tun.lookup s.tables.tunnels remote

  unfoldable pub provision_get_tunnel_by_mac : State T X S W → List ℕ → Option ℕ
  provision_get_tunnel_by_mac s mac = idx.lookup s.tables.mac_index mac

  -- The loop of `provision_del` over the learned MACs: false at the first that cannot be revoked.
  unfoldable pub revoke_all : State T X S W → ℕ → List (List ℕ) → Run (State T X S W × Bool)
  unfolding forget
  revoke_all s p [] = ok (s, true)
  revoke_all s p (mac ∷ macs) = do
    t ← deref s p
    let r = host.iface_ebtables_revoke s.world t.id mac
    let s' = called s r
    let rest = revoke_all (with_tables s' (forget s'.tables p t mac)) p macs
    if r.success then rest else ok (s', false)

  -- Its last part: the hooks, the slot and the entry.
  unfoldable pub del_tunnel : State T X S W → ℕ → ℕ → Run (State T X S W × Bool)
  unfolding store unlink
  del_tunnel s p remote = do
    t ← deref s p
    let h = host.iface_ebtables_del_tunnel s.world t.id t.firewall_hooks
    let s' = called s h.reply
    let t' = record t { firewall_hooks = h.hooks }
    if h.reply.success
        then ok (with_tables s' (unlink s'.tables p t' remote), true)
        else ok (with_tables s' (store s'.tables p (some t')), false)

  -- The result says whether 0 was returned.
  unfoldable pub provision_del : State T X S W → ℕ → Run (State T X S W × Bool)
  unfolding provision_get_tunnel_byip revoke_all del_tunnel
  provision_del s remote = elim (provision_get_tunnel_byip s remote) [
    | none ↦ ok (s, true)
    | some p ↦ do
      t ← deref s p
      let r = host.iface_gre_del s.world t.id
      let s1 = called s r
      if not r.success && not (s1.errno == enodev) then ok (s1, false) else do
        (s2, revoked) ← revoke_all s1 p (set.keys t.macs)
        if revoked then del_tunnel s2 p remote else ok (s2, false)
  ]

  -- The search for an id that is in no slot and names no interface; `max_slots` if there is none.
  unfoldable pub free_slot : ℕ → State T X S W → ℕ → ℕ
  free_slot zero s id = id
  free_slot (suc rounds) s id =
      let next = free_slot rounds s (id + 1) in
      if s.tables.slots id || host.has_name s.world id then next else id

  unfoldable pub attach_all : State T X S W → ℕ → List TunnelBridge → State T X S W × Bool
  attach_all s id [] = (s, true)
  attach_all s id (b ∷ bridges) =
      let r = host.iface_bridge_attach s.world id b.ifname b.vlan_id in
      let rest = attach_all (called s r) id bridges in
      if r.success then rest else (called s r, false)

  -- `goto fail`
  abbrev pub roll_back : State T X S W → ℕ → Run (State T X S W × Option ℕ)
  roll_back s remote = do (s', _) ← provision_del s remote; ok (s', none)

  -- The new tunnel from its entry in the table on: hooks, VLANs, and the flag that it is ready.
  unfoldable pub set_up : Config → State T X S W → ℕ → ℕ → Run (State T X S W × Option ℕ)
  unfolding attach_all provision_del store
  set_up cfg s p remote = do
    t ← deref s p
    let h = host.iface_ebtables_add_tunnel s.world t.id t.firewall_hooks
    let t' = record t { firewall_hooks = h.hooks }
    let s1 = with_tables (called s h.reply) (store s.tables p (some t'))
    if not h.reply.success then roll_back s1 remote else do
      let (s2, attached) = attach_all s1 t.id cfg.bridges
      if not attached
          then roll_back s2 remote
          else ok (with_tables s2 (store s2.tables p (some (record t' { ready = true }))), some p)

  -- The new tunnel from the search for its id on. `errno` after the search is that of the last
  -- `if_nametoindex`, which found no interface.
  unfoldable pub create_tunnel : Config → State T X S W → ℕ → Run (State T X S W × Option ℕ)
  unfolding free_slot set_up link
  create_tunnel cfg s remote =
      let id = free_slot max_slots s 0 in
      if id == max_slots then ok (record s { errno = enospc }, none) else do
        let r = host.iface_gre_add s.world id cfg.local remote
        let s1 = called (record s { errno = enodev }) r
        if not r.success then ok (s1, none) else do
          let t : TunnelContext S = record {
            ip_remote = remote;
            id = id;
            ready = false;
            firewall_hooks = 0;
            macs = set.new;
          }
          set_up cfg (with_tables s1 (link s1.tables t)) s1.tables.next remote

  unfoldable pub provision_add : Config → State T X S W → ℕ → Run (State T X S W × Option ℕ)
  unfolding provision_get_tunnel_byip provision_del create_tunnel
  provision_add cfg s remote =
      if s.cleanup_pending then ok (s, none) else elim (provision_get_tunnel_byip s remote) [
        | none ↦ create_tunnel cfg s remote
        | some p ↦ do
          t ← deref s p
          if t.ready then ok (s, some p) else do
            (s', deleted) ← provision_del s remote
            if deleted then create_tunnel cfg s' remote else ok (s', none)
      ]

  unfoldable pub provision_tunnel_allow_mac :
      State T X S W → ℕ → List ℕ → Run (State T X S W × Bool)
  unfolding provision_get_tunnel_by_mac learn
  provision_tunnel_allow_mac s p mac = do
    t ← deref s p
    if not t.ready
        then ok (s, false)
        else if is_some (set.lookup t.macs mac)
        then ok (s, true)
        else if leb provision_max_clients (set.size t.macs)
        then ok (record s { errno = enospc }, false)
        else if is_some (provision_get_tunnel_by_mac s mac)
        then ok (s, false)
        else let r = host.iface_ebtables_allow s.world t.id mac in
          let s' = called s r in
          if r.success then ok (with_tables s' (learn s'.tables p t mac), true) else ok (s', false)
