-- ===== src/Provision/Packet.antt =====
-- src/provision.c: what a captured packet does.
use softgre.Shared.{
  ℕ, ◌+◌, ◌/◌, Bool, false, not, ◌||◌, List, [], ◌∷◌, Option, none, some, ltb, leb, ◌==◌,
  if◌then◌else◌, Run, ok, ◌>>=◌,
}
use softgre.Maps.{MapOps, is_some}
use softgre.Payload.{PayloadPacket}
use softgre.Provision.{
  Host, TunnelBridge, Config, State, enospc, usec_per_sec, bump, mac_text, deref,
  provision_get_tunnel_byip, provision_get_tunnel_by_mac, provision_add, provision_tunnel_allow_mac,
}

-- The tests on the addresses: for this host, and from a unicast address that is not this host's.
unfoldable pub bad_address : Config → PayloadPacket → Bool
bad_address cfg packet =
    let host = packet.remote in
    not (packet.local == cfg.local)
    || packet.remote == cfg.local
    || host == 0
    || host / 0x1000000 == 127
    || host / 0x1000000 == 0
    || leb 14 (host / 0x10000000)

-- `mapped` at the end of its loop.
unfoldable pub is_mapped : List TunnelBridge → ℕ → Bool
is_mapped [] vlan = false
is_mapped (b ∷ bridges) vlan = b.vlan_id == vlan || is_mapped bridges vlan

-- The packets that are counted and go no further.
unfoldable pub is_ignored : Config → Bool → PayloadPacket → Bool
unfolding bad_address is_mapped
is_ignored cfg cleanup_pending packet =
    cleanup_pending
    || bad_address cfg packet
    || not (cfg.remote_allowed packet.remote)
    || not (is_mapped cfg.bridges packet.vlan)

module _ {T X S W : Type 0} ⦃tun : MapOps ℕ ℕ T⦄ ⦃idx : MapOps (List ℕ) ℕ X⦄
    ⦃set : MapOps (List ℕ) (Unit {0}) S⦄ ⦃host : Host W⦄ where
  -- `tun && hashmap_contains(tun->macs, mac)`
  unfoldable pub knows : State T X S W → Option ℕ → List ℕ → Run Bool
  knows s none mac = ok false
  knows s (some p) mac = do t ← deref s p; ok (is_some (set.lookup t.macs mac))

  -- `tun && tun->ready`
  unfoldable pub is_ready : State T X S W → Option ℕ → Run Bool
  is_ready s none = ok false
  is_ready s (some p) = do t ← deref s p; ok t.ready

  -- `tun && tun->ready && provision_tunnel_allow_mac(tun, mac)`
  unfoldable pub admit : State T X S W → Option ℕ → List ℕ → Run (State T X S W × Bool)
  unfolding is_ready provision_tunnel_allow_mac
  admit s none mac = ok (s, false)
  admit s (some p) mac = do
    ready ← is_ready s (some p)
    if ready then provision_tunnel_allow_mac s p mac else ok (s, false)

  -- After a failure: at a capacity limit the packet is dropped, and otherwise nothing is tried for
  -- a second.
  unfoldable pub back_off : State T X S W → ℕ → State T X S W
  back_off s now =
      if s.errno == enospc
      then record s { ignored = bump s.ignored }
      else record s { failures = bump s.failures; retry_after = now + usec_per_sec }

  -- The last part, for a MAC that no tunnel has.
  unfoldable pub try_provision : Config → State T X S W → ℕ → List ℕ → Run (State T X S W)
  unfolding provision_get_tunnel_byip is_ready admit back_off provision_add
  try_provision cfg s remote mac =
      let now = host.monotonic_usec s.world in
      if ltb now s.retry_after then ok s else do
        let s1 = record s { errno = 0 }
        let tunnel = provision_get_tunnel_byip s1 remote
        ready ← is_ready s1 tunnel
        (s2, p) ← (if ready then ok (s1, tunnel) else provision_add cfg s1 remote)
        (s3, done) ← admit s2 p mac
        if done then ok s3 else ok (back_off s3 now)

  unfoldable pub provision_packet : Config → State T X S W → PayloadPacket → Run (State T X S W)
  unfolding is_ignored mac_text knows provision_get_tunnel_byip provision_get_tunnel_by_mac
      try_provision
  provision_packet cfg s packet =
      let s1 = record s { packets = bump s.packets } in
      let ignore = record s1 { ignored = bump s1.ignored } in
      let mac = mac_text packet.mac in
      if is_ignored cfg s1.cleanup_pending packet then ok ignore else do
        known ← knows s1 (provision_get_tunnel_byip s1 packet.remote) mac
        if known
            then ok s1
            else if is_some (provision_get_tunnel_by_mac s1 mac)
            then ok ignore
            else try_provision cfg s1 packet.remote mac
