-- ===== src/Provision/Capture.antt =====
-- src/provision.c: `provision_packet` as a whole.
use softgre.Shared.{
  ℕ, ◌≡◌, ◌≢◌, refl, true, false, List, Option-cases, inl, inr, Returns, Returns-bind, Returns-if,
}
use softgre.Maps.{MapOps, is_some}
use softgre.Payload.{PayloadPacket}
use softgre.Provision.{
  Host, Config, State, bump, mac_text, provision_get_tunnel_byip, provision_get_tunnel_by_mac,
}
use softgre.Provision.Packet.{is_ignored, knows, provision_packet}
use softgre.Provision.Owned.{Owned}
use softgre.Provision.Removal.{is_unit, deref-Returns}
use softgre.Provision.Learning.{Has, learned, dropped, Handled, try_provision-Handled}

module _ {T X S W : Type 0} ⦃tun : MapOps ℕ ℕ T⦄ ⦃idx : MapOps (List ℕ) ℕ X⦄
    ⦃set : MapOps (List ℕ) (Unit {0}) S⦄ ⦃host : Host W⦄ where
  knows-Has :
      (s : State T X S W) (remote : ℕ) (mac : List ℕ)
      → Owned s.tables
      → Returns
          (knows s (provision_get_tunnel_byip s remote) mac)
          (λ b. b ≡ true → Has s.tables remote mac)
  unfolding knows provision_get_tunnel_byip
  knows-Has s remote mac o = elim (Option-cases (tun.lookup s.tables.tunnels remote)) [
    | inl e ↦ rw e (false, refl, λ f. cc)
    | inr (p, e) ↦ rw e (
        Returns-bind (deref-Returns s p (o.alive remote p e)) (λ t h. (
          _,
          refl,
          λ f. record {
            pointer = p;
            tunnel = t;
            at = record { entry = e; object = h };
            member = is_unit (set.lookup t.macs mac) f;
          },
        )))
  ]

  -- From a state with the invariant, a packet is counted, and then one of these happens, with the
  -- invariant kept: the MAC is, or
  -- becomes, learned by the tunnel of the packet's remote; or the time to wait after a failure is not
  -- over and nothing is done; or the packet is dropped and counted; or a failure is counted and a
  -- time to wait is set. The function follows no dangling pointer.
  pub provision_packet-Handled :
      (cfg : Config) (s : State T X S W) (packet : PayloadPacket)
      → Owned s.tables
      → Returns
          (provision_packet cfg s packet)
          (Handled (record s { packets = bump s.packets }) packet.remote (mac_text packet.mac))
  unfolding provision_packet
  provision_packet-Handled cfg s packet o =
      let s1 = record s { packets = bump s.packets } in
      let mac = mac_text packet.mac in
      Returns-if (is_ignored cfg s.cleanup_pending packet)
        (λ _. (_, refl, record { owned = o; outcome = dropped refl }))
        (λ _. Returns-bind (knows-Has s1 packet.remote mac o) (λ known h.
          Returns-if known (λ e. (_, refl, record { owned = o; outcome = learned refl (h e) }))
            (λ _.
              Returns-if (is_some (provision_get_tunnel_by_mac s1 mac))
                (λ _. (_, refl, record { owned = o; outcome = dropped refl }))
                (λ _. try_provision-Handled cfg s1 packet.remote mac o))))

  indexed_absurd :
      (s : State T X S W) (ip : ℕ) (mac : List ℕ)
      → Owned s.tables
      → Has s.tables ip mac
      → is_some (provision_get_tunnel_by_mac s mac) ≢ false
  unfolding provision_get_tunnel_by_mac
  indexed_absurd s ip mac o h f =
      let e = o.indexed mac h.at h.member in let g : true ≡ false = rw e at f in cc

  -- If the invariant holds and a tunnel has learned the packet's MAC, of whatever remote, the
  -- packet is handled without a change of a tunnel, of a learned MAC, or of the world outside.
  pub provision_packet-learned :
      (cfg : Config) (s : State T X S W) (packet : PayloadPacket) (ip : ℕ)
      → Owned s.tables
      → Has s.tables ip (mac_text packet.mac)
      → Returns
          (provision_packet cfg s packet)
          (λ s'. (s'.tables ≡ s.tables) × (s'.world ≡ s.world))
  unfolding provision_packet
  provision_packet-learned cfg s packet ip o h =
      let s1 = record s { packets = bump s.packets } in
      let mac = mac_text packet.mac in
      Returns-if (is_ignored cfg s.cleanup_pending packet) (λ _. (_, refl, (refl, refl)))
        (λ _. Returns-bind (knows-Has s1 packet.remote mac o) (λ known k.
          Returns-if known (λ e. (_, refl, (refl, refl)))
            (λ _.
              Returns-if (is_some (provision_get_tunnel_by_mac s1 mac))
                (λ _. (_, refl, (refl, refl))) (λ f. absurd (indexed_absurd s1 ip mac o h f)))))
