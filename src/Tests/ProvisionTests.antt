-- ===== src/Tests/ProvisionTests.antt =====
-- src/provision.c on small states.
use softgre.Shared.{ℕ, ◌≡◌, Returns}
use softgre.Maps.Assoc.{assoc_map}
use softgre.Provision.{mac_text, provision_add, provision_del, provision_tunnel_allow_mac}
use softgre.Provision.Packet.{provision_packet}
use softgre.Provision.Cleanup.{provision_delall}
use softgre.Provision.Runs.{provision_init, started, captured, Reachable-Owned}
use softgre.Provision.Emptied.{Cleaned, provision_delall-Cleaned}
use softgre.Provision.Owned.{Owned, one_owner}
use softgre.Provision.Removal.{Deleted, provision_del-Deleted}
use softgre.Provision.Creation.{Added, provision_add-Added}
use softgre.Provision.Learning.{Allowed, provision_tunnel_allow_mac-Allowed, Handled}
use softgre.Provision.Capture.{provision_packet-Handled, provision_packet-learned}
use softgre.Tests.Fixtures.{
  tunnels_ops, index_ops, macs_ops, quiet_host, idle, config, client, from_client, idle-Owned,
  tunnel, linked, linked-Owned, linked-At, busy, busy-Owned, busy-Has,
}

provision_packet-Handled_example :
    Returns
      (provision_packet config idle from_client)
      (Handled (record idle { packets = 1 }) 0x0a000002 (mac_text client))
provision_packet-Handled_example = provision_packet-Handled config idle from_client idle-Owned

provision_packet-learned_example :
    Returns
      (provision_packet config busy from_client)
      (λ s'. (s'.tables ≡ busy.tables) × (s'.world ≡ busy.world))
provision_packet-learned_example =
    provision_packet-learned config busy from_client 0x0a000002 busy-Owned busy-Has

provision_add-Added_example : Returns (provision_add config idle 0x0a000002) (Added idle 0x0a000002)
provision_add-Added_example = provision_add-Added config idle 0x0a000002 idle-Owned

provision_del-Deleted_example : Returns (provision_del busy 0x0a000002) (Deleted busy 0x0a000002)
provision_del-Deleted_example = provision_del-Deleted busy 0x0a000002 busy-Owned

provision_tunnel_allow_mac-Allowed_example :
    Returns
      (provision_tunnel_allow_mac (record idle { tables = linked }) 0 (mac_text client))
      (Allowed (record idle { tables = linked }) 0x0a000002 (mac_text client))
provision_tunnel_allow_mac-Allowed_example =
    provision_tunnel_allow_mac-Allowed (record idle { tables = linked }) 0x0a000002 0
      (mac_text client) tunnel linked-Owned linked-At

abbrev access_point : ℕ
access_point = 0x0a000002

one_owner_example : access_point ≡ access_point
one_owner_example =
    one_owner (mac_text client) busy-Owned busy-Has.at busy-Has.at busy-Has.member busy-Has.member

provision_delall-Cleaned_example : Returns (provision_delall busy) (Cleaned busy)
provision_delall-Cleaned_example = provision_delall-Cleaned busy busy-Owned

abbrev first_packet :
    Returns
      (provision_packet config idle from_client)
      (Handled (record idle { packets = 1 }) 0x0a000002 (mac_text client))
first_packet = provision_packet-Handled config idle from_client idle-Owned

Reachable-Owned_example : Owned first_packet.0.tables
unfolding provision_init assoc_map
Reachable-Owned_example = Reachable-Owned (captured from_client (started 5) first_packet.1)
