-- ===== src/Tests/Fixtures.antt =====
-- A frame, and states of src/provision.c on association lists, with interface functions that always
-- succeed.
use softgre.Shared.{ℕ, ◌≡◌, ◌↔◌, refl, true, false, List, [], ◌∷◌, none, some, ◌==◌, ==_iff, arith}
use softgre.Keys.{hashmap_equal_str, equal_str_refl, eq_of_equal_str}
use softgre.Maps.{MapOps}
use softgre.Maps.Assoc.{assoc_map, first_value, keys_of}
use softgre.Payload.{Mac, PayloadPacket}
use softgre.Provision.Heap.{TunnelContext, Tables, link, learn}
use softgre.Provision.{Reply, HookReply, Host, Config, State, mac_text}
use softgre.Provision.Owned.{At, Owned, learn-Owned, learn-At}
use softgre.Provision.Linked.{link-Owned, linked_here}
use softgre.Provision.Learning.{Has}

abbrev pub client_frame : List ℕ
client_frame =
    1 ∷ 1 ∷ 1 ∷ 1 ∷ 1 ∷ 1 ∷ 1 ∷ 1 ∷ 1 ∷ 1 ∷ 1 ∷ 1 ∷ 8 ∷ 0 ∷ 69 ∷ 0 ∷ 0 ∷ 42 ∷ 0 ∷ 0 ∷ 0 ∷ 0 ∷ 64
    ∷ 47 ∷ 0 ∷ 0 ∷ 10 ∷ 0 ∷ 0 ∷ 2 ∷ 10 ∷ 0 ∷ 0 ∷ 1 ∷ 0 ∷ 0 ∷ 101 ∷ 88 ∷ 9 ∷ 9 ∷ 9 ∷ 9 ∷ 9 ∷ 9 ∷ 2
    ∷ 0 ∷ 0 ∷ 0 ∷ 0 ∷ 1 ∷ 129 ∷ 0 ∷ 0 ∷ 100 ∷ 8 ∷ 0 ∷ []

pub text_iff : (s t : List ℕ) → (hashmap_equal_str s t ≡ true) ↔ (s ≡ t)
text_iff s t = (eq_of_equal_str s t, λ e. rw e (equal_str_refl t))

abbrev pub Tunnels : Type 0
Tunnels = List (ℕ × ℕ)

abbrev pub Index : Type 0
Index = List (List ℕ × ℕ)

abbrev pub Macs : Type 0
Macs = List (List ℕ × Unit {0})

instance abbrev pub tunnels_ops : MapOps ℕ ℕ Tunnels
tunnels_ops = assoc_map ◌==◌ ==_iff

instance abbrev pub index_ops : MapOps (List ℕ) ℕ Index
index_ops = assoc_map hashmap_equal_str text_iff

instance abbrev pub macs_ops : MapOps (List ℕ) (Unit {0}) Macs
macs_ops = assoc_map hashmap_equal_str text_iff

-- The world is the clock.
abbrev pub fine : ℕ → Reply ℕ
fine w = record { success = true; errno_set = none; world = w }

abbrev pub fine_hooks : ℕ → HookReply ℕ
fine_hooks w = record { reply = fine w; hooks = 0 }

instance abbrev pub quiet_host : Host ℕ
quiet_host = record {
  has_name = λ w id. false;
  iface_gre_add = λ w id a b. fine w;
  iface_gre_del = λ w id. fine w;
  iface_bridge_attach = λ w id b v. fine w;
  iface_ebtables_add_tunnel = λ w id h. fine_hooks w;
  iface_ebtables_del_tunnel = λ w id h. fine_hooks w;
  iface_ebtables_allow = λ w id m. fine w;
  iface_ebtables_revoke = λ w id m. fine w;
  iface_ebtables_reset = λ w. fine w;
  monotonic_usec = λ w. w;
}

abbrev pub Daemon : Type 0
Daemon = State Tunnels Index Macs ℕ

abbrev pub idle : Daemon
idle = record {
  tables = record { tunnels = []; mac_index = []; heap = λ q. none; next = 0; slots = λ i. false };
  packets = 0;
  ignored = 0;
  failures = 0;
  retry_after = 0;
  cleanup_pending = false;
  errno = 0;
  world = 5;
}

abbrev pub config : Config
config = record {
  local = 0x0a000001;
  bridges = record { ifname = b'b' ∷ b'r' ∷ []; vlan_id = 100 } ∷ [];
  remote_allowed = λ ip. true;
}

abbrev pub client : Mac
client = record { m0 = 2; m1 = 0; m2 = 0; m3 = 0; m4 = 0; m5 = 1 }

abbrev pub from_client : PayloadPacket
from_client = record { remote = 0x0a000002; local = 0x0a000001; mac = client; vlan = 100 }

pub idle-Owned : Owned idle.tables
unfolding assoc_map first_value
idle-Owned = record {
  fresh = λ p le. refl;
  alive = λ ip p e. let z : none ≡ some p = e in cc;
  remote = λ a. let z = a.object in cc;
  slot = λ a. let z = a.object in cc;
  few = λ a. let z = a.object in cc;
  distinct = λ a b e. let z = a.object in cc;
  owner = λ mac p e. let z : none ≡ some p = e in cc;
  indexed = λ mac a h. let z = a.object in cc;
}

-- A state with the client's tunnel.
abbrev pub tunnel : TunnelContext Macs
tunnel = record { ip_remote = 0x0a000002; id = 0; ready = true; firewall_hooks = 0; macs = [] }

abbrev pub linked : Tables Tunnels Index Macs
linked = link idle.tables tunnel

pub linked-Owned : Owned linked
unfolding assoc_map first_value
linked-Owned = link-Owned idle.tables idle-Owned tunnel refl refl (omega arith) refl

pub linked-At : At linked 0x0a000002 0 tunnel
unfolding assoc_map first_value
linked-At = linked_here idle.tables idle-Owned tunnel refl refl (omega arith) refl

abbrev pub busy : Daemon
busy = record idle { tables = learn linked 0 tunnel (mac_text client) }

pub busy-Owned : Owned busy.tables
unfolding assoc_map first_value keys_of link
busy-Owned = learn-Owned linked linked-Owned linked-At (mac_text client) refl (omega arith)

pub busy-Has : Has busy.tables 0x0a000002 (mac_text client)
unfolding assoc_map first_value mac_text learn hashmap_equal_str
busy-Has = record {
  pointer = 0;
  tunnel = record tunnel { macs = macs_ops.insert [] (mac_text client) tt };
  at = learn-At linked linked-Owned linked-At (mac_text client);
  member = refl;
}
