-- ===== src/Provision/Heap.antt =====
-- The shared objects of src/provision.c: tunnel contexts behind pointers, the map from remotes to
-- them, the map from MACs to them, and the slot array; and the writes that the code makes to them.
use softgre.Shared.{ℕ, ◌+◌, Bool, true, false, List, Option, none, some, ◌==◌, if◌then◌else◌}
use softgre.Maps.{MapOps}

abbrev pub provision_max_clients : ℕ
provision_max_clients = 1024

abbrev pub max_slots : ℕ
max_slots = 4096

-- `struct tunnel_context`; the interface name `ifgre` is the configured prefix and `id`.
pub record TunnelContext (S : Type 0) : Type 0 where
  pub ip_remote : ℕ
  pub id : ℕ
  pub ready : Bool
  pub firewall_hooks : ℕ
  pub macs : S

-- The heap of tunnel contexts by address, with the next address to allocate; a map's value is such
-- an address.
pub record Tables (T X S : Type 0) : Type 0 where
  pub tunnels : T
  pub mac_index : X
  pub heap : ℕ → Option (TunnelContext S)
  pub next : ℕ
  pub slots : ℕ → Bool

module _ {T X S : Type 0} ⦃tun : MapOps ℕ ℕ T⦄ ⦃idx : MapOps (List ℕ) ℕ X⦄
    ⦃set : MapOps (List ℕ) (Unit {0}) S⦄ where
  -- A write through a pointer, and `free` as the write of `none`.
  unfoldable pub store : Tables T X S → ℕ → Option (TunnelContext S) → Tables T X S
  store tb p t = record tb { heap = λ q. if p == q then t else tb.heap q }

  -- `hashmap_insert(tun->macs, mac, NULL)` and `hashmap_insert(mac_index, mac, tun)`.
  unfoldable pub learn : Tables T X S → ℕ → TunnelContext S → List ℕ → Tables T X S
  unfolding store
  learn tb p t mac =
      let tb' = store tb p (some (record t { macs = set.insert t.macs mac tt })) in
      record tb' { mac_index = idx.insert tb.mac_index mac p }

  -- `hashmap_remove(mac_index, mac)` and the removal of the visited entry of `tun->macs`.
  unfoldable pub forget : Tables T X S → ℕ → TunnelContext S → List ℕ → Tables T X S
  unfolding store
  forget tb p t mac =
      let tb' = store tb p (some (record t { macs = set.remove t.macs mac })) in
      record tb' { mac_index = idx.remove tb.mac_index mac }

  -- A new context at a fresh address, its slot, and its entry in `tunnels`.
  unfoldable pub link : Tables T X S → TunnelContext S → Tables T X S
  link tb t = record {
    tunnels = tun.insert tb.tunnels t.ip_remote tb.next;
    mac_index = tb.mac_index;
    heap = λ q. if tb.next == q then some t else tb.heap q;
    next = tb.next + 1;
    slots = λ i. if t.id == i then true else tb.slots i;
  }

  -- The slot is given back; removing the entry of `tunnels` frees the context.
  unfoldable pub unlink : Tables T X S → ℕ → TunnelContext S → ℕ → Tables T X S
  unlink tb p t ip = record {
    tunnels = tun.remove tb.tunnels ip;
    mac_index = tb.mac_index;
    heap = λ q. if p == q then none else tb.heap q;
    next = tb.next;
    slots = λ i. if t.id == i then false else tb.slots i;
  }
