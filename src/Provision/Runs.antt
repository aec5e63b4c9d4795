-- ===== src/Provision/Runs.antt =====
-- src/provision.c: the states that the daemon's calls lead to.
use softgre.Shared.{ℕ, ◌≡◌, refl, sym, ◌∙◌, subst, Bool, false, List, none, ok}
use softgre.Maps.{MapOps}
use softgre.Payload.{PayloadPacket}
use softgre.Provision.Heap.{Tables}
use softgre.Provision.{Host, Config, State, provision_del}
use softgre.Provision.Packet.{provision_packet}
use softgre.Provision.Cleanup.{provision_delall}
use softgre.Provision.Owned.{Owned, one_owner}
use softgre.Provision.Removal.{provision_del-Deleted}
use softgre.Provision.Learning.{Has}
use softgre.Provision.Capture.{provision_packet-Handled}
use softgre.Provision.Emptied.{provision_delall-Cleaned}

ok_injective : {A : Type 0} {x y : A} → ok x ≡ ok y → x ≡ y
ok_injective e = cc

module _ {T X S : Type 0} ⦃tun : MapOps ℕ ℕ T⦄ ⦃idx : MapOps (List ℕ) ℕ X⦄
    ⦃set : MapOps (List ℕ) (Unit {0}) S⦄ where
  -- The static variables when the daemon starts, with the maps of `provision_init`.
  unfoldable pub provision_init : Tables T X S
  provision_init = record {
    tunnels = tun.new;
    mac_index = idx.new;
    heap = λ q. none;
    next = 0;
    slots = λ i. false;
  }

  pub provision_init-Owned : Owned provision_init
  unfolding provision_init
  provision_init-Owned = record {
    fresh = λ q le. refl;
    alive = λ ip p e. let z = tun.lookup-new ip in cc;
    remote = λ a. let f = a.object in cc;
    slot = λ a. let f = a.object in cc;
    few = λ a. let f = a.object in cc;
    distinct = λ a b e. let f = a.object in cc;
    owner = λ mac p e. let z = idx.lookup-new mac in cc;
    indexed = λ mac a h. let f = a.object in cc;
  }

module _ {T X S W : Type 0} ⦃tun : MapOps ℕ ℕ T⦄ ⦃idx : MapOps (List ℕ) ℕ X⦄
    ⦃set : MapOps (List ℕ) (Unit {0}) S⦄ ⦃host : Host W⦄ where
  -- Captured packets, full cleanups and removals of one tunnel, in any order, while the world outside
  -- changes between them.
  pub data Reachable (cfg : Config) : State T X S W → Type 0 where
    started :
        (w : W)
        → Reachable cfg (record {
          tables = provision_init;
          packets = 0;
          ignored = 0;
          failures = 0;
          retry_after = 0;
          cleanup_pending = false;
          errno = 0;
          world = w;
        })
    elapsed : {s : State T X S W} (w : W) → Reachable cfg s → Reachable cfg (record s { world = w })
    captured :
        {s s' : State T X S W} (packet : PayloadPacket)
        → Reachable cfg s
        → provision_packet cfg s packet ≡ ok s'
        → Reachable cfg s'
    cleaned :
        {s s' : State T X S W} → Reachable cfg s → provision_delall s ≡ ok s' → Reachable cfg s'
    deleted :
        {s s' : State T X S W} {b : Bool} (remote : ℕ)
        → Reachable cfg s
        → provision_del s remote ≡ ok (s', b)
        → Reachable cfg s'

  -- After any sequence of captured packets, full cleanups and removals from the start, whatever the
  -- kernel and the firewall answer, the invariant holds: no entry of a table dangles, each tunnel
  -- has a slot of its own below `max_slots` and at most `provision_max_clients` MACs, and `mac_index`
  -- and the tunnels' sets of MACs agree, so that no MAC belongs to two tunnels.
  pub Reachable-Owned : {cfg : Config} {s : State T X S W} → Reachable cfg s → Owned s.tables
  Reachable-Owned (started w) = provision_init-Owned
  Reachable-Owned (elapsed w r) = Reachable-Owned r
  Reachable-Owned {cfg} (captured {s} packet r e) =
      let (x, f, h) = provision_packet-Handled cfg s packet (Reachable-Owned r) in
      let q = ok_injective (sym f ∙ e) in rw (← q) h.owned
  Reachable-Owned (cleaned {s} r e) =
      let (x, f, h) = provision_delall-Cleaned s (Reachable-Owned r) in
      let q = ok_injective (sym f ∙ e) in rw (← q) h.owned
  Reachable-Owned (deleted {s} remote r e) =
      let (x, f, h) = provision_del-Deleted s remote (Reachable-Owned r) in
      let q = ok_injective (sym f ∙ e) in subst (λ y. Owned y.0.tables) q h.owned

  -- In a reachable state, two tunnels that have learned one MAC are for one remote.
  pub Reachable-one_owner :
      {cfg : Config} {s : State T X S W} {ip ip' : ℕ} (mac : List ℕ)
      → Reachable cfg s
      → Has s.tables ip mac
      → Has s.tables ip' mac
      → ip ≡ ip'
  Reachable-one_owner mac r a b = one_owner mac (Reachable-Owned r) a.at b.at a.member b.member
