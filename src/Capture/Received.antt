-- ===== src/Capture/Received.antt =====
-- What a batch of captured frames does.
use softgre.Shared.{
  ℕ, zero, suc, ◌+◌, ◌≡◌, refl, ap, ◌∙◌, Bool, true, false, List, [], ◌∷◌, Option, none, some, Run,
  ok, ◌>>=◌, Returns, take,
}
use softgre.Maps.{MapOps}
use softgre.Payload.{PayloadPacket}
use softgre.Payload.Safe.{reference, payload_parse-reference}
use softgre.Provision.{Host, Config, State}
use softgre.Provision.Packet.{provision_packet}
use softgre.Provision.Owned.{Owned}
use softgre.Provision.Capture.{provision_packet-Handled}
use softgre.Provision.Runs.{Reachable, captured}
use softgre.Capture.{
  Recvfrom, frame, recvfrom_again, recvfrom_error, buffer_size, max_batch, handle_parsed,
  handle_frame, receive_loop, payload_receive,
}

-- The packet of a frame, if it is not outgoing and carries one.
abbrev pub packet_of : Bool → List ℕ → Option PayloadPacket
packet_of true bytes = none
packet_of false bytes = reference (take buffer_size bytes)

abbrev pub with_packet : Option PayloadPacket → List PayloadPacket → List PayloadPacket
with_packet none packets = packets
with_packet (some p) packets = p ∷ packets

-- The packets of the frames up to the first failure of `recvfrom`, of at most `left` frames.
unfoldable pub packets_of : (ℕ → Recvfrom) → ℕ → ℕ → List PayloadPacket
packets_of recvfrom zero count = []
packets_of recvfrom (suc left) count = elim (recvfrom count) [
  | recvfrom_again ↦ []
  | recvfrom_error ↦ []
  | frame outgoing bytes ↦
      with_packet (packet_of outgoing bytes) (packets_of recvfrom left (count + 1))
]

module _ {T X S W : Type 0} ⦃tun : MapOps ℕ ℕ T⦄ ⦃idx : MapOps (List ℕ) ℕ X⦄
    ⦃set : MapOps (List ℕ) (Unit {0}) S⦄ ⦃host : Host W⦄ where
  -- One `provision_packet` for each packet, in order.
  pub data Provisioned (cfg : Config)
      : List PayloadPacket → State T X S W → State T X S W → Type 0 where
    no_packet : {s : State T X S W} → Provisioned cfg [] s s
    then_packet :
        {p : PayloadPacket} {packets : List PayloadPacket} {s s' s'' : State T X S W}
        → provision_packet cfg s p ≡ ok s'
        → Provisioned cfg packets s' s''
        → Provisioned cfg (p ∷ packets) s s''

  pub record Batch (cfg : Config) (packets : List PayloadPacket) (s s' : State T X S W)
      : Type 0 where
    pub provisioned : Provisioned cfg packets s s'
    pub owned : Owned s'.tables
    pub reachable : Reachable cfg s → Reachable cfg s'

  empty-Batch : (cfg : Config) (s : State T X S W) → Owned s.tables → Batch cfg [] s s
  empty-Batch cfg s o = record { provisioned = no_packet; owned = o; reachable = λ r. r }

  -- A packet before the others.
  parsed-Batch :
      (cfg : Config) (s : State T X S W) (p : Option PayloadPacket) (packets : List PayloadPacket)
      (next : State T X S W → Run (State T X S W × Bool))
      → Owned s.tables
      → ((s' : State T X S W) → Owned s'.tables → Returns (next s') (λ r. Batch cfg packets s' r.0))
      → Returns (handle_parsed cfg s p >>= next) (λ r. Batch cfg (with_packet p packets) s r.0)
  unfolding handle_parsed
  parsed-Batch cfg s none packets next o rest = rest s o
  parsed-Batch cfg s (some p) packets next o rest =
      let (s', e, h) = provision_packet-Handled cfg s p o in
      let (r, f, b) = rest s' h.owned in
      (
        r,
        ap (λ c. c >>= next) e ∙ f,
        record {
          provisioned = then_packet e b.provisioned;
          owned = b.owned;
          reachable = λ before. b.reachable (captured p before e);
        },
      )

  frame-Batch :
      (cfg : Config) (s : State T X S W) (outgoing : Bool) (bytes : List ℕ)
      (packets : List PayloadPacket) (next : State T X S W → Run (State T X S W × Bool))
      → Owned s.tables
      → ((s' : State T X S W) → Owned s'.tables → Returns (next s') (λ r. Batch cfg packets s' r.0))
      → Returns
          (handle_frame cfg s outgoing bytes >>= next)
          (λ r. Batch cfg (with_packet (packet_of outgoing bytes) packets) s r.0)
  unfolding handle_frame
  frame-Batch cfg s true bytes packets next o rest = rest s o
  frame-Batch cfg s false bytes packets next o rest =
      rw (payload_parse-reference (take buffer_size bytes), ◌>>=◌)
        (parsed-Batch cfg s (reference (take buffer_size bytes)) packets next o rest)

  receive_loop-Batch :
      (cfg : Config) (recvfrom : ℕ → Recvfrom) (left count : ℕ) (s : State T X S W)
      → Owned s.tables
      → Returns
          (receive_loop cfg recvfrom left count s)
          (λ r. Batch cfg (packets_of recvfrom left count) s r.0)
  unfolding receive_loop packets_of
  receive_loop-Batch cfg recvfrom zero count s o = (_, refl, empty-Batch cfg s o)
  receive_loop-Batch cfg recvfrom (suc left) count s o =
      by_case (recvfrom count) (λ s' o'. receive_loop-Batch cfg recvfrom left (count + 1) s' o')
    where
      by_case :
          (r : Recvfrom)
          → ((s' : State T X S W)
              → Owned s'.tables
              → Returns
                  (receive_loop cfg recvfrom left (count + 1) s')
                  (λ x. Batch cfg (packets_of recvfrom left (count + 1)) s' x.0))
          → Returns
              (elim r [
                | recvfrom_again ↦ ok (s, true)
                | recvfrom_error ↦ ok (s, false)
                | frame outgoing bytes ↦
                    (handle_frame cfg s outgoing bytes >>= λ s'.
                    receive_loop cfg recvfrom left (count + 1) s')
              ])
              (λ x.
                Batch cfg
                  (elim r [
                    | recvfrom_again ↦ []
                    | recvfrom_error ↦ []
                    | frame outgoing bytes ↦
                        with_packet
                          (packet_of outgoing bytes)
                          (packets_of recvfrom left (count + 1))
                  ])
                  s
                  x.0)
      by_case recvfrom_again rest = (_, refl, empty-Batch cfg s o)
      by_case recvfrom_error rest = (_, refl, empty-Batch cfg s o)
      by_case (frame outgoing bytes) rest =
          frame-Batch cfg s outgoing bytes (packets_of recvfrom left (count + 1))
            (λ s'. receive_loop cfg recvfrom left (count + 1) s') o rest

  -- From a state with the invariant, `payload_receive` reads no byte outside a frame and follows no
  -- dangling pointer, and it returns: each frame up to the first failure of `recvfrom`, of at most 64,
  -- that is not outgoing and carries a packet has its packet handled by `provision_packet`, in order
  -- and no other; the invariant holds after it, and a reachable state stays one.
  pub payload_receive-Batch :
      (cfg : Config) (recvfrom : ℕ → Recvfrom) (s : State T X S W)
      → Owned s.tables
      → Returns
          (payload_receive cfg recvfrom s)
          (λ r. Batch cfg (packets_of recvfrom max_batch 0) s r.0)
  unfolding payload_receive
  payload_receive-Batch cfg recvfrom s o = receive_loop-Batch cfg recvfrom max_batch 0 s o
