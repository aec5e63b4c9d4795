-- ===== src/Capture.antt =====
-- `payload_receive` of src/payload.c: the frames of the capture socket on their way to
-- `provision_packet`. What `recvfrom` returns round by round is a function of the round.
pub mod Received
use softgre.Shared.{
  ℕ, zero, suc, ◌+◌, Bool, true, false, List, Option, none, some, if◌then◌else◌, Run, ok, fault,
  ◌>>=◌, take,
}
use softgre.Maps.{MapOps}
use softgre.Payload.{PayloadPacket, payload_parse}
use softgre.Provision.{Host, Config, State}
use softgre.Provision.Packet.{provision_packet}

-- A frame, with whether its packet type is PACKET_OUTGOING; EAGAIN or EINTR; or another error.
pub data Recvfrom : Type 0 where
  frame : Bool → List ℕ → Recvfrom
  recvfrom_again recvfrom_error : Recvfrom

abbrev pub buffer_size : ℕ
buffer_size = 65536

abbrev pub max_batch : ℕ
max_batch = 64

module _ {T X S W : Type 0} ⦃tun : MapOps ℕ ℕ T⦄ ⦃idx : MapOps (List ℕ) ℕ X⦄
    ⦃set : MapOps (List ℕ) (Unit {0}) S⦄ ⦃host : Host W⦄ where
  -- `if (payload_parse(...)) provision_packet(&packet);`
  unfoldable pub handle_parsed : Config → State T X S W → Option PayloadPacket → Run (State T X S W)
  unfolding provision_packet
  handle_parsed cfg s none = ok s
  handle_parsed cfg s (some packet) = provision_packet cfg s packet

  -- `recvfrom` stores no more bytes than the buffer has.
  unfoldable pub handle_frame : Config → State T X S W → Bool → List ℕ → Run (State T X S W)
  unfolding payload_parse handle_parsed
  handle_frame cfg s outgoing bytes =
      if outgoing
      then ok s
      else do parsed ← payload_parse (take buffer_size bytes); handle_parsed cfg s parsed

  -- The loop, by the rounds left, from round `count` on. The result 0 is `true`.
  unfoldable pub receive_loop :
      Config → (ℕ → Recvfrom) → ℕ → ℕ → State T X S W → Run (State T X S W × Bool)
  unfolding handle_frame
  receive_loop cfg recvfrom zero count s = ok (s, true)
  receive_loop cfg recvfrom (suc left) count s = elim (recvfrom count) [
    | recvfrom_again ↦ ok (s, true)
    | recvfrom_error ↦ ok (s, false)
    | frame outgoing bytes ↦
        (handle_frame cfg s outgoing bytes >>= λ s'. receive_loop cfg recvfrom left (count + 1) s')
  ]

  unfoldable pub payload_receive :
      Config → (ℕ → Recvfrom) → State T X S W → Run (State T X S W × Bool)
  unfolding receive_loop
  payload_receive cfg recvfrom s = receive_loop cfg recvfrom max_batch 0 s
