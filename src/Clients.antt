-- ===== src/Clients.antt =====
-- The clients of the status service: src/service.c, with `service_command` as a parameter. What the
-- system calls return is an argument.
pub mod Sane
pub mod Rounds
pub mod Runs
pub mod Asked
use softgre.Shared.{
  ℕ, zero, suc, ◌+◌, ◌-◌, ◌*◌, Bool, true, false, not, ◌&&◌, ◌||◌, List, [], ◌∷◌, ◌++◌, Option,
  none, some, ltb, leb, ◌==◌, if◌then◌else◌, length, take, drop, min, set, get_or, replicate,
}
use softgre.Maps.{is_some}
use softgre.Compat.{Text, codes, strchr}
use softgre.Compat.Split.{has_byte}
use softgre.Provision.{usec_per_sec}

abbrev pub max_clients : ℕ
max_clients = 128

abbrev pub max_request : ℕ
max_request = 256

abbrev pub max_response : ℕ
max_response = 1024 * 1024

-- `struct client`. The descriptor -1 is `none`; `input` holds the `used` bytes of the buffer.
pub record Client : Type 0 where
  pub fd : Option ℕ
  pub input : Text
  pub sent : ℕ
  pub response : Option Text
  pub deadline : ℕ

-- What `close_client` leaves.
unfoldable pub closed : Client
closed = record { fd = none; input = []; sent = 0; response = none; deadline = 0 }

-- `revents`; `error` is POLLERR or POLLNVAL.
pub record Events : Type 0 where
  pub pollin : Bool
  pub pollout : Bool
  pub pollhup : Bool
  pub error : Bool

-- What `recv` returns: bytes (none at the end of the stream), EAGAIN or EINTR, or another error.
pub data Received : Type 0 where
  received : Text → Received
  recv_again recv_error : Received

-- What `send` returns.
pub data Sent : Type 0 where
  sent_bytes : ℕ → Sent
  send_again send_error : Sent

-- What one client meets in a round.
pub record Io : Type 0 where
  pub events : Events
  pub recv : Received
  pub send : Sent

abbrev pub request_too_large : Text
request_too_large = codes "RESULT: INVALID\nBODY: Request too large\n"

abbrev pub response_too_large : Text
response_too_large = codes "RESULT: INVALID\nBODY: Response too large\n"

unfoldable pub capped : Text → Text
capped response = if ltb max_response (length response) then response_too_large else response

-- `send` sends no more than it is given; the result says whether the round goes on for this client.
unfoldable pub write_client : Client → Text → Sent → Client × Bool
unfolding closed
write_client c text send_again = (c, false)
write_client c text send_error = (closed, false)
write_client c text (sent_bytes k) =
    let n = min k (length text - c.sent) in
    if n == 0
    then (closed, false)
    else if c.sent + n == length text
    then (closed, true)
    else (record c { sent = c.sent + n }, true)

unfoldable pub write_step : Client → Option Text → Events → Sent → Client × Bool
unfolding write_client
write_step c none ev send = (c, true)
write_step c (some text) ev send =
    let w = write_client c text send in if ev.pollout || ev.pollhup then w else (c, true)

-- The last test of a round.
unfoldable pub close_empty : Client → Option Text → Client
unfolding closed
close_empty c none = c
close_empty c (some text) = if length text == 0 then closed else c

module _ (service_command : Text → Text) where
  unfoldable pub reply : Text → Text
  unfolding strchr capped
  reply input = capped (elim (strchr input b'\n') [
    | none ↦ if length input == max_request - 1 then request_too_large else service_command input
    | some (line, rest) ↦ service_command line
  ])

  -- The input with the bytes of `recv`. The NUL that ends the line is not written: with a response the
  -- input is not read again.
  unfoldable pub take_input : Client → Text → Bool → Client × Bool
  unfolding closed reply
  take_input c input ended =
      if has_byte input 0
      then (closed, false)
      else if has_byte input b'\n' || ended || length input == max_request - 1
      then (record c { input = input; response = some (reply input) }, true)
      else (record c { input = input }, true)

  -- `recv` stores no more bytes than there is room for.
  unfoldable pub read_client : Client → Received → Client × Bool
  unfolding take_input closed
  read_client c recv_again = (c, false)
  read_client c recv_error = (closed, false)
  read_client c (received bytes) =
      let got = take (max_request - 1 - length c.input) bytes in
      take_input c (c.input ++ got) (length got == 0)

  unfoldable pub read_step : Client → Events → Received → Client × Bool
  unfolding read_client
  read_step c ev recv =
      let r = read_client c recv in
      if not (is_some c.response) && (ev.pollin || ev.pollhup) then r else (c, true)

  -- A round of the loop of `service_dispatch`.
  unfoldable pub serve : ℕ → Client → Io → Client
  unfolding closed read_step write_step close_empty
  serve now c io =
      let r = read_step c io.events io.recv in
      let w = write_step r.0 r.0.response io.events io.send in
      if leb c.deadline now || io.events.error
      then closed
      else if not r.1
      then r.0
      else if not w.1
      then w.0
      else close_empty w.0 w.0.response

  -- The loop over the polled slots.
  unfoldable pub serve_all : ℕ → List ℕ → List Client → (ℕ → Io) → List Client
  unfolding serve get_or set closed
  serve_all now [] clients io = clients
  serve_all now (slot ∷ slots) clients io =
      serve_all now slots (set clients slot (serve now (get_or clients slot closed) (io slot))) io

-- The loop of `service_pollfds`, which fills `poll_slots`: the slots from `i` on, below `limit`, that have a client.
unfoldable pub poll_slots : ℕ → ℕ → List Client → List ℕ
poll_slots i limit [] = []
poll_slots i limit (c ∷ clients) =
    let rest = poll_slots (i + 1) limit clients in
    if ltb i limit then (if is_some c.fd then i ∷ rest else rest) else []

-- The first slot below `limit` without a client takes the connection; without one it is closed.
unfoldable pub place_client : ℕ → ℕ → ℕ → List Client → List Client
place_client now limit fd [] = []
place_client now zero fd clients = clients
place_client now (suc limit) fd (c ∷ clients) =
    let rest = place_client now limit fd clients in
    if is_some c.fd
    then c ∷ rest
    else record c { fd = some fd; deadline = now + 5 * usec_per_sec } ∷ clients

-- The connections that `accept4` gives, at most 16 in a round.
unfoldable pub accept_all : ℕ → ℕ → List ℕ → List Client → List Client
unfolding place_client
accept_all now limit [] clients = clients
accept_all now limit (fd ∷ fds) clients =
    accept_all now limit fds (place_client now limit fd clients)

-- The static variables; `listener` says whether the listener is open.
pub record Service : Type 0 where
  pub listener : Bool
  pub limit : ℕ
  pub clients : List Client

-- The polled slots, behind the listener; `none` is the count 0. Which events are asked for is left out:
-- a round may see any.
unfoldable pub service_pollfds : Service → Option (List ℕ)
unfolding poll_slots
service_pollfds sv = if sv.listener then some (poll_slots 0 sv.limit sv.clients) else none

-- The clients behind a round, with `pollin` of the listener and the connections at it.
module _ (service_command : Text → Text) where
  unfoldable pub dispatch_clients :
      ℕ → ℕ → List Client → Option (List ℕ) → (ℕ → Io) → Bool → List ℕ → List Client
  unfolding serve_all accept_all
  dispatch_clients now limit clients none io pollin fds = clients
  dispatch_clients now limit clients (some slots) io pollin fds =
      let served = serve_all service_command now slots clients io in
      if pollin then accept_all now limit (take 16 fds) served else served

  -- `service_pollfds` and `service_dispatch`, as the main loop calls them.
  unfoldable pub service_dispatch : ℕ → Service → (ℕ → Io) → Bool → List ℕ → Service
  unfolding dispatch_clients service_pollfds
  service_dispatch now sv io pollin fds = record sv {
    clients = dispatch_clients now sv.limit sv.clients (service_pollfds sv) io pollin fds;
  }

unfoldable pub close_all : ℕ → List Client → List Client
unfolding closed
close_all limit [] = []
close_all zero clients = clients
close_all (suc limit) (c ∷ clients) = closed ∷ close_all limit clients

unfoldable pub service_end : Service → Service
unfolding close_all
service_end sv = record sv {
  listener = false;
  clients = if sv.listener then close_all sv.limit sv.clients else sv.clients;
}

-- The clients of `service_init`.
unfoldable pub initial_clients : List Client
unfolding replicate closed
initial_clients = replicate max_clients closed
