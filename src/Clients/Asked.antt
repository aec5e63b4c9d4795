-- ===== src/Clients/Asked.antt =====
-- The commands that src/service.c runs in a round of `service_dispatch`.
use softgre.Shared.{
  ℕ, ◌-◌, ◌≡◌, refl, ap, ◌∙◌, Bool, true, false, not, ◌&&◌, ◌||◌, List, [], ◌∷◌, ◌++◌, Option, none,
  some, leb, ◌==◌, if◌then◌else◌, length, take, set, get_or,
}
use softgre.Maps.{is_some}
use softgre.Compat.{Text, strchr}
use softgre.Compat.Split.{has_byte}
use softgre.Clients.{
  Client, Received, received, recv_again, recv_error, Io, Service, closed, max_request, capped,
  reply, request_too_large, write_step, close_empty, accept_all, take_input, read_client, read_step,
  serve, serve_all, dispatch_clients, service_dispatch, service_pollfds,
}

-- The command of a complete input; none if the input is too large.
unfoldable pub command_of : Text → List Text
unfolding strchr
command_of input = elim (strchr input b'\n') [
  | none ↦ if length input == max_request - 1 then [] else input ∷ []
  | some (line, rest) ↦ line ∷ []
]

unfoldable pub asked_input : Text → Bool → List Text
unfolding command_of has_byte
asked_input input ended =
    if has_byte input 0
    then []
    else if has_byte input b'\n' || ended || length input == max_request - 1
    then command_of input
    else []

unfoldable pub asked_read : Client → Received → List Text
unfolding asked_input
asked_read c recv_again = []
asked_read c recv_error = []
asked_read c (received bytes) =
    let got = take (max_request - 1 - length c.input) bytes in
    asked_input (c.input ++ got) (length got == 0)

-- Those of a client in its round.
unfoldable pub asked : ℕ → Client → Io → List Text
unfolding asked_read
asked now c io =
    if leb c.deadline now || io.events.error
    then []
    else if not (is_some c.response) && (io.events.pollin || io.events.pollhup)
    then asked_read c io.recv
    else []

module _ (service_command : Text → Text) where
  -- Those of the polled slots.
  unfoldable pub asked_all : ℕ → List ℕ → List Client → (ℕ → Io) → List Text
  unfolding asked serve get_or set closed
  asked_all now [] clients io = []
  asked_all now (slot ∷ slots) clients io =
      let c = get_or clients slot closed in
      asked now c (io slot)
      ++ asked_all now slots (set clients slot (serve service_command now c (io slot))) io

  unfoldable pub asked_polled : ℕ → List Client → Option (List ℕ) → (ℕ → Io) → List Text
  unfolding asked_all
  asked_polled now clients none io = []
  asked_polled now clients (some slots) io = asked_all now slots clients io

  unfoldable pub asked_commands : ℕ → Service → (ℕ → Io) → List Text
  unfolding asked_polled service_pollfds
  asked_commands now sv io = asked_polled now sv.clients (service_pollfds sv) io

-- Two ways to answer that agree on a list of commands.
abbrev pub Agree : (f g : Text → Text) → List Text → Type 0
Agree f g [] = Unit
Agree f g (command ∷ commands) = (f command ≡ g command) × Agree f g commands

Agree-append :
    (f g : Text → Text) (a b : List Text) → Agree f g (a ++ b) → Agree f g a × Agree f g b
Agree-append f g [] b h = (tt, h)
Agree-append f g (x ∷ a) b (e, h) = let (p, q) = Agree-append f g a b h in ((e, p), q)

module _ (f g : Text → Text) where
  -- Two conditionals on one test that agree in each branch.
  if_asked :
      {R : Type 0} (b : Bool) (asked_then asked_else : List Text) {x x' y y' : R}
      → (Agree f g asked_then → x ≡ x')
      → (Agree f g asked_else → y ≡ y')
      → Agree f g (if b then asked_then else asked_else)
      → (if b then x else y) ≡ (if b then x' else y')
  if_asked true a b p q h = p h
  if_asked false a b p q h = q h

  reply-Agree : (input : Text) → Agree f g (command_of input) → reply f input ≡ reply g input
  unfolding reply command_of
  reply-Agree input h = ap capped (by_case (strchr input b'\n') h)
    where
      by_case :
          (o : Option (Text × Text))
          → Agree f g (elim o [
            | none ↦ if length input == max_request - 1 then [] else input ∷ []
            | some (line, rest) ↦ line ∷ []
          ])
          → (elim o [
            | none ↦ if length input == max_request - 1 then request_too_large else f input
            | some (line, rest) ↦ f line
          ])
            ≡ (elim o [
              | none ↦ if length input == max_request - 1 then request_too_large else g input
              | some (line, rest) ↦ g line
            ])
      by_case none h =
          if_asked (length input == max_request - 1) [] (input ∷ []) (λ _. refl) (λ k. k.0) h
      by_case (some (line, rest)) h = h.0

  take_input-Agree :
      (c : Client) (input : Text) (ended : Bool)
      → Agree f g (asked_input input ended)
      → take_input f c input ended ≡ take_input g c input ended
  unfolding take_input asked_input
  take_input-Agree c input ended h =
      if_asked (has_byte input 0) []
        (if has_byte input b'\n' || ended || length input == max_request - 1
          then command_of input
          else [])
        (λ _. refl)
        (if_asked (has_byte input b'\n' || ended || length input == max_request - 1)
          (command_of input) []
          (λ k.
            ap (λ t. (record c { input = input; response = some t }, true)) (reply-Agree input k))
          (λ _. refl))
        h

  read_client-Agree :
      (c : Client) (recv : Received)
      → Agree f g (asked_read c recv)
      → read_client f c recv ≡ read_client g c recv
  unfolding read_client asked_read
  read_client-Agree c recv_again h = refl
  read_client-Agree c recv_error h = refl
  read_client-Agree c (received bytes) h =
      let got = take (max_request - 1 - length c.input) bytes in
      take_input-Agree c (c.input ++ got) (length got == 0) h

  serve-Agree :
      (now : ℕ) (c : Client) (io : Io)
      → Agree f g (asked now c io)
      → serve f now c io ≡ serve g now c io
  unfolding serve asked read_step
  serve-Agree now c io h =
      let polled = not (is_some c.response) && (io.events.pollin || io.events.pollhup) in
      let after_read = λ (r : Client × Bool).
        let w = write_step r.0 r.0.response io.events io.send in
        if not r.1 then r.0 else if not w.1 then w.0 else close_empty w.0 w.0.response in
      if_asked (leb c.deadline now || io.events.error) []
        (if polled then asked_read c io.recv else []) (λ _. refl)
        (λ k.
          ap after_read
            (if_asked polled (asked_read c io.recv) [] (read_client-Agree c io.recv) (λ _. refl) k))
        h

  serve_all-Agree :
      (now : ℕ) (slots : List ℕ) (clients : List Client) (io : ℕ → Io)
      → Agree f g (asked_all f now slots clients io)
      → serve_all f now slots clients io ≡ serve_all g now slots clients io
  unfolding serve_all asked_all
  serve_all-Agree now [] clients io h = refl
  serve_all-Agree now (slot ∷ slots) clients io h =
      let c = get_or clients slot closed in
      let served = set clients slot (serve f now c (io slot)) in
      let (here, later) =
        Agree-append f g (asked now c (io slot)) (asked_all f now slots served io) h in
      serve_all-Agree now slots served io later
      ∙ ap (λ x. serve_all g now slots (set clients slot x) io) (serve-Agree now c (io slot) here)

  -- If two ways to answer agree on the commands that are run in a round, `service_dispatch` does the
  -- same with both.
  pub service_dispatch-Agree :
      (now : ℕ) (sv : Service) (io : ℕ → Io) (pollin : Bool) (fds : List ℕ)
      → Agree f g (asked_commands f now sv io)
      → service_dispatch f now sv io pollin fds ≡ service_dispatch g now sv io pollin fds
  unfolding service_dispatch dispatch_clients asked_commands asked_polled
  service_dispatch-Agree now sv io pollin fds h =
      ap (λ cs. record sv { clients = cs }) (by_case (service_pollfds sv) h)
    where
      by_case :
          (polled : Option (List ℕ))
          → Agree f g (asked_polled f now sv.clients polled io)
          → dispatch_clients f now sv.limit sv.clients polled io pollin fds
            ≡ dispatch_clients g now sv.limit sv.clients polled io pollin fds
      by_case none h = refl
      by_case (some slots) h =
          ap (λ cs. if pollin then accept_all now sv.limit (take 16 fds) cs else cs)
            (serve_all-Agree now slots sv.clients io h)
