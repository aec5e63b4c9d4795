-- ===== src/Clients/Sane.antt =====
-- The buffers of src/service.c.
use softgre.Shared.{
  ℕ, ◌+◌, ◌-◌, ◌≤◌, ◌<◌, ◌≡◌, refl, sym, ap, ◌∙◌, subst, Bool, true, false, not, ◌&&◌, ◌||◌, ◌++◌,
  Option, none, some, arith, ltb, leb, ◌==◌, if◌then◌else◌, length, length-append, length-take,
  take, min, Bool-cases, Option-cases, ◌⊎◌, inl, inr,
}
use softgre.Maps.{is_some}
use softgre.Compat.{Text, strchr}
use softgre.Compat.Split.{has_byte}
use softgre.Clients.{
  Client, Io, Events, Received, Sent, received, recv_again, recv_error, sent_bytes, send_again,
  send_error, closed, max_request, max_response, capped, request_too_large, write_client,
  write_step, close_empty, reply, take_input, read_client, read_step, serve,
}

-- A client without a response has room for a byte in its buffer of 256; with one, the response is
-- of at most a MiB, and no more of it is sent than there is.
abbrev pub WithinBuffers : Option Text → ℕ → ℕ → Type 0
WithinBuffers none used sent = (used < 255) × (sent ≡ 0)
WithinBuffers (some text) used sent =
    (used ≤ 255) × (length text ≤ max_response) × (sent ≤ length text)

pub record IsSane (c : Client) : Type 0 where
  pub buffers : WithinBuffers c.response (length c.input) c.sent
  -- A slot without a client has nothing left of the last one.
  pub blank : c.fd ≡ none → c ≡ closed

pub closed-IsSane : IsSane closed
unfolding closed
closed-IsSane = record { buffers = (omega arith, refl); blank = λ e. refl }

capped-short : (t : Text) → length (capped t) ≤ max_response
unfolding capped
capped-short t = elim (Bool-cases (ltb max_response (length t))) [
  | inl e ↦ rw e (omega arith)
  | inr e ↦ rw e (ground (arith, e))
]

-- What a step makes of an open client: still open, and within its buffers, or closed.
abbrev Stays : Option ℕ → Client → Type 0
Stays fd c = (c ≡ closed) ⊎ ((c.fd ≡ fd) × WithinBuffers c.response (length c.input) c.sent)

if_both :
    {A : Type 0} (P : A → Type 0) (c : Bool) (x y : A)
    → (c ≡ true → P x)
    → (c ≡ false → P y)
    → P (if c then x else y)
if_both P true x y p q = p refl
if_both P false x y p q = q refl

write_client-Stays :
    (c : Client) (text : Text) (s : Sent)
    → c.response ≡ some text
    → WithinBuffers (some text) (length c.input) c.sent
    → Stays c.fd (write_client c text s).0
unfolding write_client
write_client-Stays c text send_again e (u, l, h) =
    inr (refl, subst (λ o. WithinBuffers o (length c.input) c.sent) (sym e) (u, l, h))
write_client-Stays c text send_error e b = inl refl
write_client-Stays c text (sent_bytes k) e (u, l, h) =
    let n = min k (length text - c.sent) in
    let P = λ (x : Client × Bool). Stays c.fd x.0 in
    if_both P (n == 0) (closed, false) _ (λ z. inl refl)
      (λ z.
        if_both P (c.sent + n == length text) (closed, true) (record c { sent = c.sent + n }, true)
          (λ y. inl refl)
          (λ y. inr (
            refl,
            subst (λ o. WithinBuffers o (length c.input) (c.sent + n)) (sym e)
                (u, l, omega (arith, h)),
          )))

if_both_again :
    {A : Type 0} (P : A → Type 0) (c : Bool) (x y : A) → P x → P y → P (if c then x else y)
if_both_again P c x y p q = if_both P c x y (λ e. p) (λ e. q)

write_step-Stays :
    (c : Client) (o : Option Text) (ev : Events) (s : Sent)
    → c.response ≡ o
    → WithinBuffers o (length c.input) c.sent
    → Stays c.fd (write_step c o ev s).0
unfolding write_step
write_step-Stays c none ev s e b =
    inr (refl, subst (λ o. WithinBuffers o (length c.input) c.sent) (sym e) b)
write_step-Stays c (some text) ev s e b =
    if_both_again (λ (x : Client × Bool). Stays c.fd x.0) (ev.pollout || ev.pollhup)
      (write_client c text s) (c, true) (write_client-Stays c text s e b)
      (inr (refl, subst (λ o. WithinBuffers o (length c.input) c.sent) (sym e) b))

close_empty-Stays :
    (c : Client) (o : Option Text) {fd : Option ℕ} → Stays fd c → Stays fd (close_empty c o)
unfolding close_empty
close_empty-Stays c none s = s
close_empty-Stays c (some text) {fd} s =
    if_both_again (Stays fd) (length text == 0) closed c (inl refl) s

write_behind-Stays :
    (c : Client) (fd : Option ℕ) (ev : Events) (s : Sent)
    → Stays fd c
    → Stays fd (write_step c c.response ev s).0
unfolding closed write_step
write_behind-Stays c fd ev s (inl e) =
    subst (λ x. Stays fd (write_step x x.response ev s).0) (sym e) (inl refl)
write_behind-Stays c fd ev s (inr (e, b)) =
    subst (λ f. Stays f (write_step c c.response ev s).0) e
      (write_step-Stays c c.response ev s refl b)

module _ (service_command : Text → Text) where
  reply-short : (input : Text) → length (reply service_command input) ≤ max_response
  unfolding reply
  reply-short input = capped-short (elim (strchr input b'\n') [
    | none ↦ if length input == max_request - 1 then request_too_large else service_command input
    | some (line, rest) ↦ service_command line
  ])

  take_input-Stays :
      (c : Client) (input : Text) (ended : Bool)
      → length input ≤ 255
      → c.response ≡ none
      → c.sent ≡ 0
      → Stays c.fd (take_input service_command c input ended).0
  unfolding take_input
  take_input-Stays c input ended h e z =
      let P = λ (x : Client × Bool). Stays c.fd x.0 in
      if_both_again P (has_byte input 0) (closed, false) _ (inl refl)
        (if_both P (has_byte input b'\n' || ended || length input == max_request - 1)
          (record c { input = input; response = some (reply service_command input) }, true)
          (record c { input = input }, true)
          (λ a. inr (refl, (h, reply-short input, omega (arith, z))))
          (λ a. inr (
            refl,
            subst (λ o. WithinBuffers o (length input) c.sent) (sym e) (ground (arith, a, h), z),
          )))

  read_client-Stays :
      (c : Client) (r : Received)
      → c.response ≡ none
      → WithinBuffers none (length c.input) c.sent
      → Stays c.fd (read_client service_command c r).0
  unfolding read_client
  read_client-Stays c recv_again e b =
      inr (refl, subst (λ o. WithinBuffers o (length c.input) c.sent) (sym e) b)
  read_client-Stays c recv_error e b = inl refl
  read_client-Stays c (received bytes) e (u, z) =
      let got = take (max_request - 1 - length c.input) bytes in
      take_input-Stays c (c.input ++ got) (length got == 0)
        (omega (
          arith,
          length-append c.input got,
          length-take (max_request - 1 - length c.input) bytes,
          u,
        ))
        e z

  read_step-Stays :
      (c : Client) (ev : Events) (r : Received)
      → WithinBuffers c.response (length c.input) c.sent
      → Stays c.fd (read_step service_command c ev r).0
  unfolding read_step
  read_step-Stays c ev r b = elim (Option-cases c.response) [
    | inl e ↦
        if_both_again (λ (x : Client × Bool). Stays c.fd x.0)
          (not (is_some c.response) && (ev.pollin || ev.pollhup)) (read_client service_command c r)
          (c, true)
          (read_client-Stays c r e (subst (λ o. WithinBuffers o (length c.input) c.sent) e b))
          (inr (refl, b))
    | inr (text, e) ↦ rw e (inr (refl, subst (λ o. WithinBuffers o (length c.input) c.sent) e b))
  ]

  serve-Stays :
      (now : ℕ) (c : Client) (io : Io)
      → WithinBuffers c.response (length c.input) c.sent
      → Stays c.fd (serve service_command now c io)
  unfolding serve
  serve-Stays now c io b =
      let r = read_step service_command c io.events io.recv in
      let w = write_step r.0 r.0.response io.events io.send in
      let P = λ (x : Client). Stays c.fd x in
      let read = read_step-Stays c io.events io.recv b in
      let written : Stays c.fd w.0 = write_behind-Stays r.0 c.fd io.events io.send read in
      if_both_again P (leb c.deadline now || io.events.error) closed _ (inl refl) (
        if_both_again P (not r.1) r.0 _ read (
          if_both_again P (not w.1) w.0 (close_empty w.0 w.0.response) written
            (close_empty-Stays w.0 w.0.response written)))

  closed_served : (now : ℕ) (io : Io) → serve service_command now closed io ≡ closed
  unfolding serve closed
  closed_served now io = ground arith

  pub serve-IsSane :
      (now : ℕ) (c : Client) (io : Io) → IsSane c → IsSane (serve service_command now c io)
  serve-IsSane now c io s = from (serve-Stays now c io s.buffers)
    where
      from : Stays c.fd (serve service_command now c io) → IsSane (serve service_command now c io)
      from (inl e) = subst IsSane (sym e) closed-IsSane
      from (inr (e, b)) = record {
        buffers = b;
        blank = λ n.
            ap (λ x. serve service_command now x io) (s.blank (sym e ∙ n)) ∙ closed_served now io;
      }
