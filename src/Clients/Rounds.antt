-- ===== src/Clients/Rounds.antt =====
-- The rounds of `service_dispatch` of src/service.c over all slots.
use softgre.Shared.{
  ℕ, zero, suc, ◌+◌, ◌<◌, ◌≡◌, refl, sym, ap, ◌∙◌, subst, true, List, [], ◌∷◌, arith, ltb, length,
  set, length-set, get_or, Bool-cases, inl, inr, none-some_absurd,
}
use softgre.Maps.{is_some}
use softgre.Compat.{Text}
use softgre.Clients.{Client, Io, closed, serve, serve_all, poll_slots, place_client, accept_all}
use softgre.Clients.Sane.{IsSane, closed-IsSane, serve-IsSane}

abbrev pub Every : List Client → Type 0
Every [] = Unit
Every (c ∷ clients) = IsSane c × Every clients

-- Slots from `limit` on have no client.
abbrev pub Unused : ℕ → List Client → Type 0
Unused limit [] = Unit
Unused zero (c ∷ clients) = (c ≡ closed) × Unused 0 clients
Unused (suc limit) (c ∷ clients) = Unused limit clients

get_or-Every : (clients : List Client) (i : ℕ) → Every clients → IsSane (get_or clients i closed)
unfolding get_or
get_or-Every [] i e = closed-IsSane
get_or-Every (c ∷ clients) zero (s, e) = s
get_or-Every (c ∷ clients) (suc i) (s, e) = get_or-Every clients i e

set-Every :
    (clients : List Client) (i : ℕ) (c : Client)
    → Every clients
    → IsSane c
    → Every (set clients i c)
unfolding set
set-Every [] i c e s = e
set-Every (d ∷ clients) zero c (t, e) s = (s, e)
set-Every (d ∷ clients) (suc i) c (t, e) s = (t, set-Every clients i c e s)

module _ (service_command : Text → Text) where
  pub serve_all-Every :
      (now : ℕ) (slots : List ℕ) (clients : List Client) (io : ℕ → Io)
      → Every clients
      → Every (serve_all service_command now slots clients io)
  unfolding serve_all
  serve_all-Every now [] clients io e = e
  serve_all-Every now (slot ∷ slots) clients io e =
      let c = get_or clients slot closed in
      serve_all-Every now slots (set clients slot (serve service_command now c (io slot))) io (
        set-Every clients slot (serve service_command now c (io slot)) e
          (serve-IsSane service_command now c (io slot) (get_or-Every clients slot e)))

  pub length-serve_all :
      (now : ℕ) (slots : List ℕ) (clients : List Client) (io : ℕ → Io)
      → length (serve_all service_command now slots clients io) ≡ length clients
  unfolding serve_all
  length-serve_all now [] clients io = refl
  length-serve_all now (slot ∷ slots) clients io =
      let c = get_or clients slot closed in
      length-serve_all now slots (set clients slot (serve service_command now c (io slot))) io
      ∙ length-set clients slot (serve service_command now c (io slot))

place_client-Every :
    (now limit fd : ℕ) (clients : List Client)
    → Every clients
    → Every (place_client now limit fd clients)
unfolding place_client
place_client-Every now limit fd [] e = e
place_client-Every now zero fd (c ∷ clients) e = e
place_client-Every now (suc limit) fd (c ∷ clients) (s, e) = elim (Bool-cases (is_some c.fd)) [
  | inl h ↦ rw h (s, place_client-Every now limit fd clients e)
  | inr h ↦ rw h (record { buffers = s.buffers; blank = λ n. absurd (none-some_absurd (sym n)) }, e)
]

length-place_client :
    (now limit fd : ℕ) (clients : List Client)
    → length (place_client now limit fd clients) ≡ length clients
unfolding place_client
length-place_client now limit fd [] = refl
length-place_client now zero fd (c ∷ clients) = refl
length-place_client now (suc limit) fd (c ∷ clients) = elim (Bool-cases (is_some c.fd)) [
  | inl h ↦ rw h (ap suc (length-place_client now limit fd clients))
  | inr h ↦ rw h refl
]

pub accept_all-Every :
    (now limit : ℕ) (fds : List ℕ) (clients : List Client)
    → Every clients
    → Every (accept_all now limit fds clients)
unfolding accept_all
accept_all-Every now limit [] clients e = e
accept_all-Every now limit (fd ∷ fds) clients e =
    accept_all-Every now limit fds (place_client now limit fd clients)
      (place_client-Every now limit fd clients e)

pub length-accept_all :
    (now limit : ℕ) (fds : List ℕ) (clients : List Client)
    → length (accept_all now limit fds clients) ≡ length clients
unfolding accept_all
length-accept_all now limit [] clients = refl
length-accept_all now limit (fd ∷ fds) clients =
    length-accept_all now limit fds (place_client now limit fd clients)
    ∙ length-place_client now limit fd clients

-- Slots of clients, within a bound.
unfoldable pub PollSlots : ℕ → List Client → List ℕ → Type 0
unfolding get_or closed
PollSlots limit clients [] = Unit
PollSlots limit clients (slot ∷ slots) =
    ((slot < limit) × (is_some (get_or clients slot closed).fd ≡ true))
    × PollSlots limit clients slots

-- The slots of a longer array, as those of its end.
unfoldable pub SlotsFrom : ℕ → ℕ → List Client → List ℕ → Type 0
unfolding get_or closed
SlotsFrom i limit clients [] = Unit
SlotsFrom i limit clients (slot ∷ slots) =
    ((n : ℕ) × (slot ≡ i + n) × (slot < limit) × (is_some (get_or clients n closed).fd ≡ true))
    × SlotsFrom i limit clients slots

SlotsFrom-shift :
    (i limit : ℕ) (c : Client) (clients : List Client) (slots : List ℕ)
    → SlotsFrom (i + 1) limit clients slots
    → SlotsFrom i limit (c ∷ clients) slots
unfolding SlotsFrom
SlotsFrom-shift i limit c clients [] h = tt
SlotsFrom-shift i limit c clients (slot ∷ slots) ((n, e, l, o), h) =
    ((suc n, omega (arith, e), l, o), SlotsFrom-shift i limit c clients slots h)

poll_slots-SlotsFrom :
    (i limit : ℕ) (clients : List Client) → SlotsFrom i limit clients (poll_slots i limit clients)
unfolding SlotsFrom poll_slots
poll_slots-SlotsFrom i limit [] = tt
poll_slots-SlotsFrom i limit (c ∷ clients) =
    let rest = SlotsFrom-shift i limit c clients _ (poll_slots-SlotsFrom (i + 1) limit clients) in
    elim (Bool-cases (ltb i limit)) [
      | inl h ↦ elim (Bool-cases (is_some c.fd)) [
        | inl o ↦ rw (h, o) ((0, omega arith, ground (arith, h), o), rest)
        | inr o ↦ rw (h, o) rest
      ]
      | inr h ↦ rw h tt
    ]

SlotsFrom-PollSlots :
    (limit : ℕ) (clients : List Client) (slots : List ℕ)
    → SlotsFrom 0 limit clients slots
    → PollSlots limit clients slots
unfolding SlotsFrom PollSlots
SlotsFrom-PollSlots limit clients [] h = tt
SlotsFrom-PollSlots limit clients (slot ∷ slots) ((n, e, l, o), h) =
    let same : n ≡ slot = omega (arith, e) in
    (
      (l, subst (λ (k : ℕ). is_some (get_or clients k closed).fd ≡ true) same o),
      SlotsFrom-PollSlots limit clients slots h,
    )

-- `service_pollfds` polls slots with a client, below the limit.
pub poll_slots-PollSlots :
    (limit : ℕ) (clients : List Client) → PollSlots limit clients (poll_slots 0 limit clients)
poll_slots-PollSlots limit clients =
    SlotsFrom-PollSlots limit clients (poll_slots 0 limit clients)
      (poll_slots-SlotsFrom 0 limit clients)

set-Unused :
    (limit i : ℕ) (c : Client) (clients : List Client)
    → i < limit
    → Unused limit clients
    → Unused limit (set clients i c)
unfolding set
set-Unused limit i c [] h u = u
set-Unused zero i c (d ∷ clients) h u = absurd (omega (arith, h))
set-Unused (suc limit) zero c (d ∷ clients) h u = u
set-Unused (suc limit) (suc i) c (d ∷ clients) h u =
    set-Unused limit i c clients (omega (arith, h)) u

place_client-Unused :
    (now limit fd : ℕ) (clients : List Client)
    → Unused limit clients
    → Unused limit (place_client now limit fd clients)
unfolding place_client
place_client-Unused now limit fd [] u = u
place_client-Unused now zero fd (c ∷ clients) u = u
place_client-Unused now (suc limit) fd (c ∷ clients) u = elim (Bool-cases (is_some c.fd)) [
  | inl h ↦ rw h (place_client-Unused now limit fd clients u)
  | inr h ↦ rw h u
]

pub accept_all-Unused :
    (now limit : ℕ) (fds : List ℕ) (clients : List Client)
    → Unused limit clients
    → Unused limit (accept_all now limit fds clients)
unfolding accept_all
accept_all-Unused now limit [] clients u = u
accept_all-Unused now limit (fd ∷ fds) clients u =
    accept_all-Unused now limit fds (place_client now limit fd clients)
      (place_client-Unused now limit fd clients u)

unfoldable pub AllBelow : ℕ → List ℕ → Type 0
AllBelow limit [] = Unit
AllBelow limit (slot ∷ slots) = (slot < limit) × AllBelow limit slots

pub PollSlots-AllBelow :
    (limit : ℕ) (clients : List Client) (slots : List ℕ)
    → PollSlots limit clients slots
    → AllBelow limit slots
unfolding PollSlots AllBelow
PollSlots-AllBelow limit clients [] h = tt
PollSlots-AllBelow limit clients (slot ∷ slots) ((l, o), h) =
    (l, PollSlots-AllBelow limit clients slots h)

pub serve_all-Unused :
    (service_command : Text → Text) (now limit : ℕ) (slots : List ℕ) (clients : List Client)
    (io : ℕ → Io)
    → AllBelow limit slots
    → Unused limit clients
    → Unused limit (serve_all service_command now slots clients io)
unfolding serve_all AllBelow
serve_all-Unused service_command now limit [] clients io b u = u
serve_all-Unused service_command now limit (slot ∷ slots) clients io (l, b) u =
    let c = get_or clients slot closed in
    serve_all-Unused service_command now limit slots
      (set clients slot (serve service_command now c (io slot))) io b
      (set-Unused limit slot (serve service_command now c (io slot)) clients l u)
