-- ===== src/Clients/Runs.antt =====
-- What holds of the slots of src/service.c behind any rounds of the main loop.
use softgre.Shared.{
  ℕ, zero, suc, ◌≡◌, refl, sym, ap, ◌∙◌, subst, Bool, true, false, List, [], ◌∷◌, Option, none,
  some, if◌then◌else◌, length, take, replicate, length-replicate, some-injective, none-some_absurd,
}
use softgre.Compat.{Text}
use softgre.Clients.{
  Client, Io, closed, serve_all, poll_slots, service_pollfds, Service, dispatch_clients,
  service_dispatch, close_all, service_end, initial_clients, max_clients,
}
use softgre.Clients.Sane.{closed-IsSane}
use softgre.Clients.Rounds.{
  Every, Unused, PollSlots, AllBelow, serve_all-Every, length-serve_all, accept_all-Every,
  length-accept_all, accept_all-Unused, serve_all-Unused, poll_slots-PollSlots, PollSlots-AllBelow,
}

-- The array of the clients: its size, that each slot is in order, and that those behind the limit have
-- no client.
pub record Slots (limit : ℕ) (clients : List Client) : Type 0 where
  pub size : length clients ≡ max_clients
  pub every : Every clients
  pub unused : Unused limit clients

module _ (service_command : Text → Text) where
  serve_polled-Slots :
      (now limit : ℕ) (slots : List ℕ) (clients : List Client) (io : ℕ → Io)
      → AllBelow limit slots
      → Slots limit clients
      → Slots limit (serve_all service_command now slots clients io)
  serve_polled-Slots now limit slots clients io b s = record {
    size = length-serve_all service_command now slots clients io ∙ s.size;
    every = serve_all-Every service_command now slots clients io s.every;
    unused = serve_all-Unused service_command now limit slots clients io b s.unused;
  }

  dispatch_clients-Slots :
      (now limit : ℕ) (clients : List Client) (slots : Option (List ℕ)) (io : ℕ → Io)
      (pollin : Bool) (fds : List ℕ)
      → ((polled : List ℕ) → slots ≡ some polled → AllBelow limit polled)
      → Slots limit clients
      → Slots limit (dispatch_clients service_command now limit clients slots io pollin fds)
  unfolding dispatch_clients
  dispatch_clients-Slots now limit clients none io pollin fds b s = s
  dispatch_clients-Slots now limit clients (some slots) io false fds b s =
      serve_polled-Slots now limit slots clients io (b slots refl) s
  dispatch_clients-Slots now limit clients (some slots) io true fds b s =
      let served = serve_all service_command now slots clients io in
      let t = serve_polled-Slots now limit slots clients io (b slots refl) s in
      record {
        size = length-accept_all now limit (take 16 fds) served ∙ t.size;
        every = accept_all-Every now limit (take 16 fds) served t.every;
        unused = accept_all-Unused now limit (take 16 fds) served t.unused;
      }

polled-AllBelow :
    (listener : Bool) (limit : ℕ) (clients : List Client) (polled : List ℕ)
    → (if listener then some (poll_slots 0 limit clients) else none) ≡ some polled
    → PollSlots limit clients polled
polled-AllBelow true limit clients polled e =
    subst (λ p. PollSlots limit clients p) (some-injective e) (poll_slots-PollSlots limit clients)
polled-AllBelow false limit clients polled e = absurd (none-some_absurd e)

close_all-Slots :
    (limit : ℕ) (clients : List Client)
    → Every clients
    → Unused limit clients
    → Every (close_all limit clients) × Unused limit (close_all limit clients)
unfolding close_all
close_all-Slots limit [] e u = (tt, tt)
close_all-Slots zero (c ∷ clients) e u = (e, u)
close_all-Slots (suc limit) (c ∷ clients) (s, e) u =
    let (e', u') = close_all-Slots limit clients e u in ((closed-IsSane, e'), u')

length-close_all :
    (limit : ℕ) (clients : List Client) → length (close_all limit clients) ≡ length clients
unfolding close_all
length-close_all limit [] = refl
length-close_all zero (c ∷ clients) = refl
length-close_all (suc limit) (c ∷ clients) = ap suc (length-close_all limit clients)

-- What happens to the service: a round of the main loop, or its end.
pub data Step : Type 0 where
  -- The time, what each slot meets, POLLIN of the listener, and the connections at it.
  round : ℕ → (ℕ → Io) → Bool → List ℕ → Step
  end : Step

module _ (service_command : Text → Text) where
  unfoldable pub step : Step → Service → Service
  unfolding service_dispatch service_end
  step (round now io pollin fds) sv = service_dispatch service_command now sv io pollin fds
  step end sv = service_end sv

  -- The states that the steps reach from `service_init`, with its limit.
  pub data Reachable (limit : ℕ) : Service → Type 0 where
    started : Reachable limit (record { listener = true; limit = limit; clients = initial_clients })
    stepped : (s : Step) (sv : Service) → Reachable limit sv → Reachable limit (step s sv)

replicate-Slots : (limit n : ℕ) → Every (replicate n closed) × Unused limit (replicate n closed)
unfolding replicate
replicate-Slots limit zero = (tt, tt)
replicate-Slots zero (suc n) = let (e, u) = replicate-Slots 0 n in ((closed-IsSane, e), (refl, u))
replicate-Slots (suc limit) (suc n) =
    let (e, u) = replicate-Slots limit n in ((closed-IsSane, e), u)

pub initial_clients-Slots : (limit : ℕ) → Slots limit initial_clients
unfolding initial_clients
initial_clients-Slots limit = record {
  size = length-replicate max_clients closed;
  every = (replicate-Slots limit max_clients).0;
  unused = (replicate-Slots limit max_clients).1;
}

-- The service in order, with its limit.
pub record InOrder (limit : ℕ) (sv : Service) : Type 0 where
  pub same_limit : sv.limit ≡ limit
  pub slots : Slots limit sv.clients
  -- What is polled are slots below the limit that have a client.
  pub polled : (slots : List ℕ) → service_pollfds sv ≡ some slots → PollSlots limit sv.clients slots

pub in_order :
    (limit : ℕ) (sv : Service) → sv.limit ≡ limit → Slots limit sv.clients → InOrder limit sv
unfolding service_pollfds
in_order limit sv e s = record {
  same_limit = e;
  slots = s;
  polled = λ slots h.
      subst (λ n. PollSlots n sv.clients slots) e
        (polled-AllBelow sv.listener sv.limit sv.clients slots h);
}

end-Slots :
    (limit : ℕ) (b : Bool) (clients : List Client)
    → Slots limit clients
    → Slots limit (if b then close_all limit clients else clients)
end-Slots limit true clients s =
    let (e, u) = close_all-Slots limit clients s.every s.unused in
    record { size = length-close_all limit clients ∙ s.size; every = e; unused = u }
end-Slots limit false clients s = s

module _ (service_command : Text → Text) where
  pub step-InOrder :
      (limit : ℕ) (s : Step) (sv : Service)
      → InOrder limit sv
      → InOrder limit (step service_command s sv)
  unfolding step service_dispatch service_end
  step-InOrder limit (round now io pollin fds) sv o =
      in_order limit (step service_command (round now io pollin fds) sv) o.same_limit (
        subst
          (λ n.
            Slots limit (
              dispatch_clients service_command now n sv.clients (service_pollfds sv) io pollin fds))
          (sym o.same_limit)
          (dispatch_clients-Slots service_command now limit sv.clients (service_pollfds sv) io
            pollin fds (λ polled h. PollSlots-AllBelow limit sv.clients polled (o.polled polled h))
            o.slots))
  step-InOrder limit end sv o = in_order limit (step service_command end sv) o.same_limit (
      subst (λ n. Slots limit (if sv.listener then close_all n sv.clients else sv.clients))
        (sym o.same_limit) (end-Slots limit sv.listener sv.clients o.slots))

  -- After any rounds of the status service, whatever the system calls return and the commands answer:
  -- there are as many slots as at the start; a client without a response has room left in its buffer
  -- of 256 bytes; a response has at most a MiB and no more of it is sent than there is; a slot without
  -- a client is blank, as each slot behind the limit is; and what is polled next is slots below the
  -- limit that have a client.
  pub Reachable-InOrder :
      (limit : ℕ) (sv : Service) → Reachable service_command limit sv → InOrder limit sv
  Reachable-InOrder limit sv started = in_order limit sv refl (initial_clients-Slots limit)
  Reachable-InOrder limit sv (stepped s before r) =
      step-InOrder limit s before (Reachable-InOrder limit before r)
