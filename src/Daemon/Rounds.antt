-- ===== src/Daemon/Rounds.antt =====
-- The main loop of src/softgred.c: provisioning and the status service stay in order.
use softgre.Shared.{
  ℕ, ◌≡◌, refl, Bool, true, false, not, ◌||◌, List, [], ◌∷◌, ok, ◌>>=◌, arith, Returns,
  Returns-bind, Returns-if,
}
use softgre.Maps.{MapOps}
use softgre.Compat.StrBuf.{Allocator}
use softgre.Provision.{Host, Config, State}
use softgre.Provision.Emptied.{provision_delall-Cleaned}
use softgre.Provision.Runs.{Reachable, Reachable-Owned, cleaned, elapsed}
use softgre.Capture.Received.{payload_receive-Batch}
use softgre.Clients.Runs.{InOrder, Step, step, step-InOrder}
use softgre.Clients.Asked.{asked_commands}
use softgre.Compat.{Text}
use softgre.Service.Commands.{Site}
use softgre.Service.Commands.Answers.{service_command-Answered}
use softgre.Daemon.{
  Signal, reopen_log, clean_up, print_stats, terminate, Poll, poll_interrupted, poll_failed, polled,
  run_commands, Round, Outcome, going, stopped, failed, Daemon, handle_signals, capture, response,
  handle_events, main_round, main_loop,
}

-- Whether SIGINT or SIGTERM is among the signals.
unfoldable pub has_terminate : List Signal → Bool
has_terminate [] = false
has_terminate (reopen_log ∷ signals) = has_terminate signals
has_terminate (clean_up ∷ signals) = has_terminate signals
has_terminate (print_stats ∷ signals) = has_terminate signals
has_terminate (terminate ∷ signals) = true

-- Whether it is in one of the rounds.
unfoldable pub told_to_stop : {W : Type 0} → List (Round W) → Bool
unfolding has_terminate
told_to_stop [] = false
told_to_stop (r ∷ rounds) = has_terminate r.signals || told_to_stop rounds

module _ {T X S W : Type 0} ⦃tun : MapOps ℕ ℕ T⦄ ⦃idx : MapOps (List ℕ) ℕ X⦄
    ⦃set : MapOps (List ℕ) (Unit {0}) S⦄ ⦃host : Host W⦄ where
  -- Provisioning in a reachable state, and the slots of the status service in order.
  pub record Sound (cfg : Config) (limit : ℕ) (d : Daemon T X S W) : Type 0 where
    pub reachable : Reachable cfg d.state
    pub in_order : InOrder limit d.service

  handle_signals_Returns :
      (cfg : Config) (s : State T X S W) (signals : List Signal)
      → Reachable cfg s
      → Returns
          (handle_signals s signals)
          (λ x. Reachable cfg x.0 × (x.1 ≡ not (has_terminate signals)))
  unfolding handle_signals has_terminate
  handle_signals_Returns cfg s [] r = (_, refl, (r, refl))
  handle_signals_Returns cfg s (reopen_log ∷ signals) r = handle_signals_Returns cfg s signals r
  handle_signals_Returns cfg s (print_stats ∷ signals) r = handle_signals_Returns cfg s signals r
  handle_signals_Returns cfg s (clean_up ∷ signals) r =
      let (s', e, c) = provision_delall-Cleaned s (Reachable-Owned r) in
      rw (e, ◌>>=◌) (handle_signals_Returns cfg s' signals (cleaned r e))
  handle_signals_Returns cfg s (terminate ∷ signals) r =
      Returns-bind (handle_signals_Returns cfg s signals r)
        (λ (s', b) (r', _). (_, refl, (r', refl)))

  capture_Returns :
      (cfg : Config) (r : Round W) (s : State T X S W)
      → Reachable cfg s
      → Returns (capture cfg r s) (λ x. Reachable cfg x.0)
  unfolding capture
  capture_Returns cfg r s h =
      Returns-if r.capture_broken (λ _. (_, refl, h))
        (λ _.
          Returns-if r.capture_pollin
            (λ _.
              let (x, e, b) = payload_receive-Batch cfg r.recvfrom s (Reachable-Owned h) in
              (x, e, b.reachable h))
            (λ _. (_, refl, h)))

  -- What a round leaves: a sound daemon, which stops only if it is told to.
  record After (cfg : Config) (limit : ℕ) (signals : List Signal) (x : Daemon T X S W × Outcome)
      : Type 0 where
    sound : Sound cfg limit x.0
    told : x.1 ≡ stopped → has_terminate signals ≡ true

  module _ (alloc : Allocator) (site : Site) (cfg : Config) (limit : ℕ) where
    run_commands_Returns :
        (s : State T X S W) (commands : List Text)
        → Reachable cfg s
        → Returns (run_commands alloc site s commands) (λ r. Unit {0})
    unfolding run_commands
    run_commands_Returns s [] h = (tt, refl, tt)
    run_commands_Returns s (command ∷ commands) h =
        Returns-bind (service_command-Answered alloc site s (Reachable-Owned h) command)
          (λ out a. run_commands_Returns s commands h)

    handle_events-After :
        (r : Round W) (d : Daemon T X S W)
        → Sound cfg limit d
        → Returns (handle_events alloc site cfg r d) (After cfg limit r.signals)
    unfolding handle_events step
    handle_events-After r d h =
        Returns-bind (handle_signals_Returns cfg d.state r.signals h.reachable)
          (λ (s1, running) (r1, e).
            Returns-if (not running)
              (λ f. (
                _,
                refl,
                record {
                  sound = record { reachable = r1; in_order = h.in_order };
                  told = λ _. let g = e in ground (arith, f, g);
                },
              ))
              (λ _. Returns-bind (capture_Returns cfg r s1 r1) (λ (s2, receiving) r2.
                Returns-if (not receiving)
                  (λ _. (
                    _,
                    refl,
                    record {
                      sound = record { reachable = r2; in_order = h.in_order };
                      told = λ g. cc;
                    },
                  ))
                  (λ _.
                    let now = host.monotonic_usec s2.world in
                    let commands = asked_commands (response alloc site s2) now d.service r.io in
                    Returns-bind (run_commands_Returns s2 commands r2) (λ _ _. (
                      _,
                      refl,
                      record {
                        sound = record {
                          reachable = r2;
                          in_order =
                              step-InOrder (response alloc site s2) limit
                                (Step.round now r.io r.listener_pollin r.connections) d.service
                                h.in_order;
                        };
                        told = λ g. cc;
                      },
                    ))))))

    main_round-After :
        (r : Round W) (d : Daemon T X S W)
        → Sound cfg limit d
        → Returns (main_round alloc site cfg r d) (After cfg limit r.signals)
    unfolding main_round
    main_round-After r d h =
        let d' = record d { state = record d.state { world = r.world } } in
        let h' : Sound cfg limit d' = record {
          reachable = elapsed r.world h.reachable;
          in_order = h.in_order;
        } in
        by_case r.poll d' h' (handle_events-After r d' h')
      where
        by_case :
            (p : Poll) (d' : Daemon T X S W)
            → Sound cfg limit d'
            → Returns (handle_events alloc site cfg r d') (After cfg limit r.signals)
            → Returns
                (elim p [
                  | poll_interrupted ↦ ok (d', going)
                  | poll_failed ↦ ok (d', failed)
                  | polled ↦ handle_events alloc site cfg r d'
                ])
                (After cfg limit r.signals)
        by_case poll_interrupted d' h' e = (_, refl, record { sound = h'; told = λ g. cc })
        by_case poll_failed d' h' e = (_, refl, record { sound = h'; told = λ g. cc })
        by_case polled d' h' e = e

    -- From a sound daemon, the main loop over any rounds, whatever the system answers in them, follows
    -- no dangling pointer and reads no byte outside a frame, also in the commands of its clients, and it
    -- returns: provisioning is in a state
    -- that its calls reach, the slots of the status service are in order, and the loop was left with
    -- success only if SIGINT or SIGTERM came in one of the rounds.
    pub main_loop-Sound :
        (rounds : List (Round W)) (d : Daemon T X S W)
        → Sound cfg limit d
        → Returns
            (main_loop alloc site cfg rounds d)
            (λ x. Sound cfg limit x.0 × (x.1 ≡ stopped → told_to_stop rounds ≡ true))
    unfolding main_loop told_to_stop
    main_loop-Sound [] d h = (_, refl, (h, λ g. cc))
    main_loop-Sound (r ∷ rounds) d h =
        Returns-bind (main_round-After r d h)
          (λ (d', outcome) a. by_case outcome d' a (main_loop-Sound rounds d' a.sound))
      where
        by_case :
            (outcome : Outcome) (d' : Daemon T X S W)
            → After cfg limit r.signals (d', outcome)
            → Returns
                (main_loop alloc site cfg rounds d')
                (λ x. Sound cfg limit x.0 × (x.1 ≡ stopped → told_to_stop rounds ≡ true))
            → Returns
                (elim outcome [
                  | going ↦ main_loop alloc site cfg rounds d'
                  | stopped ↦ ok (d', stopped)
                  | failed ↦ ok (d', failed)
                ])
                (λ x.
                  Sound cfg limit x.0
                  × (x.1 ≡ stopped → has_terminate r.signals || told_to_stop rounds ≡ true))
        by_case going d' a (x, e, (s, told)) =
            (x, e, (s, λ g. let later = told g in ground (arith, later)))
        by_case stopped d' a e =
            (_, refl, (a.sound, λ g. let now = a.told g in ground (arith, now)))
        by_case failed d' a e = (_, refl, (a.sound, λ g. cc))
