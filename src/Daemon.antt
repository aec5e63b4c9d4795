-- ===== src/Daemon.antt =====
-- src/softgred.c: the start-up, the main loop and the end of the daemon, with what the system answers
-- as arguments.
pub mod Rounds
pub mod Exit
use softgre.Shared.{
  ℕ, Bool, true, false, not, ◌&&◌, List, [], ◌∷◌, Run, ok, fault, ◌>>=◌, if◌then◌else◌, take,
  Option, none, some,
}
use softgre.Maps.{MapOps}
use softgre.Compat.{Text}
use softgre.Compat.StrBuf.{Allocator}
use softgre.Provision.{Host, Config, State}
use softgre.Provision.Heap.{TunnelContext}
use softgre.Provision.Cleanup.{free_all, provision_delall}
use softgre.Capture.{Recvfrom, payload_receive}
use softgre.Provision.Runs.{provision_init}
use softgre.Clients.Asked.{asked_commands}
use softgre.Clients.{Io, Service, service_dispatch, service_end, initial_clients}
use softgre.Service.Commands.{Site, service_command}

-- `info.ssi_signo`: SIGHUP, SIGUSR1, SIGUSR2, and SIGINT or SIGTERM.
pub data Signal : Type 0 where
  reopen_log clean_up print_stats terminate : Signal

-- The result of `poll`: EINTR, another error, or events.
pub data Poll : Type 0 where
  poll_interrupted poll_failed polled : Poll

-- What a round of the main loop meets: the world at its start; of `signal_fd` the signals that its
-- reads return, none without POLLIN; of the capture socket its events and what `recvfrom` returns; and
-- of the status service what its clients meet and the connections at its listener.
pub record Round (W : Type 0) : Type 0 where
  pub world : W
  pub poll : Poll
  pub signals : List Signal
  pub capture_broken : Bool
  pub capture_pollin : Bool
  pub recvfrom : ℕ → Recvfrom
  pub io : ℕ → Io
  pub listener_pollin : Bool
  pub connections : List ℕ

-- Whether the loop goes on, or how it is left: with EXIT_SUCCESS or with EXIT_FAILURE.
pub data Outcome : Type 0 where
  going stopped failed : Outcome

-- The static variables of provisioning and of the status service.
pub record Daemon (T X S W : Type 0) : Type 0 where
  pub state : State T X S W
  pub service : Service

-- What is left at the end: the contexts of tunnels that are not freed, and the status service.
pub record Remains (S : Type 0) : Type 0 where
  pub contexts : ℕ → Option (TunnelContext S)
  pub service : Service

-- What the steps of the start-up return, in their order, from the test for root on. `detached` is the
-- part in which the child of `fork` goes on.
pub record Startup : Type 0 where
  pub is_root : Bool
  pub log_opened : Bool
  pub address_found : Bool
  pub detached : Bool
  pub pid_file_created : Bool
  pub signals_blocked : Bool
  pub signal_fd_opened : Bool
  pub capture_opened : Bool
  pub service_started : Bool
  pub bridges_prepared : List Bool
  pub chains_created : Bool
  pub parent_told : Bool

-- How far the start-up comes: at its `goto end`s the flags for the teardown.
pub record Started : Type 0 where
  pub complete : Bool
  pub firewall_ready : Bool
  pub provision_ready : Bool

-- The loop over the bridges.
unfoldable pub all_prepared : List Bool → Bool
all_prepared [] = true
all_prepared (prepared ∷ rest) = prepared && all_prepared rest

-- Whether the start-up comes past `service_init`.
unfoldable pub serves : Startup → Bool
serves u =
    u.is_root && u.log_opened && u.address_found && u.detached && u.pid_file_created
    && u.signals_blocked && u.signal_fd_opened && u.capture_opened && u.service_started

-- The steps before the first that sets a flag.
unfoldable pub prepare : Startup → Bool
unfolding all_prepared serves
prepare u = serves u && all_prepared u.bridges_prepared

unfoldable pub start : Startup → Started
unfolding prepare
start u =
    if not (prepare u)
    then record { complete = false; firewall_ready = false; provision_ready = false }
    else if not u.chains_created
    then record { complete = false; firewall_ready = false; provision_ready = false }
    else if not u.parent_told
    then record { complete = false; firewall_ready = true; provision_ready = true }
    else record { complete = true; firewall_ready = true; provision_ready = true }

module _ {T X S W : Type 0} ⦃tun : MapOps ℕ ℕ T⦄ ⦃idx : MapOps (List ℕ) ℕ X⦄
    ⦃set : MapOps (List ℕ) (Unit {0}) S⦄ ⦃host : Host W⦄ where
  -- The loop over the signals; the result says whether the daemon is still running.
  unfoldable pub handle_signals : State T X S W → List Signal → Run (State T X S W × Bool)
  unfolding provision_delall
  handle_signals s [] = ok (s, true)
  handle_signals s (reopen_log ∷ signals) = handle_signals s signals
  handle_signals s (print_stats ∷ signals) = handle_signals s signals
  handle_signals s (clean_up ∷ signals) = do s' ← provision_delall s; handle_signals s' signals
  handle_signals s (terminate ∷ signals) = do (s', _) ← handle_signals s signals; ok (s', false)

  -- The frames, if there are any; the result says whether the capture goes on.
  unfoldable pub capture : Config → Round W → State T X S W → Run (State T X S W × Bool)
  unfolding payload_receive
  capture cfg r s =
      if r.capture_broken
      then ok (s, false)
      else if r.capture_pollin
      then payload_receive cfg r.recvfrom s
      else ok (s, true)

  -- `provision_end`: its maps are destroyed after the cleanup, with the contexts that are left in them,
  -- and the pointers to them are NULL. The result is the heap of the contexts.
  unfoldable pub provision_end : State T X S W → Run (ℕ → Option (TunnelContext S))
  unfolding provision_delall free_all
  provision_end s = do s1 ← provision_delall s; ok (free_all s1.tables (tun.keys s1.tables.tunnels))

  module _ (alloc : Allocator) (site : Site) where
    -- The commands of a round are run: a fault of one is a fault of the round.
    unfoldable pub run_commands : State T X S W → List Text → Run (Unit {0})
    unfolding service_command
    run_commands s [] = ok tt
    run_commands s (command ∷ commands) = do
      out ← service_command alloc site s command
      run_commands s commands

    -- The text of the buffer that `service_command` returns, which the client is sent; for commands that
    -- do not fault.
    unfoldable pub response : State T X S W → Text → Text
    unfolding service_command
    response s command = elim (service_command alloc site s command) [
      | fault ↦ []
      | ok out ↦ take out.len out.str
    ]

    -- A round behind a `poll` with events.
    unfoldable pub handle_events :
        Config → Round W → Daemon T X S W → Run (Daemon T X S W × Outcome)
    unfolding handle_signals capture response run_commands asked_commands service_dispatch
    handle_events cfg r d = do
      (s1, running) ← handle_signals d.state r.signals
      if not running then ok (record d { state = s1 }, stopped) else do
        (s2, receiving) ← capture cfg r s1
        if not receiving then ok (record d { state = s2 }, failed) else do
          let now = host.monotonic_usec s2.world
          _ ← run_commands s2 (asked_commands (response s2) now d.service r.io)
          ok (
            record {
              state = s2;
              service =
                  service_dispatch (response s2) now d.service r.io r.listener_pollin r.connections;
            },
            going,
          )

    unfoldable pub main_round : Config → Round W → Daemon T X S W → Run (Daemon T X S W × Outcome)
    unfolding handle_events
    main_round cfg r d =
        let d' = record d { state = record d.state { world = r.world } } in
        elim r.poll [
          | poll_interrupted ↦ ok (d', going)
          | poll_failed ↦ ok (d', failed)
          | polled ↦ handle_events cfg r d'
        ]

    -- The main loop over the rounds that are met.
    unfoldable pub main_loop :
        Config → List (Round W) → Daemon T X S W → Run (Daemon T X S W × Outcome)
    unfolding main_round
    main_loop cfg [] d = ok (d, going)
    main_loop cfg (r ∷ rounds) d = do
      (d', outcome) ← main_round cfg r d
      elim outcome [
        | going ↦ main_loop cfg rounds d'
        | stopped ↦ ok (d', stopped)
        | failed ↦ ok (d', failed)
      ]

  -- The daemon before the start of its loop, with the limit of the status service.
  unfoldable pub initial : Startup → ℕ → W → Daemon T X S W
  unfolding provision_init serves initial_clients
  initial u limit w = record {
    state = record {
      tables = provision_init;
      packets = 0;
      ignored = 0;
      failures = 0;
      retry_after = 0;
      cleanup_pending = false;
      errno = 0;
      world = w;
    };
    service = record { listener = serves u; limit = limit; clients = initial_clients };
  }

  -- From `end` on; `chains_removed` is that `iface_ebtables_end` returns 0. The result says whether
  -- the exit status is EXIT_SUCCESS.
  unfoldable pub tear_down : Started → Bool → Bool → Daemon T X S W → Run (Remains S × Bool)
  unfolding provision_end service_end
  tear_down st chains_removed success d = do
    contexts ← if st.provision_ready then provision_end d.state else ok d.state.tables.heap
    ok (
      record { contexts = contexts; service = service_end d.service },
      if st.firewall_ready && not chains_removed then false else success,
    )

module _ (T X : Type 0) {S W : Type 0} ⦃tun : MapOps ℕ ℕ T⦄ ⦃idx : MapOps (List ℕ) ℕ X⦄
    ⦃set : MapOps (List ℕ) (Unit {0}) S⦄ ⦃host : Host W⦄ (alloc : Allocator) (site : Site) where
  -- `main` from the test for root on; `none` while the daemon still runs after the rounds.
  unfoldable pub main :
      Config → Startup → ℕ → W → List (Round W) → Bool → Run (Option (Remains S × Bool))
  unfolding start initial main_loop tear_down
  main cfg u limit w rounds chains_removed =
      let st = start u in
      let d : Daemon T X S W = initial u limit w in
      if not st.complete then (do x ← tear_down st chains_removed false d; ok (some x)) else do
        (d', outcome) ← main_loop alloc site cfg rounds d
        elim outcome [
          | going ↦ ok none
          | stopped ↦ do x ← tear_down st chains_removed true d'; ok (some x)
          | failed ↦ do x ← tear_down st chains_removed false d'; ok (some x)
        ]
