-- ===== src/Daemon/Exit.antt =====
-- `main` of src/softgred.c from its start to its exit status.
use softgre.Shared.{
  ℕ, ◌≡◌, refl, sym, ap, ◌∙◌, Bool, true, false, not, ◌&&◌, List, Option, none, some, ok, ◌>>=◌,
  if◌then◌else◌, arith, Returns, Returns-bind, Returns-if, Bool-cases, inl, inr,
}
use softgre.Maps.{MapOps, is_some}
use softgre.Compat.StrBuf.{Allocator}
use softgre.Provision.{Host, Config, State}
use softgre.Provision.Heap.{TunnelContext}
use softgre.Provision.Owned.{At, Owned}
use softgre.Provision.Emptied.{provision_delall-Cleaned, free_all-unused, free_all-listed}
use softgre.Provision.Runs.{Reachable, Reachable-Owned, started}
use softgre.Clients.{service_end, initial_clients}
use softgre.Clients.Runs.{in_order, initial_clients-Slots}
use softgre.Service.Commands.{Site}
use softgre.Daemon.{
  Remains, main_loop, Round, Outcome, going, stopped, failed, Daemon, Startup, serves, start,
  provision_end, initial, tear_down, main,
}
use softgre.Daemon.Rounds.{Sound, told_to_stop, main_loop-Sound}

complete_start : (u : Startup) → (start u).complete ≡ true → (start u).firewall_ready ≡ true
unfolding start
complete_start u h = ground arith

success_parts :
    (ready removed success : Bool)
    → (if ready && not removed then false else success) ≡ true
    → (success ≡ true) × (ready ≡ true → removed ≡ true)
success_parts ready removed success h = ground arith

-- What the exit status EXIT_SUCCESS takes.
success_needed :
    (u : Startup) (removed success told : Bool)
    → (success ≡ true → ((start u).complete ≡ true) × (told ≡ true))
    → (if (start u).firewall_ready && not removed then false else success) ≡ true
    → ((start u).complete ≡ true) × (told ≡ true) × (removed ≡ true)
success_needed u removed success told why h =
    let (e, f) = success_parts (start u).firewall_ready removed success h in
    let (c, t) = why e in (c, t, f (complete_start u c))

module _ {T X S W : Type 0} ⦃tun : MapOps ℕ ℕ T⦄ ⦃idx : MapOps (List ℕ) ℕ X⦄
    ⦃set : MapOps (List ℕ) (Unit {0}) S⦄ ⦃host : Host W⦄ where
  -- The contexts of all tunnels of a state are freed in a heap.
  pub record FreedIn (heap : ℕ → Option (TunnelContext S)) (s : State T X S W) : Type 0 where
    pub all : (ip p : ℕ) (t : TunnelContext S) → At s.tables ip p t → heap p ≡ none

  -- Whether or not its cleanup is complete, `provision_end` frees them.
  provision_end-FreedIn :
      (s : State T X S W) → Owned s.tables → Returns (provision_end s) (λ heap. FreedIn heap s)
  unfolding provision_end
  provision_end-FreedIn s o = Returns-bind (provision_delall-Cleaned s o) (λ s1 c.
      let keys = tun.keys s1.tables.tunnels in
      elim (Bool-cases s1.cleanup_pending) [
        | inr e ↦ (
          _,
          refl,
          record {
            all = λ ip p t a. free_all-unused s1.tables keys p ((c.complete e).freed ip p t a);
          },
        )
        | inl e ↦ (
          _,
          refl,
          record {
            all = λ ip p t a.
                let entry : tun.lookup s1.tables.tunnels ip ≡ some p =
                  ap (λ m. tun.lookup m ip) (c.kept e) ∙ a.entry in
                free_all-listed s1.tables keys ip p
                  (tun.contains-keys s1.tables.tunnels ip ∙ ap is_some entry) entry;
          },
        )
      ])

  initial-Sound :
      (cfg : Config) (u : Startup) (limit : ℕ) (w : W)
      → Sound {T = T} {X = X} {S = S} cfg limit (initial u limit w)
  unfolding initial
  initial-Sound cfg u limit w = record {
    reachable = started w;
    in_order =
        in_order limit (record { listener = serves u; limit = limit; clients = initial_clients })
          refl (initial_clients-Slots limit);
  }

module _ (T X : Type 0) {S W : Type 0} ⦃tun : MapOps ℕ ℕ T⦄ ⦃idx : MapOps (List ℕ) ℕ X⦄
    ⦃set : MapOps (List ℕ) (Unit {0}) S⦄ ⦃host : Host W⦄ (alloc : Allocator) (site : Site)
    (cfg : Config) (u : Startup) (limit : ℕ) (w : W) (rounds : List (Round W))
    (chains_removed : Bool) where
  -- How `main` ends, behind a loop that leaves the daemon `last`.
  pub record Exited (x : Remains S × Bool) : Type 0 where
    pub last : Daemon T X S W
    pub reached :
        (start u).complete ≡ true
        → (o : Outcome) × (main_loop alloc site cfg rounds (initial u limit w) ≡ ok (last, o))
    pub freed : (start u).provision_ready ≡ true → FreedIn x.0.contexts last.state
    pub no_listener : x.0.service.listener ≡ false
    pub success_needs :
        x.1 ≡ true
        → ((start u).complete ≡ true) × (told_to_stop rounds ≡ true) × (chains_removed ≡ true)

  -- The same, if it has ended.
  pub data IfExited : Option (Remains S × Bool) → Type 0 where
    running : IfExited none
    exited : {x : Remains S × Bool} → Exited x → IfExited (some x)

  ends :
      (d : Daemon T X S W) (success : Bool)
      → Reachable cfg d.state
      → ((start u).complete ≡ true
          → (o : Outcome) × (main_loop alloc site cfg rounds (initial u limit w) ≡ ok (d, o)))
      → (success ≡ true → ((start u).complete ≡ true) × (told_to_stop rounds ≡ true))
      → Returns (tear_down (start u) chains_removed success d >>= (λ x. ok (some x))) IfExited
  unfolding tear_down service_end
  ends d success r reached why = elim (Bool-cases (start u).provision_ready) [
    | inl e ↦
        let (heap, q, freed) = provision_end-FreedIn d.state (Reachable-Owned r) in
        rw (e, q, ◌>>=◌)
          (
            _,
            refl,
            exited (record {
              last = d;
              reached = reached;
              freed = λ _. freed;
              no_listener = refl;
              success_needs = success_needed u chains_removed success (told_to_stop rounds) why;
            }),
          )
    | inr e ↦ rw e (
      _,
      refl,
      exited (record {
        last = d;
        reached = reached;
        freed = λ f. absurd (let z : false ≡ true = sym e ∙ f in cc);
        no_listener = refl;
        success_needs = success_needed u chains_removed success (told_to_stop rounds) why;
      }),
    )
  ]

  -- The daemon from its start on, whatever its start-up, its rounds and its end meet: it follows no
  -- dangling pointer and reads no byte outside a frame, in the commands of its clients too. It runs
  -- after the rounds or has ended. At the end the status service does not listen, and if provisioning
  -- had been started, the contexts of all the tunnels that the main loop left are freed, also when
  -- their cleanup failed. The exit status is success only if every step of the start-up succeeded,
  -- SIGINT or SIGTERM came in one of the rounds, and the chains of the firewall were removed.
  pub main-Exited : Returns (main T X alloc site cfg u limit w rounds chains_removed) IfExited
  unfolding main
  main-Exited =
      let d : Daemon T X S W = initial u limit w in
      let sound : Sound cfg limit d = initial-Sound cfg u limit w in
      Returns-if (not (start u).complete)
        (λ n.
          ends d false sound.reachable
            (λ c. absurd (let z : false ≡ true = ap not (sym c) ∙ n in cc)) (λ e. cc))
        (λ c.
          let complete : (start u).complete ≡ true = ground (arith, c) in
          let ((d', outcome), e, (s, told)) = main_loop-Sound alloc site cfg limit rounds d sound in
          rw (e, ◌>>=◌) (by_case outcome d' s.reachable e told complete))
    where
      by_case :
          (outcome : Outcome) (d : Daemon T X S W)
          → Reachable cfg d.state
          → main_loop alloc site cfg rounds (initial u limit w) ≡ ok (d, outcome)
          → (outcome ≡ stopped → told_to_stop rounds ≡ true)
          → (start u).complete ≡ true
          → Returns
              (elim outcome [
                | going ↦ ok none
                | stopped ↦ (tear_down (start u) chains_removed true d >>= (λ x. ok (some x)))
                | failed ↦ (tear_down (start u) chains_removed false d >>= (λ x. ok (some x)))
              ])
              IfExited
      by_case going d r q told c = (_, refl, running)
      by_case stopped d r q told c = ends d true r (λ _. (stopped, q)) (λ e. (c, told refl))
      by_case failed d r q told c = ends d false r (λ _. (failed, q)) (λ e. cc)
