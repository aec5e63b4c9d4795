-- ===== src/Tests/DaemonTests.antt =====
-- src/softgred.c: a start, a frame, and a stop.
use softgre.Shared.{ℕ, zero, suc, ◌≡◌, refl, true, false, [], ◌∷◌, Returns}
use softgre.Capture.{Recvfrom, frame, recvfrom_again}
use softgre.Clients.{Io, recv_again, send_again}
use softgre.Daemon.{Round, Startup, clean_up, print_stats, terminate, polled, main, start}
use softgre.Daemon.Exit.{IfExited, main-Exited}
use softgre.Tests.Fixtures.{
  client_frame, tunnels_ops, index_ops, macs_ops, quiet_host, Tunnels, Index, Macs, config,
}
use softgre.Tests.CommandsTests.{memory, here}

abbrev fine_start : Startup
fine_start = record {
  is_root = true;
  log_opened = true;
  address_found = true;
  detached = true;
  pid_file_created = true;
  signals_blocked = true;
  signal_fd_opened = true;
  capture_opened = true;
  service_started = true;
  bridges_prepared = true ∷ [];
  chains_created = true;
  parent_told = true;
}

abbrev silent : Io
silent = record {
  events = record { pollin = false; pollout = false; pollhup = false; error = false };
  recv = recv_again;
  send = send_again;
}

abbrev one_frame : ℕ → Recvfrom
one_frame zero = frame false client_frame
one_frame (suc n) = recvfrom_again

abbrev frame_round : Round ℕ
frame_round = record {
  world = 7;
  poll = polled;
  signals = print_stats ∷ [];
  capture_broken = false;
  capture_pollin = true;
  recvfrom = one_frame;
  io = λ slot. silent;
  listener_pollin = true;
  connections = 9 ∷ [];
}

abbrev last_round : Round ℕ
last_round = record frame_round { signals = clean_up ∷ terminate ∷ []; capture_pollin = false }

main-Exited_example :
    Returns
      (main Tunnels Index {S = Macs} memory here config fine_start 4 5
        (frame_round ∷ last_round ∷ [])
        true)
      (IfExited Tunnels Index {S = Macs} memory here config fine_start 4 5
        (frame_round ∷ last_round ∷ [])
        true)
main-Exited_example =
    main-Exited Tunnels Index memory here config fine_start 4 5 (frame_round ∷ last_round ∷ []) true

no_root : (start (record fine_start { is_root = false })).complete ≡ false
unfolding start
no_root = refl
