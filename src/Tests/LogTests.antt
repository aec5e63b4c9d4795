-- ===== src/Tests/LogTests.antt =====
-- src/log.c: a line in two parts, and what is refused.
use softgre.Shared.{◌≡◌, refl, true, false, [], ◌∷◌, some, replicate, arith}
use softgre.Compat.{codes, str_has_suffix, path_is_absolute}
use softgre.Netlink.Links.{print_u}
use softgre.Log.{
  Log, wrote, write_interrupted, opened, stat_of, eperm, log_open, log_line, log_message,
  write_loop, is_dropped, severity,
}
use softgre.Log.Lines.{Outcome, log_message-Outcome}

abbrev fresh : Log
fresh = record { log_fd = some 3; write_failed = false; written = [] }

log_message-Outcome_example :
    (log' : Log) × (log_message 0 fresh (replicate 40 (wrote 7)) (codes "t") 8 5 (codes "hi")
      ≡ some log')
    × Outcome (is_dropped 0 5) (log_line (codes "t") 8 5 (codes "hi")) fresh log'
unfolding replicate log_line print_u severity str_has_suffix
log_message-Outcome_example =
    log_message-Outcome 0 fresh (replicate 40 (wrote 7)) (codes "t") 8 5 (codes "hi") (omega arith)

line : log_line (codes "t") 8 6 (codes "hi") ≡ codes "[t] pid=8 level=WARNING hi\n"
unfolding log_line print_u severity str_has_suffix
line = refl

in_two_parts :
    write_loop (wrote 2 ∷ write_interrupted ∷ wrote 9 ∷ []) (codes "abc") 0 fresh
    ≡ some (3, record fresh { written = codes "abc" })
unfolding write_loop
in_two_parts = refl

linked_twice :
    log_open fresh (some (codes "/var/log/x")) (opened 4) (stat_of true 2 true false)
    ≡ (fresh, some eperm)
unfolding log_open path_is_absolute
linked_twice = refl
