-- ===== src/Log.antt =====
-- src/log.c: the log file and the lines that go to it. What goes to stderr is left out.
pub mod Lines
use softgre.Shared.{
  ℕ, ◌+◌, ◌-◌, Bool, true, false, not, ◌&&◌, ◌||◌, List, [], ◌∷◌, ◌++◌, Option, none, some, ltb,
  ◌==◌, if◌then◌else◌, length, take, drop, min,
}
use softgre.Compat.{Text, codes, str_has_suffix, path_is_absolute}
use softgre.Netlink.Links.{print_u, einval}

-- The static variables, and what was written to the file since it was opened.
pub record Log : Type 0 where
  pub log_fd : Option ℕ
  pub write_failed : Bool
  pub written : Text

abbrev pub eperm : ℕ
eperm = 1

-- What `fstat` says of the file that was opened, or its `errno`.
pub data Stat : Type 0 where
  stat_failed : ℕ → Stat
  -- S_ISREG, `st_nlink`, whether `st_uid` is the daemon's, and S_IWOTH.
  stat_of : Bool → ℕ → Bool → Bool → Stat

abbrev pub stat_error : Stat → Option ℕ
stat_error (stat_failed e) = some e
stat_error (stat_of regular links own world_writable) =
    if not regular || not (links == 1) || not own || world_writable then some eperm else none

-- What `open` returns.
pub data Opened : Type 0 where
  opened : ℕ → Opened
  open_failed : ℕ → Opened

-- The result is the `errno` of a failure.
unfoldable pub log_open : Log → Option Text → Opened → Stat → Log × Option ℕ
unfolding path_is_absolute
log_open log none result st = (log, some einval)
log_open log (some path) result st =
    if not (path_is_absolute path) then (log, some einval) else elim result [
      | open_failed e ↦ (log, some e)
      | opened fd ↦ elim (stat_error st) [
        | some e ↦ (log, some e)
        | none ↦ (record { log_fd = some fd; write_failed = false; written = [] }, none)
      ]
    ]

unfoldable pub log_close : Log → Log
log_close log = record log { log_fd = none; write_failed = false }

-- What `write` returns: a number of bytes, of which it takes no more than it is given; EINTR; or
-- another error.
pub data Written : Type 0 where
  wrote : ℕ → Written
  write_interrupted write_error : Written

-- The loop with the results of its calls of `write`, and its last `offset`; `none` while it waits for
-- one more.
unfoldable pub write_loop : List Written → Text → ℕ → Log → Option (ℕ × Log)
write_loop [] line offset log = if ltb offset (length line) then none else some (offset, log)
write_loop (write_interrupted ∷ results) line offset log =
    let rest = write_loop results line offset log in
    if ltb offset (length line) then rest else some (offset, log)
write_loop (write_error ∷ results) line offset log =
    if ltb offset (length line)
    then some (offset, record log { write_failed = true })
    else some (offset, log)
write_loop (wrote n ∷ results) line offset log =
    let count = min n (length line - offset) in
    let rest =
      write_loop results line (offset + count)
        (record log { written = log.written ++ take count (drop offset line) }) in
    if not (ltb offset (length line))
    then some (offset, log)
    else if count == 0
    then some (offset, record log { write_failed = true })
    else rest

unfoldable pub severity : ℕ → Text
severity level =
    if ltb level 5
    then codes "DEBUG"
    else if level == 6
    then codes "WARNING"
    else if level == 7
    then codes "ERROR"
    else codes "INFO"

-- `line`, for the time in text and the process.
unfoldable pub log_line : Text → ℕ → ℕ → Text → Text
unfolding severity print_u str_has_suffix
log_line stamp pid level message =
    codes "["
    ++ stamp
    ++ codes "] pid="
    ++ print_u 20 pid
    ++ codes " level="
    ++ severity level
    ++ codes " "
    ++ message
    ++ (if str_has_suffix message (10 ∷ []) then [] else 10 ∷ [])

-- Behind the loop.
abbrev pub all_written : Text → ℕ × Log → Log
all_written line (offset, log) =
    if offset == length line then record log { write_failed = false } else log

abbrev pub after_loop : Text → Option (ℕ × Log) → Option Log
after_loop line none = none
after_loop line (some end) = some (all_written line end)

-- A line to the file, if it is open.
unfoldable pub write_line : Option ℕ → List Written → Text → Log → Option Log
unfolding write_loop
write_line none results line log = some log
write_line (some fd) results line log = after_loop line (write_loop results line 0 log)

-- Debug messages above the mode are dropped.
unfoldable pub is_dropped : ℕ → ℕ → Bool
is_dropped dbg_mode level = ltb level 5 && ltb dbg_mode level

unfoldable pub log_message : ℕ → Log → List Written → Text → ℕ → ℕ → Text → Option Log
unfolding is_dropped write_line log_line
log_message dbg_mode log results stamp pid level message =
    if is_dropped dbg_mode level
    then some log
    else write_line log.log_fd results (log_line stamp pid level message) log
