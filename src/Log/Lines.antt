-- ===== src/Log/Lines.antt =====
-- The lines that src/log.c writes to its file.
use mathlib.Core.List.{append_assoc, append-nil}
use softgre.Shared.{
  ℕ, zero, suc, ◌+◌, ◌-◌, ◌≤◌, ◌≡◌, refl, sym, ap, ◌∙◌, Bool, true, false, List, [], ◌∷◌, ◌++◌,
  Option, none, some, ltb, ◌==◌, arith, length, take, drop, min, Bool-cases, ◌⊎◌, inl, inr,
}
use softgre.Compat.{Text}
use softgre.Log.{
  Log, Written, wrote, write_interrupted, write_error, write_loop, log_line, all_written,
  after_loop, write_line, is_dropped, log_message,
}

-- The results besides EINTR.
abbrev pub answers : List Written → ℕ
answers [] = 0
answers (write_interrupted ∷ results) = answers results
answers (write_error ∷ results) = suc (answers results)
answers (wrote n ∷ results) = suc (answers results)

abbrev no_bytes : Text
no_bytes = []

take-nil : (n : ℕ) → take n [] ≡ no_bytes
take-nil zero = refl
take-nil (suc n) = refl

take_more : (n c m : ℕ) (xs : Text) → m ≡ n + c → take n xs ++ take c (drop n xs) ≡ take m xs
take_more zero c m xs e = let f : c ≡ m = omega (arith, e) in ap (λ i. take i xs) f
take_more (suc n) c zero xs e = absurd (omega arith)
take_more (suc n) c (suc m) [] e = take-nil c
take_more (suc n) c (suc m) (x ∷ xs) e = ap (λ t. x ∷ t) (take_more n c m xs (omega (arith, e)))

-- Where the loop ends: with the line up to its offset behind what the file had, and with the whole of
-- it or the flag of a failure.
record Ended (base line : Text) (fd : Option ℕ) (x : ℕ × Log) : Type 0 where
  inside : x.0 ≤ length line
  file : x.1.written ≡ base ++ take x.0 line
  same_fd : x.1.log_fd ≡ fd
  whole : (x.0 ≡ length line) ⊎ (x.1.write_failed ≡ true)

-- The end of the loop where the line is written.
loop_over :
    (results : List Written) (base line : Text) (offset : ℕ) (log : Log)
    → ltb offset (length line) ≡ false
    → offset ≤ length line
    → log.written ≡ base ++ take offset line
    → (x : ℕ × Log) × (write_loop results line offset log ≡ some x) × Ended base line log.log_fd x
unfolding write_loop
loop_over results base line offset log e le file = (
  (offset, log),
  at_end results,
  record { inside = le; file = file; same_fd = refl; whole = inl (ground (arith, e, le)) },
)
  where
    at_end : (results : List Written) → write_loop results line offset log ≡ some (offset, log)
    at_end [] = rw e
    at_end (write_interrupted ∷ results) = rw e
    at_end (write_error ∷ results) = rw e
    at_end (wrote n ∷ results) = rw e

-- What a call of `write` adds.
file_grows :
    (base line : Text) (log : Log) (offset count : ℕ)
    → log.written ≡ base ++ take offset line
    → log.written ++ take count (drop offset line) ≡ base ++ take (offset + count) line
file_grows base line log offset count file =
    ap (λ t. t ++ take count (drop offset line)) file
    ∙ append_assoc base (take offset line) (take count (drop offset line))
    ∙ ap (λ t. base ++ t) (take_more offset count (offset + count) line refl)

write_loop-Ended :
    (results : List Written) (base line : Text) (offset : ℕ) (log : Log)
    → offset ≤ length line
    → length line ≤ offset + answers results
    → log.written ≡ base ++ take offset line
    → (x : ℕ × Log) × (write_loop results line offset log ≡ some x) × Ended base line log.log_fd x
unfolding write_loop
write_loop-Ended [] base line offset log le enough file =
    loop_over [] base line offset log (ground (arith, enough)) le file
write_loop-Ended (write_interrupted ∷ results) base line offset log le enough file =
    elim (Bool-cases (ltb offset (length line))) [
      | inr e ↦ loop_over (write_interrupted ∷ results) base line offset log e le file
      | inl e ↦ rw e (write_loop-Ended results base line offset log le enough file)
    ]
write_loop-Ended (write_error ∷ results) base line offset log le enough file =
    elim (Bool-cases (ltb offset (length line))) [
      | inr e ↦ loop_over (write_error ∷ results) base line offset log e le file
      | inl e ↦ (
        (offset, record log { write_failed = true }),
        rw e,
        record { inside = le; file = file; same_fd = refl; whole = inr refl },
      )
    ]
write_loop-Ended (wrote n ∷ results) base line offset log le enough file =
    elim (Bool-cases (ltb offset (length line))) [
      | inr e ↦ loop_over (wrote n ∷ results) base line offset log e le file
      | inl e ↦
          let count = min n (length line - offset) in
          elim (Bool-cases (count == 0)) [
            | inl f ↦ (
              (offset, record log { write_failed = true }),
              rw (e, f),
              record { inside = le; file = file; same_fd = refl; whole = inr refl },
            )
            | inr f ↦
                rw (e, f)
                  (write_loop-Ended results base line (offset + count)
                    (record log { written = log.written ++ take count (drop offset line) })
                    (omega (arith, le))
                    (let g : 1 ≤ count = ground arith in omega (arith, g, enough))
                    (file_grows base line log offset count file))
          ]
    ]

-- A line that went to the file as far as its first failure.
pub record Logged (line : Text) (log log' : Log) : Type 0 where
  pub count : ℕ
  pub inside : count ≤ length line
  pub file : log'.written ≡ log.written ++ take count line
  pub same_fd : log'.log_fd ≡ log.log_fd
  pub all_of_it : log'.write_failed ≡ false → count ≡ length line
  pub no_flag : count ≡ length line → log'.write_failed ≡ false

all_written-Logged :
    (line : Text) (log : Log) (x : ℕ × Log)
    → Ended log.written line log.log_fd x
    → Logged line log (all_written line x)
all_written-Logged line log (offset, log') h = elim (Bool-cases (offset == length line)) [
  | inl e ↦
      let same : offset ≡ length line = ground (arith, e) in
      rw e (record {
        count = offset;
        inside = h.inside;
        file = h.file;
        same_fd = h.same_fd;
        all_of_it = λ _. same;
        no_flag = λ _. refl;
      })
  | inr e ↦
      let differ : ¬ (offset ≡ length line) = λ q. ground (arith, e, q) in
      rw e (record {
        count = offset;
        inside = h.inside;
        file = h.file;
        same_fd = h.same_fd;
        all_of_it = λ f. elim h.whole [ inl q ↦ q | inr g ↦ let z = g in cc ];
        no_flag = λ q. absurd (differ q);
      })
]

write_line-Logged :
    (line : Text) (results : List Written) (log : Log) (fd : Option ℕ)
    → log.log_fd ≡ fd
    → length line ≤ answers results
    → (log' : Log) × (write_line fd results line log ≡ some log')
      × (log.log_fd ≡ none → log' ≡ log)
      × ((n : ℕ) → log.log_fd ≡ some n → Logged line log log')
unfolding write_line
write_line-Logged line results log none e enough =
    (log, refl, λ _. refl, λ n f. let z : none ≡ some n = sym e ∙ f in cc)
write_line-Logged line results log (some fd) e enough =
    let start : log.written ≡ log.written ++ [] = sym (append-nil log.written) in
    let (x, q, h) =
      write_loop-Ended results log.written line 0 log (omega arith) (omega (arith, enough)) start in
    (
      all_written line x,
      ap (after_loop line) q,
      λ f. let z : none ≡ some fd = sym f ∙ e in cc,
      λ n f. all_written-Logged line log x h,
    )

-- What `log_message` does to the file, by its level and whether a file is open.
pub record Outcome (dropped : Bool) (line : Text) (log log' : Log) : Type 0 where
  pub when_dropped : dropped ≡ true → log' ≡ log
  pub when_closed : log.log_fd ≡ none → log' ≡ log
  pub when_open : (fd : ℕ) → dropped ≡ false → log.log_fd ≡ some fd → Logged line log log'

-- If `write` gives as many results besides EINTR as the line has bytes, `log_message` returns. A debug
-- message above the mode, and any message without an open file, leaves the file and the flag for a
-- failed write as they were. Otherwise the file has a front part of the line behind what it had, and
-- the flag is clear exactly if that is the whole line.
pub log_message-Outcome :
    (dbg_mode : ℕ) (log : Log) (results : List Written) (stamp : Text) (pid level : ℕ)
    (message : Text)
    → length (log_line stamp pid level message) ≤ answers results
    → (log' : Log) × (log_message dbg_mode log results stamp pid level message ≡ some log')
      × Outcome (is_dropped dbg_mode level) (log_line stamp pid level message) log log'
unfolding log_message
log_message-Outcome dbg_mode log results stamp pid level message enough =
    elim (Bool-cases (is_dropped dbg_mode level)) [
      | inl e ↦ (
        log,
        rw e,
        record {
          when_dropped = λ _. refl;
          when_closed = λ _. refl;
          when_open = λ fd f. let z : true ≡ false = sym e ∙ f in cc;
        },
      )
      | inr e ↦
          let line = log_line stamp pid level message in
          let (log', q, silent, logged) =
            write_line-Logged line results log log.log_fd refl enough in
          (
            log',
            rw e q,
            record {
              when_dropped = λ f. let z : true ≡ false = sym f ∙ e in cc;
              when_closed = silent;
              when_open = λ fd _ f. logged fd f;
            },
          )
    ]
