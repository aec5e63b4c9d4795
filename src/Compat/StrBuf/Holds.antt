-- ===== src/Compat/StrBuf/Holds.antt =====
-- `struct strbuf` of src/compat.c: what a buffer holds, and that every write stays inside its
-- allocation.
use mathlib.Core.List.{append_assoc, append-nil}
use softgre.Shared.{
  ℕ, zero, suc, ◌+◌, ◌-◌, ◌*◌, ◌≤◌, ◌<◌, ◌≡◌, refl, sym, ap, ◌∙◌, subst, false, [], ◌∷◌, ◌++◌, ltb,
  leb, arith, length, length-append, take-all, Bool-cases, inl, inr, leb→le, ltb-false, ok, ◌>>=◌,
  Returns, Returns-bind, Returns-if,
}
use softgre.Compat.{Text}
use softgre.Compat.StrBuf.{
  StrBuf, Allocator, write, double_to, keep_byte, xrealloc, strbuf_reserve, strbuf_append_len,
  strbuf_append, strbuf_appendf, strbuf_assign, strbuf_new,
}

-- The buffer holds a text: its bytes, a NUL behind them, and the rest of the allocation.
pub record Holds (text : Text) (b : StrBuf) : Type 0 where
  pub tail : Text
  pub layout : b.str ≡ text ++ 0 ∷ tail
  pub ends : b.len ≡ length text
  pub allocated : b.cap ≡ length b.str

-- A write that stays inside replaces as many bytes as it has.
write_over :
    (front s old behind : Text)
    → length old ≡ length s
    → write (front ++ (old ++ behind)) (length front) s ≡ ok (front ++ (s ++ behind))
unfolding write
write_over [] [] [] behind e = refl
write_over [] [] (o ∷ old) behind e = absurd (omega arith)
write_over [] (c ∷ s) [] behind e = absurd (omega arith)
write_over [] (c ∷ s) (o ∷ old) behind e =
    ap (keep_byte c) (write_over [] s old behind (omega arith))
write_over (m ∷ front) s old behind e = ap (keep_byte m) (write_over front s old behind e)

-- Enough rounds double a positive `want` up to `need`, and never below what it was.
double_to_Returns :
    (rounds want need : ℕ)
    → 1 ≤ want
    → need ≤ want + rounds
    → Returns (double_to rounds want need) (λ w. (need ≤ w) × (want ≤ w))
unfolding double_to
double_to_Returns zero want need pos enough =
    let e : ltb want need ≡ false = ltb-false want need (omega arith) in
    (want, rw e, (omega arith, omega arith))
double_to_Returns (suc rounds) want need pos enough = elim (Bool-cases (ltb want need)) [
  | inr e ↦ (want, rw e, (ground (arith, e), omega arith))
  | inl e ↦
      let (w, f, (h, k)) =
        double_to_Returns rounds (want * 2) need (omega arith) (omega (arith, pos, enough)) in
      (w, rw e f, (h, omega (arith, k)))
]

-- Memory with room for `n` bytes and the NUL.
record Room (n : ℕ) (mem : Text) : Type 0 where
  old : Text
  closing : ℕ
  rest : Text
  parts : mem ≡ old ++ (closing ∷ rest)
  length_old : length old ≡ n

split_at : (n : ℕ) (mem : Text) → n < length mem → Room n mem
split_at n [] h = absurd (omega arith)
split_at zero (c ∷ mem) h = record {
  old = [];
  closing = c;
  rest = mem;
  parts = refl;
  length_old = refl;
}
split_at (suc n) (c ∷ mem) h =
    let r = split_at n mem (omega arith) in
    record {
      old = c ∷ r.old;
      closing = r.closing;
      rest = r.rest;
      parts = ap (λ t. c ∷ t) r.parts;
      length_old = ap suc r.length_old;
    }

free_behind :
    (text : Text) (b : StrBuf) (n : ℕ) (h : Holds text b)
    → length text + n + 1 ≤ length b.str
    → Room n (0 ∷ h.tail)
free_behind text b n h fits =
    let used = ap length h.layout ∙ length-append text (0 ∷ h.tail) in
    split_at n (0 ∷ h.tail) (omega (arith, fits, used))

used_and_free :
    (text s : Text) (b : StrBuf) (h : Holds text b) (r : Room (length s) (0 ∷ h.tail))
    → length b.str ≡ length text + length s + 1 + length r.rest
used_and_free text s b h r =
    ap length h.layout
    ∙ ap (λ t. length (text ++ t)) r.parts
    ∙ omega (
      arith,
      r.length_old,
      length-append text (r.old ++ (r.closing ∷ r.rest)),
      length-append r.old (r.closing ∷ r.rest),
    )

-- The two writes of `strbuf_append_len` into a buffer with room.
copy_and_close :
    (text s : Text) (b : StrBuf) (h : Holds text b)
    → Room (length s) (0 ∷ h.tail)
    → Returns
        (write b.str b.len s >>= (λ copied.
          write copied (b.len + length s) (0 ∷ [])
          >>= (λ closed. ok (record b { str = closed; len = b.len + length s }))))
        (Holds (text ++ s))
copy_and_close text s b h r =
    let start : b.str ≡ text ++ (r.old ++ (r.closing ∷ r.rest)) =
      h.layout ∙ ap (λ t. text ++ t) r.parts in
    let copied : write b.str b.len s ≡ ok (text ++ (s ++ (r.closing ∷ r.rest))) =
      rw (start, h.ends) (write_over text s r.old (r.closing ∷ r.rest) r.length_old) in
    let closed : write (text ++ (s ++ (r.closing ∷ r.rest))) (b.len + length s) (0 ∷ [])
        ≡ ok ((text ++ s) ++ (0 ∷ r.rest)) =
      rw (h.ends, ← length-append text s, ← append_assoc text s (r.closing ∷ r.rest))
        (write_over (text ++ s) (0 ∷ []) (r.closing ∷ []) r.rest refl) in
    (
      record b { str = (text ++ s) ++ (0 ∷ r.rest); len = b.len + length s },
      rw (copied, ◌>>=◌, closed, ◌>>=◌),
      record {
        tail = r.rest;
        layout = refl;
        ends = rw (h.ends, length-append text s);
        allocated = omega (
          arith,
          h.allocated,
          used_and_free text s b h r,
          length-append text s,
          length-append (text ++ s) (0 ∷ r.rest),
        );
      },
    )

-- The write of `strbuf_appendf`.
print_over :
    (text s : Text) (b : StrBuf) (h : Holds text b)
    → Room (length s) (0 ∷ h.tail)
    → Returns
        (write b.str b.len (s ++ 0 ∷ [])
          >>= (λ printed. ok (record b { str = printed; len = b.len + length s })))
        (Holds (text ++ s))
print_over text s b h r =
    let start : b.str ≡ text ++ ((r.old ++ (r.closing ∷ [])) ++ r.rest) =
      h.layout ∙ ap (λ t. text ++ t) (r.parts ∙ sym (append_assoc r.old (r.closing ∷ []) r.rest)) in
    let same : length (r.old ++ (r.closing ∷ [])) ≡ length (s ++ (0 ∷ [])) =
      omega (arith, r.length_old, length-append r.old (r.closing ∷ []), length-append s (0 ∷ [])) in
    let printed : write b.str b.len (s ++ (0 ∷ [])) ≡ ok (text ++ ((s ++ (0 ∷ [])) ++ r.rest)) =
      rw (start, h.ends)
        (write_over text (s ++ (0 ∷ [])) (r.old ++ (r.closing ∷ [])) r.rest same) in
    let flat : text ++ ((s ++ (0 ∷ [])) ++ r.rest) ≡ (text ++ s) ++ (0 ∷ r.rest) =
      simp append_assoc in
    (
      record b { str = text ++ ((s ++ (0 ∷ [])) ++ r.rest); len = b.len + length s },
      rw (printed, ◌>>=◌),
      record {
        tail = r.rest;
        layout = flat;
        ends = rw (h.ends, length-append text s);
        allocated = omega (
          arith,
          h.allocated,
          used_and_free text s b h r,
          length-append text s,
          ap length flat,
          length-append (text ++ s) (0 ∷ r.rest),
        );
      },
    )

nothing_behind : (text s : Text) → ltb 0 (length s) ≡ false → text ≡ text ++ s
nothing_behind text [] e = sym (append-nil text)
nothing_behind text (c ∷ s) e = ground arith

-- The NUL at the start of an allocation.
emptied :
    (mem : Text)
    → 1 ≤ length mem
    → (tail : Text) × (write mem 0 (0 ∷ []) ≡ ok (0 ∷ tail)) × (length mem ≡ suc (length tail))
unfolding write
emptied [] h = absurd (omega arith)
emptied (c ∷ mem) h = (mem, refl, refl)

module _ (alloc : Allocator) where
  xrealloc_grows :
      (old : Text) (size : ℕ)
      → length old ≤ size
      → (xrealloc alloc old size ≡ old ++ alloc.bytes (size - length old))
        × (length (xrealloc alloc old size) ≡ size)
  xrealloc_grows old size h =
      let e = ap (λ t. t ++ alloc.bytes (size - length old)) (take-all size old h) in
      (
        e,
        ap length e
            ∙ omega (
              arith,
              h,
              length-append old (alloc.bytes (size - length old)),
              alloc.length-bytes (size - length old),
            ),
      )

  strbuf_reserve-Holds :
      (text : Text) (b : StrBuf) (extra : ℕ)
      → Holds text b
      → Returns
          (strbuf_reserve alloc b extra)
          (λ b'. Holds text b' × (length text + extra + 1 ≤ length b'.str))
  unfolding strbuf_reserve
  strbuf_reserve-Holds text b extra h =
      let used = ap length h.layout ∙ length-append text (0 ∷ h.tail) in
      Returns-if (leb (b.len + extra + 1) b.cap)
        (λ e.
          (b, refl, (h, omega (arith, leb→le (b.len + extra + 1) b.cap e, h.allocated, h.ends))))
        (λ e.
          Returns-bind
            (double_to_Returns (b.len + extra + 1) b.cap (b.len + extra + 1)
              (omega (arith, h.allocated, used)) (omega arith))
            (λ want (enough, more).
              let (grown, size) = xrealloc_grows b.str want (omega (arith, more, h.allocated)) in
              let room = alloc.bytes (want - length b.str) in
              (
                _,
                refl,
                (
                  record {
                    tail = h.tail ++ room;
                    layout =
                        grown ∙ ap (λ t. t ++ room) h.layout ∙ append_assoc text (0 ∷ h.tail) room;
                    ends = h.ends;
                    allocated = sym size;
                  },
                  omega (arith, enough, size, h.ends),
                ),
              )))

  -- On a buffer that holds a text, `strbuf_append_len` returns, so that neither the copy nor the NUL
  -- is written outside the allocation, and the buffer then holds the text with the new bytes behind
  -- it.
  pub strbuf_append_len-Holds :
      (text s : Text) (b : StrBuf)
      → Holds text b
      → Returns (strbuf_append_len alloc b s) (Holds (text ++ s))
  unfolding strbuf_append_len
  strbuf_append_len-Holds text s b h =
      Returns-bind (strbuf_reserve-Holds text b (length s) h)
        (λ b1 (h1, fits). copy_and_close text s b1 h1 (free_behind text b1 (length s) h1 fits))

  -- On a buffer that holds a text, `strbuf_appendf` returns, so that what `vsnprintf` prints stays
  -- inside the allocation, and the buffer then holds the text with the printed one behind it.
  pub strbuf_appendf-Holds :
      (text s : Text) (b : StrBuf)
      → Holds text b
      → Returns (strbuf_appendf alloc b s) (Holds (text ++ s))
  unfolding strbuf_appendf
  strbuf_appendf-Holds text s b h =
      Returns-if (ltb 0 (length s))
        (λ e.
          Returns-bind (strbuf_reserve-Holds text b (length s) h)
            (λ b1 (h1, fits). print_over text s b1 h1 (free_behind text b1 (length s) h1 fits)))
        (λ e. (b, refl, subst (λ t. Holds t b) (nothing_behind text s e) h))

  pub strbuf_assign-Holds :
      (text s : Text) (b : StrBuf) → Holds text b → Returns (strbuf_assign alloc b s) (Holds s)
  unfolding strbuf_assign strbuf_append
  strbuf_assign-Holds text s b h =
      let used = ap length h.layout ∙ length-append text (0 ∷ h.tail) in
      let (tail, e, size) = emptied b.str (omega (arith, used)) in
      rw (e, ◌>>=◌)
        (strbuf_append_len-Holds [] s (record b { str = 0 ∷ tail; len = 0 })
          (record { tail = tail; layout = refl; ends = refl; allocated = h.allocated ∙ size }))

  pub strbuf_new-Holds : Returns (strbuf_new alloc) (Holds [])
  unfolding strbuf_new
  strbuf_new-Holds =
      let bytes = alloc.length-bytes 64 in
      let (tail, e, size) = emptied (alloc.bytes 64) (omega (arith, bytes)) in
      rw (e, ◌>>=◌)
        (_, refl, record { tail = tail; layout = refl; ends = refl; allocated = sym bytes ∙ size })
