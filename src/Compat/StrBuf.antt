-- ===== src/Compat/StrBuf.antt =====
-- `struct strbuf` of src/compat.c: a text that grows. `str` is its allocation, byte by byte. Sizes do
-- not wrap: an allocation of half the addresses fails first.
pub mod Holds
use softgre.Shared.{
  ℕ, zero, suc, ◌+◌, ◌-◌, ◌*◌, ◌≤◌, ◌<◌, ◌≡◌, refl, sym, ap, ◌∙◌, subst, true, false, List, [], ◌∷◌,
  ◌++◌, ltb, leb, ◌==◌, if◌then◌else◌, arith, length, length-append, take, take-all, Bool-cases,
  inl, inr, leb→le, leb-false, ltb-false, lt→ltb, Run, ok, fault, ◌>>=◌, Returns, Returns-bind,
  Returns-if,
}
use softgre.Compat.{Text}

pub record StrBuf : Type 0 where
  pub str : Text
  pub len : ℕ
  pub cap : ℕ

-- The bytes of a new allocation, which C leaves open.
pub record Allocator : Type 0 where
  pub bytes : ℕ → Text
  pub length-bytes : (n : ℕ) → length (bytes n) ≡ n

abbrev pub keep_byte : ℕ → Run Text → Run Text
keep_byte c fault = fault
keep_byte c (ok s) = ok (c ∷ s)

-- `memcpy` to an offset: it faults outside the allocation.
unfoldable pub write : Text → ℕ → Text → Run Text
write mem zero [] = ok mem
write [] zero (c ∷ s) = fault
write (m ∷ mem) zero (c ∷ s) = keep_byte c (write mem zero s)
write [] (suc off) s = fault
write (m ∷ mem) (suc off) s = keep_byte m (write mem off s)

-- The loop of `strbuf_reserve` that doubles `want`.
unfoldable pub double_to : ℕ → ℕ → ℕ → Run ℕ
double_to zero want need = if ltb want need then fault else ok want
double_to (suc rounds) want need =
    let rest = double_to rounds (want * 2) need in if ltb want need then rest else ok want

module _ (alloc : Allocator) where
  abbrev pub xrealloc : Text → ℕ → Text
  xrealloc old size = take size old ++ alloc.bytes (size - length old)

  unfoldable pub strbuf_reserve : StrBuf → ℕ → Run StrBuf
  unfolding double_to
  strbuf_reserve b extra = if leb (b.len + extra + 1) b.cap then ok b else do
    want ← double_to (b.len + extra + 1) b.cap (b.len + extra + 1)
    ok (record b { str = xrealloc b.str want; cap = want })

  unfoldable pub strbuf_append_len : StrBuf → Text → Run StrBuf
  unfolding strbuf_reserve write
  strbuf_append_len b s = do
    b1 ← strbuf_reserve b (length s)
    copied ← write b1.str b1.len s
    closed ← write copied (b1.len + length s) (0 ∷ [])
    ok (record b1 { str = closed; len = b1.len + length s })

  unfoldable pub strbuf_append : StrBuf → Text → Run StrBuf
  unfolding strbuf_append_len
  strbuf_append b s = strbuf_append_len b s

  unfoldable pub strbuf_append_char : StrBuf → ℕ → Run StrBuf
  unfolding strbuf_append_len
  strbuf_append_char b c = strbuf_append_len b (c ∷ [])

  -- `text` is what `vsnprintf` prints for the format and its arguments.
  unfoldable pub strbuf_appendf : StrBuf → Text → Run StrBuf
  unfolding strbuf_reserve write
  strbuf_appendf b text =
      if ltb 0 (length text)
      then (do
        b1 ← strbuf_reserve b (length text)
        printed ← write b1.str b1.len (text ++ 0 ∷ [])
        ok (record b1 { str = printed; len = b1.len + length text }))
      else ok b

  unfoldable pub strbuf_assign : StrBuf → Text → Run StrBuf
  unfolding strbuf_append write
  strbuf_assign b s = do
    emptied ← write b.str 0 (0 ∷ [])
    strbuf_append (record b { str = emptied; len = 0 }) s

  -- `strbuf_new(NULL)`
  unfoldable pub strbuf_new : Run StrBuf
  unfolding write
  strbuf_new = do
    emptied ← write (alloc.bytes 64) 0 (0 ∷ [])
    ok (record { str = emptied; len = 0; cap = 64 })
