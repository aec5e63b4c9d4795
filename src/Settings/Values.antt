-- ===== src/Settings/Values.antt =====
-- The values of single keys in src/softgred_config.c: `read_bool`, `read_uint`, `read_string`, and
-- the `strtoul` that they use.
pub mod Decimal
use softgre.Shared.{
  ℕ, zero, suc, ◌+◌, ◌-◌, ◌*◌, ◌%◌, ◌^◌, Bool, true, false, not, ◌&&◌, ◌||◌, List, [], ◌∷◌, Option,
  none, some, ltb, leb, ◌==◌, if◌then◌else◌, length,
}
use softgre.Compat.{Text, codes, ascii_isdigit, trim_start, streq}
use softgre.Settings.Ini.{IniPair, ini_get, first_byte}

-- The digits at the front, as a number behind `acc`, and the rest.
unfoldable pub digits : ℕ → Text → ℕ × Text
digits acc [] = (acc, [])
digits acc (c ∷ s) =
    let more = digits (acc * 10 + (c - b'0')) s in if ascii_isdigit c then more else (acc, c ∷ s)

-- What `strtoul` with base 10 leaves: its value, the text at `end`, and whether `errno` is ERANGE.
pub record Strtoul : Type 0 where
  pub value : ℕ
  pub rest : Text
  pub out_of_range : Bool

-- A sign, if there is one, and the text behind it.
unfoldable pub sign : Text → Bool × Text
sign [] = (false, [])
sign (c ∷ s) = if c == b'-' then (true, s) else if c == b'+' then (false, s) else (false, c ∷ s)

-- The result for the number `found` and the text behind it. `unsigned long` has 64 bits; without
-- digits `end` is the whole text.
unfoldable pub finish_number : Text → Bool → Bool → ℕ × Text → Strtoul
finish_number text negative has_digit (found, rest) =
    if not has_digit
    then record { value = 0; rest = text; out_of_range = false }
    else if leb (2 ^ 64) found
    then record { value = 2 ^ 64 - 1; rest = rest; out_of_range = true }
    else if negative
    then record { value = (2 ^ 64 - found) % 2 ^ 64; rest = rest; out_of_range = false }
    else record { value = found; rest = rest; out_of_range = false }

-- Spaces, a sign and digits.
unfoldable pub strtoul : Text → Strtoul
unfolding digits sign trim_start first_byte finish_number
strtoul text =
    let (negative, unsigned) = sign (trim_start text) in
    finish_number text negative (ascii_isdigit (first_byte unsigned)) (digits 0 unsigned)

-- `ascii_isdigit(*text) && !errno && !*end`, with the number that `strtoul` returned.
unfoldable pub if_whole : Bool → Strtoul → Option ℕ
if_whole digit r = if digit && not r.out_of_range && length r.rest == 0 then some r.value else none

unfoldable pub whole_number : Text → Option ℕ
unfolding strtoul first_byte if_whole
whole_number text = if_whole (ascii_isdigit (first_byte text)) (strtoul text)

-- The result says whether the text was valid, and what `*value` is behind the call.
unfoldable pub read_bool : List IniPair → Text → Text → Bool → Bool × Bool
unfolding ini_get streq
read_bool ini group key value = elim (ini_get ini group key) [
  | none ↦ (true, value)
  | some text ↦
      let yes_text = streq text (codes "true") || streq text (codes "1") in
      if yes_text || streq text (codes "false") || streq text (codes "0")
      then (true, yes_text)
      else (false, value)
]

unfoldable pub number_between : ℕ → ℕ → Option ℕ → Option ℕ
number_between low high none = none
number_between low high (some n) = if leb low n && leb n high then some n else none

unfoldable pub read_uint : List IniPair → Text → Text → ℕ → ℕ → ℕ → Bool × ℕ
unfolding ini_get whole_number number_between
read_uint ini group key value low high = elim (ini_get ini group key) [
  | none ↦ (true, value)
  | some text ↦ elim (number_between low high (whole_number text)) [
    | none ↦ (false, value)
    | some parsed ↦ (true, parsed)
  ]
]

unfoldable pub read_string : List IniPair → Text → Text → Option Text → Option Text
unfolding ini_get
read_string ini group key fallback = elim (ini_get ini group key) [
  | none ↦ fallback
  | some text ↦ some text
]
