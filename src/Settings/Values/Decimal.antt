-- ===== src/Settings/Values/Decimal.antt =====
-- The numbers that `read_uint` and the lists of src/softgred_config.c accept.
use softgre.Shared.{
  ℕ, ◌+◌, ◌-◌, ◌*◌, ◌^◌, ◌≤◌, ◌<◌, ◌≡◌, refl, ap, ◌∙◌, Bool, true, false, not, ◌&&◌, List, [], ◌∷◌,
  Option, none, some, arith, ltb, leb, ◌==◌, if◌then◌else◌, length, Bool-cases, Option-cases, inl,
  inr,
}
use native.Mathlib.Nat.{pow-suc, mul_assoc, mul_comm, add-mul}
use softgre.Compat.{Text, ascii_isdigit, isspace, trim_start}
use softgre.Settings.Ini.{IniPair, ini_get, first_byte}
use softgre.Settings.Values.{
  digits, Strtoul, sign, strtoul, finish_number, if_whole, whole_number, read_uint, number_between,
}

unfoldable pub all_digits : Text → Bool
all_digits [] = true
all_digits (c ∷ s) = ascii_isdigit c && all_digits s

-- The number that a text of digits stands for.
unfoldable pub decimal : Text → ℕ
decimal [] = 0
decimal (c ∷ s) = (c - b'0') * 10 ^ length s + decimal s

digits_lem :
    (acc : ℕ) (s : Text)
    → all_digits s ≡ true
    → digits acc s ≡ (acc * 10 ^ length s + decimal s, [])
unfolding digits all_digits decimal
digits_lem acc [] h = ap (λ (n : ℕ). (n, [])) (omega arith)
digits_lem acc (c ∷ s) h =
    let d : ascii_isdigit c ≡ true = ground arith in
    rw (d, digits_lem (acc * 10 + (c - b'0')) s (ground arith))
      (ap (λ (n : ℕ). (n, []))
        (omega (
          arith,
          ap (λ (n : ℕ). acc * n) (pow-suc 10 (length s)),
          add-mul (acc * 10) (c - b'0') (10 ^ length s),
          mul_assoc acc 10 (10 ^ length s),
          mul_comm 10 (10 ^ length s),
          mul_assoc acc (10 ^ length s) 10,
        )))

digits-rest : (acc : ℕ) (s : Text) → all_digits s ≡ false → length (digits acc s).1 == 0 ≡ false
unfolding digits all_digits
digits-rest acc [] h = cc
digits-rest acc (c ∷ s) h = ground (arith, digits-rest (acc * 10 + (c - b'0')) s)

-- What `strtoul` does with a text that starts with a digit.
strtoul-digit :
    (c : ℕ) (s : Text)
    → ascii_isdigit c ≡ true
    → (trim_start (c ∷ s) ≡ c ∷ s) × (sign (c ∷ s) ≡ (false, c ∷ s))
unfolding trim_start isspace sign
strtoul-digit c s h =
    let no_space : isspace c ≡ false = ground arith in
    let no_minus : c == b'-' ≡ false = ground arith in
    let no_plus : c == b'+' ≡ false = ground arith in (rw no_space, rw (no_minus, no_plus))

strtoul_lem :
    (c : ℕ) (s : Text)
    → ascii_isdigit c ≡ true
    → strtoul (c ∷ s) ≡ finish_number (c ∷ s) false true (digits 0 (c ∷ s))
unfolding strtoul first_byte
strtoul_lem c s h = let (p, q) = strtoul-digit c s h in rw (p, q, h)

finish_number-rest :
    (text : Text) (found : ℕ × Text)
    → length found.1 == 0 ≡ false
    → length (finish_number text false true found).rest == 0 ≡ false
unfolding finish_number
finish_number-rest text (n, rest) h = elim (Bool-cases (leb (2 ^ 64) n)) [
  | inl big ↦ rw big h
  | inr small ↦ rw small h
]

-- The number of a text of digits, if it has a digit and fits 64 bits.
unfoldable pub number_of : Text → Option ℕ
unfolding all_digits decimal
number_of text =
    if not (length text == 0) && all_digits text && ltb (decimal text) (2 ^ 64)
    then some (decimal text)
    else none

if_whole-rest : (digit : Bool) (r : Strtoul) → length r.rest == 0 ≡ false → if_whole digit r ≡ none
unfolding if_whole
if_whole-rest true r h = ground arith
if_whole-rest false r h = refl

pub whole_number-number_of : (text : Text) → whole_number text ≡ number_of text
unfolding whole_number first_byte number_of
whole_number-number_of [] = refl
whole_number-number_of (c ∷ s) = elim (Bool-cases (ascii_isdigit c)) [
  | inr other ↦ rw other (ground arith)
  | inl digit ↦ elim (Bool-cases (all_digits s)) [
    | inr more ↦
        let no : all_digits (c ∷ s) ≡ false = rw (all_digits, digit) more in
        let left = digits-rest 0 (c ∷ s) no in
        let cut = finish_number-rest (c ∷ s) (digits 0 (c ∷ s)) left in
        let whole_rest : length (strtoul (c ∷ s)).rest == 0 ≡ false =
          rw (strtoul_lem c s digit) cut in
        let none_left : whole_number (c ∷ s) ≡ none =
          if_whole-rest (ascii_isdigit c) (strtoul (c ∷ s)) whole_rest in
        none_left ∙ rw (number_of, no, all_digits) (ground arith)
    | inl all ↦
        let yes : all_digits (c ∷ s) ≡ true = rw (all_digits, digit) all in
        let value = digits_lem 0 (c ∷ s) yes in
        let e = strtoul_lem c s digit ∙ ap (finish_number (c ∷ s) false true) value in
        rw (whole_number, e, digit, all) (ground arith)
  ]
]

-- The texts that a range accepts.
unfoldable pub in_range : ℕ → ℕ → Text → Bool
unfolding all_digits decimal
in_range low high text =
    not (length text == 0) && all_digits text && leb low (decimal text) && leb (decimal text) high

pub number_between-whole_number :
    (low high : ℕ) (text : Text)
    → high < 2 ^ 64
    → number_between low high (whole_number text)
      ≡ (if in_range low high text then some (decimal text) else none)
unfolding number_between number_of in_range
number_between-whole_number low high text h =
    rw (whole_number-number_of text)
      (elim (Bool-cases (not (length text == 0) && all_digits text)) [
        | inl e ↦ rw e (ground arith)
        | inr e ↦ rw e (ground arith)
      ])

-- A key that is present is accepted exactly if its text is a nonempty run of decimal digits whose
-- number, of any size, is in the range, and then the value is that number; a refused or missing key
-- leaves the value as it was, and only a refused one fails.
pub read_uint-decimal :
    (ini : List IniPair) (group key : Text) (value low high : ℕ)
    → high < 2 ^ 64
    → read_uint ini group key value low high ≡ elim (ini_get ini group key) [
      | none ↦ (true, value)
      | some text ↦ if in_range low high text then (true, decimal text) else (false, value)
    ]
unfolding read_uint
read_uint-decimal ini group key value low high h = elim (Option-cases (ini_get ini group key)) [
  | inl e ↦ rw (read_uint, e)
  | inr (text, e) ↦
      rw (read_uint, e, number_between-whole_number low high text h)
        (elim (Bool-cases (in_range low high text)) [ inl f ↦ rw f | inr f ↦ rw f ])
]

pub in_range-bounds :
    (low high : ℕ) (text : Text)
    → in_range low high text ≡ true
    → (low ≤ decimal text) × (decimal text ≤ high)
unfolding in_range
in_range-bounds low high text h = ground arith
