-- ===== src/Settings/Ini/Pairs.antt =====
-- The pairs that the INI reader of src/softgred_config.c accepts.
use softgre.Shared.{
  ℕ, ◌+◌, ◌-◌, ◌≤◌, ◌<◌, ◌≡◌, refl, Bool, true, false, ◌||◌, List, [], ◌∷◌, ◌++◌, Option, none,
  some, arith, ◌==◌, if◌then◌else◌, length, length-take, take, drop, Option-cases, inl, inr,
}
use softgre.Compat.{Text, strchr, str_trim}
use softgre.Compat.Split.{has_byte}
use softgre.Compat.Trim.{starts_blank, ends_blank, str_trim-Trims}
use softgre.Settings.Ini.{
  IniPair, IniError, IniFile, Loaded, done, failed, ◌>>=◌, group_size, first_byte, read_header,
  read_pair, read_line, read_lines, ini_load,
}

-- A text without spaces around it.
pub record IsTrimmed (t : Text) : Type 0 where
  pub first : starts_blank t ≡ false
  pub last : ends_blank t ≡ false

pub record IsPair (p : IniPair) : Type 0 where
  pub group_short : length p.group < group_size
  pub key_some : 1 ≤ length p.key
  pub key_trimmed : IsTrimmed p.key
  pub value_trimmed : IsTrimmed p.value

abbrev pub AllPairs : List IniPair → Type 0
AllPairs [] = Unit
AllPairs (p ∷ pairs) = IsPair p × AllPairs pairs

-- What holds of a result, unless it is a failure.
abbrev pub IfDone : {A : Type 0} → (A → Type 0) → Loaded A → Type 0
IfDone P (done a) = P a
IfDone P (failed e) = Unit

IfDone-bind :
    {A B : Type 0} (P : A → Type 0) (Q : B → Type 0) (r : Loaded A) (next : A → Loaded B)
    → IfDone P r
    → ((a : A) → P a → IfDone Q (next a))
    → IfDone Q (r >>= next)
IfDone-bind P Q (done a) next p f = f a p
IfDone-bind P Q (failed e) next p f = tt

IfDone-if :
    {A : Type 0} (P : A → Type 0) (c : Bool) (x y : Loaded A)
    → (c ≡ true → IfDone P x)
    → (c ≡ false → IfDone P y)
    → IfDone P (if c then x else y)
IfDone-if P true x y p q = p refl
IfDone-if P false x y p q = q refl

str_trim-IsTrimmed : (s : Text) → IsTrimmed (str_trim s)
str_trim-IsTrimmed s = let t = str_trim-Trims s in record { first = t.first; last = t.last }

AllPairs-append :
    (pairs : List IniPair) (p : IniPair) → AllPairs pairs → IsPair p → AllPairs (pairs ++ p ∷ [])
AllPairs-append [] p a h = (h, tt)
AllPairs-append (q ∷ pairs) p (g, a) h = (g, AllPairs-append pairs p a h)

read_header-short :
    (number : ℕ) (s : Text) → IfDone (λ name. length name < group_size) (read_header number s)
unfolding read_header
read_header-short number s = elim (Option-cases (strchr s b']')) [
  | inl e ↦ rw (read_header, e) tt
  | inr ((before, after), e) ↦
      rw (read_header, e)
        (IfDone-if (λ (name : Text). length name < group_size) _
          (failed (IniError.invalid_group number)) (done (take (group_size - 1) (drop 1 before)))
          (λ h. tt) (λ h. omega (arith, length-take (group_size - 1) (drop 1 before))))
]

read_pair-IsPair :
    (number : ℕ) (group s : Text)
    → length group < group_size
    → IfDone IsPair (read_pair number group s)
unfolding read_pair
read_pair-IsPair number group s short = elim (Option-cases (strchr s b'=')) [
  | inl e ↦ rw (read_pair, e) tt
  | inr ((before, after), e) ↦
      rw (read_pair, e)
        (IfDone-if IsPair (length before == 0) _ _ (λ h. tt)
          (λ h.
            IfDone-if IsPair (length (str_trim before) == 0) _ _ (λ k. tt)
              (λ k. record {
                group_short = short;
                key_some = ground (arith, k);
                key_trimmed = str_trim-IsTrimmed before;
                value_trimmed = str_trim-IsTrimmed after;
              })))
]

-- The group and the pairs so far.
abbrev InOrder : Text × List IniPair → Type 0
InOrder s = (length s.0 < group_size) × AllPairs s.1

read_line-InOrder :
    (number : ℕ) (group : Text) (pairs : List IniPair) (line : Text)
    → InOrder (group, pairs)
    → IfDone InOrder (read_line number group pairs line)
unfolding read_line
read_line-InOrder number group pairs line (short, a) =
    let s = str_trim line in
    IfDone-if InOrder (has_byte line 0) _ _ (λ h. tt)
      (λ h.
        IfDone-if InOrder (first_byte s == 0 || first_byte s == b'#' || first_byte s == b';') _ _
          (λ k. (short, a))
          (λ k.
            IfDone-if InOrder (first_byte s == b'[') _ _
              (λ j.
                IfDone-bind (λ (name : Text). length name < group_size) InOrder
                  (read_header number s) (λ name. done (name, pairs)) (read_header-short number s)
                  (λ name n. (n, a)))
              (λ j.
                IfDone-bind IsPair InOrder (read_pair number group s)
                  (λ pair. done (group, pairs ++ pair ∷ [])) (read_pair-IsPair number group s short)
                  (λ pair w. (short, AllPairs-append pairs pair a w)))))

read_lines-AllPairs :
    (number : ℕ) (group : Text) (pairs : List IniPair) (lines : List Text)
    → InOrder (group, pairs)
    → IfDone AllPairs (read_lines number group pairs lines)
unfolding read_lines
read_lines-AllPairs number group pairs [] (short, a) = a
read_lines-AllPairs number group pairs (line ∷ lines) o =
    IfDone-bind InOrder AllPairs (read_line number group pairs line)
      (λ s. read_lines (number + 1) s.0 s.1 lines) (read_line-InOrder number group pairs line o)
      (λ s q. read_lines-AllPairs (number + 1) s.0 s.1 lines q)

-- Each pair of a file that `ini_load` accepts has a key that is not empty, neither its key nor its
-- value starts or ends with a space, and the name of its group fits in the buffer of 64 bytes.
pub ini_load-AllPairs : (file : Option IniFile) → IfDone AllPairs (ini_load file)
unfolding ini_load
ini_load-AllPairs none = tt
ini_load-AllPairs (some file) =
    IfDone-if AllPairs file.read_error (failed IniError.cannot_read) (read_lines 1 [] [] file.lines)
      (λ e. tt) (λ e. read_lines-AllPairs 1 [] [] file.lines (omega arith, tt))
