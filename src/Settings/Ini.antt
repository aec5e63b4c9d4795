-- ===== src/Settings/Ini.antt =====
-- The INI reader of src/softgred_config.c. A file is the list of the lines that `getline` returns.
pub mod Pairs
use softgre.Shared.{
  ℕ, ◌+◌, ◌-◌, Bool, not, ◌&&◌, ◌||◌, List, [], ◌∷◌, ◌++◌, Option, none, some, leb, ◌==◌,
  if◌then◌else◌, length, take, drop,
}
use softgre.Maps.{is_some}
use softgre.Compat.{Text, streq, strchr, str_trim}
use softgre.Compat.Split.{has_byte}

-- `struct ini_pair`
pub record IniPair : Type 0 where
  pub group : Text
  pub key : Text
  pub value : Text

-- The messages that `ini_load` leaves in `config_error`, with the number of the line.
pub data IniError : Type 0 where
  cannot_open cannot_read : IniError
  embedded_nul invalid_group not_a_pair empty_key : ℕ → IniError

pub data Loaded {ℓ} (A : Type ℓ) : Type ℓ where
  done : A → Loaded A
  failed : IniError → Loaded A

infixl 5 ◌>>=◌
abbrev pub ◌>>=◌ {ℓ κ} : {A : Type ℓ} {B : Type κ} → Loaded A → (A → Loaded B) → Loaded B
done a >>= next = next a
failed e >>= next = failed e

-- What reading the file gives: its lines, and whether `ferror` holds behind the last one.
pub record IniFile : Type 0 where
  pub lines : List Text
  pub read_error : Bool

-- The loop of `ini_get`, with `value` so far.
unfoldable pub ini_scan : List IniPair → Text → Text → Option Text → Option Text
unfolding streq
ini_scan [] group key value = value
ini_scan (p ∷ pairs) group key value =
    ini_scan pairs group key
      (if streq p.group group && streq p.key key then some p.value else value)

unfoldable pub ini_get : List IniPair → Text → Text → Option Text
unfolding ini_scan
ini_get ini group key = ini_scan ini group key none

unfoldable pub ini_has : List IniPair → Text → Text → Bool
unfolding ini_get
ini_has ini group key = is_some (ini_get ini group key)

-- The `group` buffer has 64 bytes.
abbrev pub group_size : ℕ
group_size = 64

-- A line that starts with a bracket: the new group. `name` is what stands between `s + 1` and `end`.
unfoldable pub read_header : ℕ → Text → Loaded Text
unfolding strchr
read_header number s = elim (strchr s b']') [
  | none ↦ failed (invalid_group number)
  | some (open_name, after) ↦
      let name = drop 1 open_name in
      if not (length after == 0) || length name == 0 || leb group_size (length name)
      then failed (invalid_group number)
      else done (take (group_size - 1) name)
]

-- A line with a key and a value.
unfoldable pub read_pair : ℕ → Text → Text → Loaded IniPair
unfolding strchr str_trim
read_pair number group s = elim (strchr s b'=') [
  | none ↦ failed (not_a_pair number)
  | some (before, after) ↦
      let key = str_trim before in
      if length before == 0
      then failed (not_a_pair number)
      else if length key == 0
      then failed (empty_key number)
      else done (record { group = group; key = key; value = str_trim after })
]

-- `*s`
unfoldable pub first_byte : Text → ℕ
first_byte [] = 0
first_byte (c ∷ s) = c

-- A round of the loop of `ini_load`: the group and the pairs behind the line.
unfoldable pub read_line : ℕ → Text → List IniPair → Text → Loaded (Text × List IniPair)
unfolding first_byte read_header read_pair str_trim
read_line number group pairs line =
    let s = str_trim line in
    if has_byte line 0
    then failed (embedded_nul number)
    else if first_byte s == 0 || first_byte s == b'#' || first_byte s == b';'
    then done (group, pairs)
    else if first_byte s == b'['
    then (do name ← read_header number s; done (name, pairs))
    else (do pair ← read_pair number group s; done (group, pairs ++ (pair ∷ [])))

-- The loop, from line `number` on.
unfoldable pub read_lines : ℕ → Text → List IniPair → List Text → Loaded (List IniPair)
read_lines number group pairs [] = done pairs
read_lines number group pairs (line ∷ lines) = do
  (group', pairs') ← read_line number group pairs line
  read_lines (number + 1) group' pairs' lines

-- `none` is a file that cannot be opened.
unfoldable pub ini_load : Option IniFile → Loaded (List IniPair)
unfolding read_lines
ini_load none = failed cannot_open
ini_load (some file) =
    let pairs = read_lines 1 [] [] file.lines in
    if file.read_error then failed cannot_read else pairs
