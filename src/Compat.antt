-- ===== src/Compat.antt =====
-- src/compat.h and src/compat.c: the tests on characters and the helpers on texts. A text is the
-- list of its bytes before the NUL.
pub mod Trim
pub mod Split
pub mod StrBuf
use Prim.Native.Char.{code}
use Prim.Native.String.{String}
use softgre.Shared.{
  ℕ, zero, suc, ◌+◌, ◌-◌, ◌*◌, ◌^◌, ◌%◌, Bool, true, false, not, ◌&&◌, ◌||◌, List, [], ◌∷◌, ◌++◌,
  Option, none, some, ltb, leb, ◌==◌, if◌then◌else◌, length, take, drop,
}

abbrev pub Text : Type 0
Text = List ℕ

-- A literal of the source.
abbrev pub codes : String → Text
codes String.[] = []
codes (String.◌∷◌ c s) = code c ∷ codes s

abbrev pub ascii_isdigit : ℕ → Bool
ascii_isdigit c = leb b'0' c && leb c b'9'

unfoldable pub ascii_isalnum : ℕ → Bool
ascii_isalnum c = leb b'0' c && leb c b'9' || leb b'a' c && leb c b'z' || leb b'A' c && leb c b'Z'

unfoldable pub ascii_isxdigit : ℕ → Bool
ascii_isxdigit c = ascii_isdigit c || leb b'a' c && leb c b'f' || leb b'A' c && leb c b'F'

unfoldable pub ascii_tolower : ℕ → ℕ
ascii_tolower c = if leb b'A' c && leb c b'Z' then c + 32 else c

-- `isspace` of the C locale.
unfoldable pub isspace : ℕ → Bool
isspace c = c == 32 || leb 9 c && leb c 13

-- `strcmp` with result 0.
unfoldable pub streq : Text → Text → Bool
streq [] [] = true
streq [] (d ∷ t) = false
streq (c ∷ s) [] = false
streq (c ∷ s) (d ∷ t) = c == d && streq s t

abbrev pub cons_before : ℕ → Option (Text × Text) → Option (Text × Text)
cons_before c none = none
cons_before c (some (a, b)) = some (c ∷ a, b)

-- `strchr`: the parts before and behind the first occurrence.
unfoldable pub strchr : Text → ℕ → Option (Text × Text)
strchr [] d = none
strchr (c ∷ s) d = if c == d then some ([], s) else cons_before c (strchr s d)

-- The loop over `start`.
unfoldable pub trim_start : Text → Text
trim_start [] = []
trim_start (c ∷ s) = let rest = trim_start s in if isspace c then rest else c ∷ s

abbrev pub cons_unless_blank : ℕ → Text → Text
cons_unless_blank c [] = if isspace c then [] else c ∷ []
cons_unless_blank c (d ∷ s) = c ∷ d ∷ s

-- The loop over `end`: it cuts the spaces behind the last byte that is none.
unfoldable pub trim_end : Text → Text
trim_end [] = []
trim_end (c ∷ s) = cons_unless_blank c (trim_end s)

unfoldable pub str_trim : Text → Text
unfolding trim_start trim_end
str_trim s = trim_end (trim_start s)

-- The result is the field and the new cursor.
unfoldable pub str_split_next : Option Text → ℕ → Option (Text × Option Text)
unfolding strchr
str_split_next none delim = none
str_split_next (some field) delim = elim (strchr field delim) [
  | none ↦ some (field, none)
  | some (before, after) ↦ some (before, some after)
]

-- The comparison of `memcmp` on as many bytes as `suffix` has.
unfoldable pub str_has_suffix : Text → Text → Bool
unfolding streq
str_has_suffix s suffix =
    let sl = length s in let xl = length suffix in leb xl sl && streq (drop (sl - xl) s) suffix

unfoldable pub path_is_absolute : Text → Bool
path_is_absolute [] = false
path_is_absolute (c ∷ path) = c == b'/'

-- The bytes that `str_lcpy` leaves in a buffer `dst` of `size` bytes, with the NUL.
unfoldable pub str_lcpy : Text → Text → ℕ → Text
str_lcpy dst src size =
    if size == 0
    then dst
    else let copy = if ltb (length src) (size - 1) then length src else size - 1 in
      take copy src ++ 0 ∷ drop (copy + 1) dst
