-- ===== src/Settings/Allow.antt =====
-- `parse_allow` of src/softgred_config.c. `inet_pton` is a parameter: the address in host byte order,
-- or `none` for a text that is no IPv4 address.
pub mod Blocks
use softgre.Shared.{
  ℕ, zero, suc, ◌+◌, ◌-◌, ◌*◌, ◌%◌, ◌^◌, Bool, true, false, not, ◌&&◌, ◌||◌, List, [], ◌∷◌, ◌++◌,
  Option, none, some, ltb, leb, ◌==◌, if◌then◌else◌, length,
}
use Prim.Native.Nat.{bit_and}
use softgre.Compat.{Text, strchr, str_trim}
use softgre.Compat.Split.{fields}
use softgre.Settings.{AllowRemote, SoftgredConfig, max_allow}
use softgre.Settings.Values.{whole_number, number_between}

-- `~0u << (32 - bits)`, or 0
unfoldable pub mask_of : ℕ → ℕ
mask_of bits = if bits == 0 then 0 else 2 ^ 32 - 2 ^ (32 - bits)

-- `bits` and the text before the slash.
unfoldable pub prefix_bits : Text → Option (Text × ℕ)
unfolding strchr whole_number number_between
prefix_bits entry = elim (strchr entry b'/') [
  | none ↦ some (entry, 32)
  | some (address, after) ↦ elim (number_between 0 32 (whole_number after)) [
    | none ↦ none
    | some bits ↦ some (address, bits)
  ]
]

module _ (inet_pton : Text → Option ℕ) where
  -- A field of the list.
  unfoldable pub parse_entry : Text → Option AllowRemote
  unfolding str_trim prefix_bits mask_of
  parse_entry field =
      let entry = str_trim field in
      if length entry == 0 then none else elim (prefix_bits entry) [
        | none ↦ none
        | some (address, bits) ↦ elim (inet_pton address) [
          | none ↦ none
          | some addr ↦ some (record { network = bit_and addr (mask_of bits); mask = mask_of bits })
        ]
      ]

  -- The loop, with the slots filled so far.
  unfoldable pub parse_entries : List AllowRemote → List Text → List AllowRemote × Bool
  unfolding parse_entry
  parse_entries allow [] = (allow, true)
  parse_entries allow (field ∷ rest) =
      if leb max_allow (length allow) then (allow, false) else elim (parse_entry field) [
        | none ↦ (allow, false)
        | some slot ↦ parse_entries (allow ++ slot ∷ []) rest
      ]

  -- The result says whether the list was accepted.
  unfoldable pub parse_allow : SoftgredConfig → Text → SoftgredConfig × Bool
  unfolding parse_entries fields
  parse_allow cfg list =
      let (allow, ok) = parse_entries [] (fields list b',') in (record cfg { allow = allow }, ok)
