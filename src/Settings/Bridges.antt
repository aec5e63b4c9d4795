-- ===== src/Settings/Bridges.antt =====
-- `parse_bridges` of src/softgred_config.c.
pub mod Mappings
use softgre.Shared.{
  ℕ, zero, suc, ◌+◌, ◌-◌, Bool, true, false, not, ◌&&◌, ◌||◌, List, [], ◌∷◌, ◌++◌, Option, none,
  some, ltb, leb, ◌==◌, if◌then◌else◌, length, take,
}
use softgre.Compat.{Text, strchr, str_trim}
use softgre.Compat.Split.{fields}
use softgre.Provision.{TunnelBridge}
use softgre.Provision.Packet.{is_mapped}
use softgre.Settings.{SoftgredConfig, config_valid_ifname, ifnamsiz, max_attach}
use softgre.Settings.Values.{whole_number, number_between}

-- A field `vlan@bridge`, with its number and name checked.
unfoldable pub parse_mapping : Text → Option TunnelBridge
unfolding strchr str_trim whole_number number_between config_valid_ifname
parse_mapping field = elim (strchr (str_trim field) b'@') [
  | none ↦ none
  | some (before, after) ↦
      let name = str_trim after in
      elim (number_between 1 4094 (whole_number (str_trim before))) [
        | none ↦ none
        | some id ↦
            if config_valid_ifname (some name)
            then some (record { ifname = take (ifnamsiz - 1) name; vlan_id = id })
            else none
      ]
]

-- The loop, with the slots filled so far; `is_mapped` is the loop over them that looks for the same
-- VLAN.
unfoldable pub parse_mappings : List TunnelBridge → List Text → List TunnelBridge × Bool
unfolding parse_mapping is_mapped
parse_mappings bridges [] = (bridges, true)
parse_mappings bridges (field ∷ rest) =
    if leb max_attach (length bridges) then (bridges, false) else elim (parse_mapping field) [
      | none ↦ (bridges, false)
      | some slot ↦
          if is_mapped bridges slot.vlan_id
          then (bridges, false)
          else parse_mappings (bridges ++ slot ∷ []) rest
    ]

-- The result says whether the map was accepted.
unfoldable pub parse_bridges : SoftgredConfig → Text → SoftgredConfig × Bool
unfolding parse_mappings fields
parse_bridges cfg map =
    let (bridges, ok) = parse_mappings [] (fields map b',') in
    (record cfg { bridge = bridges }, ok && not (length bridges == 0))
