-- ===== src/Settings/Bridges/Mappings.antt =====
-- The bridges that a map of src/softgred_config.c stands for.
use mathlib.Core.List.{append_assoc, append-nil}
use softgre.Shared.{
  ℕ, ◌≤◌, ◌≡◌, refl, sym, ap, ◌∙◌, subst, Bool, true, false, not, ◌&&◌, ◌||◌, List, [], ◌∷◌, ◌++◌,
  none, some, arith, leb, ◌==◌, length, length-append, take, take-all, Bool-cases, Option-cases,
  inl, inr, some-injective, none-some_absurd, leb-false,
}
use softgre.Compat.{Text, str_trim, strchr}
use softgre.Compat.Split.{fields, strchr-parts}
use softgre.Provision.{TunnelBridge}
use softgre.Provision.Packet.{is_mapped}
use softgre.Settings.{SoftgredConfig, config_valid_ifname, max_attach}
use softgre.Settings.Values.Decimal.{in_range, decimal, number_between-whole_number}
use softgre.Settings.Bridges.{parse_mapping, parse_mappings, parse_bridges}

-- A field `vlan@bridge`: a VLAN from 1 to 4094 in decimal and a valid interface name, with spaces
-- around each.
pub record MapsTo (field : Text) (b : TunnelBridge) : Type 0 where
  pub vlan_text : Text
  pub name_text : Text
  pub written : str_trim field ≡ vlan_text ++ b'@' ∷ name_text
  pub valid_vlan : in_range 1 4094 (str_trim vlan_text) ≡ true
  pub vlan : b.vlan_id ≡ decimal (str_trim vlan_text)
  pub name : b.ifname ≡ str_trim name_text
  pub valid_name : config_valid_ifname (some b.ifname) ≡ true

abbrev pub MapsAll : List Text → List TunnelBridge → Type 0
MapsAll [] [] = Unit
MapsAll [] (b ∷ bridges) = ⊥
MapsAll (f ∷ fs) [] = ⊥
MapsAll (f ∷ fs) (b ∷ bridges) = MapsTo f b × MapsAll fs bridges

-- Whether no VLAN is mapped twice.
unfoldable pub distinct_vlans : List TunnelBridge → Bool
unfolding is_mapped
distinct_vlans [] = true
distinct_vlans (b ∷ bridges) = not (is_mapped bridges b.vlan_id) && distinct_vlans bridges

is_mapped-append :
    (bridges : List TunnelBridge) (b : TunnelBridge) (vlan : ℕ)
    → is_mapped (bridges ++ b ∷ []) vlan ≡ (is_mapped bridges vlan || b.vlan_id == vlan)
unfolding is_mapped
is_mapped-append [] b vlan = ground arith
is_mapped-append (c ∷ bridges) b vlan = ground (arith, is_mapped-append bridges b vlan)

distinct_vlans-append :
    (bridges : List TunnelBridge) (b : TunnelBridge)
    → distinct_vlans bridges ≡ true
    → is_mapped bridges b.vlan_id ≡ false
    → distinct_vlans (bridges ++ b ∷ []) ≡ true
unfolding distinct_vlans is_mapped
distinct_vlans-append [] b d n = refl
distinct_vlans-append (c ∷ bridges) b d n =
    ground (arith, is_mapped-append bridges b c.vlan_id, distinct_vlans-append bridges b)

valid_ifname-short : (name : Text) → config_valid_ifname (some name) ≡ true → length name ≤ 15
unfolding config_valid_ifname
valid_ifname-short name h = ground arith

parse_mapping-MapsTo :
    (field : Text) (b : TunnelBridge) → parse_mapping field ≡ some b → MapsTo field b
unfolding parse_mapping
parse_mapping-MapsTo field b e = elim (Option-cases (strchr (str_trim field) b'@')) [
  | inl k ↦ let f : none ≡ some b = rw (parse_mapping, k) at e in absurd (none-some_absurd f)
  | inr ((a, c), k) ↦
      let n = number_between-whole_number 1 4094 (str_trim a) (omega arith) in
      elim (Bool-cases (in_range 1 4094 (str_trim a))) [
        | inr r ↦
            let f : none ≡ some b = rw (parse_mapping, k, n, r) at e in absurd (none-some_absurd f)
        | inl r ↦ elim (Bool-cases (config_valid_ifname (some (str_trim c)))) [
          | inr v ↦
              let f : none ≡ some b = rw (parse_mapping, k, n, r, v) at e in
              absurd (none-some_absurd f)
          | inl v ↦
              let slot : TunnelBridge = record {
                ifname = take 15 (str_trim c);
                vlan_id = decimal (str_trim a);
              } in
              let f : some slot ≡ some b = rw (parse_mapping, k, n, r, v) at e in
              let g = some-injective f in
              let t = take-all 15 (str_trim c) (valid_ifname-short (str_trim c) v) in
              record {
                vlan_text = a;
                name_text = c;
                written = (strchr-parts (str_trim field) b'@' k).0;
                valid_vlan = r;
                vlan = rw (← g);
                name = rw (← g) t;
                valid_name = rw (← g, t) v;
              }
        ]
      ]
]

parse_mappings-MapsAll :
    (before out : List TunnelBridge) (fs : List Text)
    → length before ≤ max_attach
    → distinct_vlans before ≡ true
    → parse_mappings before fs ≡ (out, true)
    → (added : List TunnelBridge) × MapsAll fs added
      × (out ≡ before ++ added)
      × (length out ≤ max_attach)
      × (distinct_vlans out ≡ true)
unfolding parse_mappings
parse_mappings-MapsAll before out [] le d e =
    let same : before ≡ out = ap (λ x. x.0) e in
    ([], tt, sym same ∙ sym (append-nil before), rw (← same) le, rw (← same) d)
parse_mappings-MapsAll before out (field ∷ fs) le d e =
    elim (Bool-cases (leb max_attach (length before))) [
      | inl z ↦ let f : (before, false) ≡ (out, true) = rw (parse_mappings, z) at e in cc
      | inr z ↦ elim (Option-cases (parse_mapping field)) [
        | inl k ↦ let f : (before, false) ≡ (out, true) = rw (parse_mappings, z, k) at e in cc
        | inr (b, k) ↦ elim (Bool-cases (is_mapped before b.vlan_id)) [
          | inl m ↦ let f : (before, false) ≡ (out, true) = rw (parse_mappings, z, k, m) at e in cc
          | inr m ↦
              let f : parse_mappings (before ++ (b ∷ [])) fs ≡ (out, true) =
                rw (parse_mappings, z, k, m) at e in
              let room = leb-false max_attach (length before) z in
              let (added, w, q, few, dist) =
                parse_mappings-MapsAll (before ++ (b ∷ [])) out fs
                  (omega (arith, length-append {0} before (b ∷ [])))
                  (distinct_vlans-append before b d m) f in
              (
                b ∷ added,
                (parse_mapping-MapsTo field b k, w),
                q ∙ append_assoc before (b ∷ []) added,
                few,
                dist,
              )
        ]
      ]
    ]

-- What an accepted map makes of the settings.
pub record Mapped (map : Text) (cfg : SoftgredConfig) : Type 0 where
  pub described : MapsAll (fields map b',') cfg.bridge
  pub some_bridge : 1 ≤ length cfg.bridge
  pub few : length cfg.bridge ≤ max_attach
  pub distinct : distinct_vlans cfg.bridge ≡ true

-- If `parse_bridges` accepts a map, then its fields stand for the bridges of the settings one by one,
-- each with a VLAN from 1 to 4094 and a valid interface name that is stored in full; there is one at
-- least and at most `max_attach`; and no VLAN is mapped twice.
pub parse_bridges-Mapped :
    (cfg cfg' : SoftgredConfig) (map : Text)
    → parse_bridges cfg map ≡ (cfg', true)
    → Mapped map cfg'
unfolding parse_bridges fields distinct_vlans
parse_bridges-Mapped cfg cfg' map e =
    let fs = fields map b',' in
    let r = parse_mappings [] fs in
    let slots : r.0 ≡ cfg'.bridge = ap (λ x. x.0.bridge) e in
    let accepted : (r.1 && not (length r.0 == 0)) ≡ true = ap (λ x. x.1) e in
    let whole : r ≡ (cfg'.bridge, true) =
      let ok : r.1 ≡ true = ground arith in λ i. (slots i, ok i) in
    let (added, w, q, few, dist) =
      parse_mappings-MapsAll [] cfg'.bridge fs (omega arith) refl whole in
    record {
      described = rw q w;
      some_bridge =
          let n : not (length cfg'.bridge == 0) ≡ true = rw (← slots) (ground arith) in
          ground arith;
      few = few;
      distinct = dist;
    }

pub Mapped-same :
    (map : Text) (cfg cfg' : SoftgredConfig)
    → cfg'.bridge ≡ cfg.bridge
    → Mapped map cfg
    → Mapped map cfg'
Mapped-same map cfg cfg' e m = record {
  described = subst (λ b. MapsAll (fields map b',') b) (sym e) m.described;
  some_bridge = subst (λ b. 1 ≤ length b) (sym e) m.some_bridge;
  few = subst (λ b. length b ≤ max_attach) (sym e) m.few;
  distinct = subst (λ b. distinct_vlans b ≡ true) (sym e) m.distinct;
}
