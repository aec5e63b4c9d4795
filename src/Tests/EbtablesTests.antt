-- ===== src/Tests/EbtablesTests.antt =====
-- src/iface_ebtables.c with programs that answer in a given way.
use softgre.Shared.{◌+◌, ◌≡◌, refl, Bool, true, false, not, List, [], ◌∷◌, ◌==◌, length}
use softgre.Compat.{Text, codes, streq}
use softgre.Ebtables.{
  Log, pattern_of, iface_ebtables_allow, iface_ebtables_add_tunnel, iface_ebtables_del_tunnel,
}
use softgre.Ebtables.Runs.{
  Call, init, end, add_tunnel, del_tunnel, allow, Recorded, run, start, run-Recorded, no_bits,
}
use softgre.Ebtables.Results.{
  Allowed, allow-Allowed, all_installed, all_clear, number_set, failures, results-all_installed,
  tunnel_calls_done,
}

abbrev ebtables : Text
ebtables = codes "ebtables"

-- The second command fails.
abbrev second_fails : Log → List Text → Bool
second_fails log args = not (length log == 1)

abbrev always : Log → List Text → Bool
always log args = true

abbrev history : List Call
history =
    init
    ∷ add_tunnel (codes "sgre1")
    ∷ allow (codes "sgre1") (codes "02:00:00:00:00:01")
    ∷ add_tunnel (codes "sgre2")
    ∷ del_tunnel (codes "sgre1")
    ∷ end
    ∷ []

run-Recorded_example : Recorded ebtables (run ebtables always history start)
run-Recorded_example = run-Recorded ebtables always history refl

bits_after_history :
    (run ebtables always history start).installed (codes "sgre2") ≡ true ∷ true ∷ true ∷ []
unfolding run streq
bits_after_history = refl

second_jump_fails :
    (iface_ebtables_add_tunnel ebtables second_fails (codes "sgre1") no_bits []).0.1
    ≡ true ∷ false ∷ false ∷ []
unfolding iface_ebtables_add_tunnel
second_jump_fails = refl

second_rule_fails :
    length (iface_ebtables_allow ebtables second_fails (codes "sgre1") (codes "m") []).0 ≡ 3
unfolding iface_ebtables_allow
second_rule_fails = refl

-- The rules of the ingress side, of eleven words, are accepted and those of the egress side are not.
abbrev ingress_only : Log → List Text → Bool
ingress_only log args = length args == 11

allow-Allowed_example :
    let r =
      iface_ebtables_allow ebtables ingress_only (codes "sgre1") (codes "02:00:00:00:00:01") [] in
    Allowed ebtables (pattern_of (codes "sgre1")) (codes "02:00:00:00:00:01") [] r.0 r.1
allow-Allowed_example =
    allow-Allowed ebtables ingress_only (codes "sgre1") (codes "02:00:00:00:00:01") [] (λ now. refl)

abbrev no_commands : Log
no_commands = []

-- Two jumps are installed.
abbrev two_bits : List Bool
two_bits = true ∷ false ∷ true ∷ []

results-all_installed_example :
    let added = iface_ebtables_add_tunnel ebtables second_fails (codes "sgre1") two_bits [] in
    let deleted = iface_ebtables_del_tunnel ebtables second_fails (codes "sgre1") two_bits [] in
    (added.1 ≡ all_installed added.0.1)
    × (deleted.1 ≡ all_clear deleted.0.1)
    × (length deleted.0.0 ≡ length no_commands + number_set two_bits)
    × (failures deleted.0.0 ≡ failures no_commands + number_set deleted.0.1)
results-all_installed_example =
    results-all_installed ebtables second_fails (codes "sgre1") two_bits [] refl

tunnel_calls_done_example :
    ((iface_ebtables_add_tunnel ebtables always (codes "sgre1") no_bits []).1 ≡ true)
    × ((iface_ebtables_del_tunnel ebtables always (codes "sgre1") no_bits []).1 ≡ true)
tunnel_calls_done_example =
    tunnel_calls_done ebtables always (λ log args. refl) (codes "sgre1") no_bits [] refl
