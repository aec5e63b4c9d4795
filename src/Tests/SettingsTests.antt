-- ===== src/Tests/SettingsTests.antt =====
-- src/softgred_config.c on small files, and its theorems at these.
use softgre.Shared.{
  ℕ, ◌+◌, ◌*◌, ◌^◌, ◌<◌, ◌≡◌, refl, subst, Bool, true, false, List, [], ◌∷◌, Option, none, some,
  arith, if◌then◌else◌, some-injective, none-some_absurd,
}
use softgre.Compat.{Text, codes, isspace, streq}
use softgre.Compat.Split.{has_byte}
use softgre.Settings.{SoftgredConfig, initial_config, config_remote_allowed}
use softgre.Settings.Allow.{parse_allow}
use softgre.Settings.Allow.Blocks.{Admits, parse_allow-Admits}
use softgre.Settings.Bridges.{parse_bridges}
use softgre.Settings.Bridges.Mappings.{Mapped, parse_bridges-Mapped}
use softgre.Settings.Ini.{IniPair, IniFile, done, failed, IniError, read_line, ini_load, ini_get}
use softgre.Settings.Ini.Pairs.{IfDone, AllPairs, ini_load-AllPairs}
use softgre.Settings.Load.{Site, softgred_config_load_conf}
use softgre.Settings.Load.Parts.{Numbers}
use softgre.Settings.Load.Ready.{Ready, load_conf-Ready}
use softgre.Settings.Values.{read_uint}
use softgre.Settings.Values.Decimal.{read_uint-decimal, in_range, decimal}

abbrev choose : Bool → Option ℕ
choose true = some (10 * 2 ^ 24)
choose false = none

-- An `inet_pton` that knows one address.
abbrev pton : Text → Option ℕ
pton t = choose (streq t (codes "10.0.0.0"))

choose_small : (b : Bool) (a : ℕ) → choose b ≡ some a → a < 2 ^ 32
choose_small true a e = subst (λ (z : ℕ). z < 2 ^ 32) (some-injective e) (omega arith)
choose_small false a e = absurd (none-some_absurd e)

pton_small : (t : Text) (a : ℕ) → pton t ≡ some a → a < 2 ^ 32
pton_small t a e = choose_small (streq t (codes "10.0.0.0")) a e

abbrev site : Site
site = record {
  default_pidfile = codes "/run/softgred.pid";
  default_logfile = codes "/var/log/softgred.log";
  inet_pton = pton;
  time = 1000;
}

abbrev file : IniFile
file = record {
  lines =
      codes "# access points\n"
      ∷ codes "[global]\n"
      ∷ codes "interface = eth0\n"
      ∷ codes "bridge-map = 100@br0, 200@br1\n"
      ∷ codes "allow-remotes = 10.0.0.0/8\n"
      ∷ codes "[service]\n"
      ∷ codes "port=0099"
      ∷ [];
  read_error = false;
}

abbrev loaded : SoftgredConfig
loaded = (softgred_config_load_conf site initial_config (some file)).0

file_loads : softgred_config_load_conf site initial_config (some file) ≡ (loaded, true)
unfolding softgred_config_load_conf read_line has_byte isspace initial_config
file_loads = refl

initial-Numbers : Numbers initial_config
unfolding initial_config
initial-Numbers = record {
  port_low = omega arith;
  port_high = omega arith;
  listen_low = omega arith;
  listen_high = omega arith;
}

load_conf-Ready_example :
    (ini : List IniPair) × (ini_load (some file) ≡ done ini) × Ready site pton_small ini loaded
load_conf-Ready_example =
    load_conf-Ready site pton_small initial_config loaded (some file) initial-Numbers file_loads

loaded_port : loaded.srv_port ≡ 99
unfolding softgred_config_load_conf read_line has_byte isspace initial_config
loaded_port = refl

loaded_allow : loaded.allow ≡ record { network = 10 * 2 ^ 24; mask = 255 * 2 ^ 24 } ∷ []
unfolding softgred_config_load_conf read_line has_byte isspace initial_config
loaded_allow = refl

-- A list of the pairs of one key.
abbrev port_is : Text → List IniPair
port_is text = record { group = codes "service"; key = codes "port"; value = text } ∷ []

read_uint-decimal_example :
    read_uint (port_is (codes "8080")) (codes "service") (codes "port") 8888 1 65535
    ≡ elim (ini_get (port_is (codes "8080")) (codes "service") (codes "port")) [
      | none ↦ (true, 8888)
      | some text ↦ if in_range 1 65535 text then (true, decimal text) else (false, 8888)
    ]
read_uint-decimal_example =
    read_uint-decimal (port_is (codes "8080")) (codes "service") (codes "port") 8888 1 65535
      (omega arith)

negative_port :
    read_uint (port_is (codes "-1")) (codes "service") (codes "port") 8888 1 65535 ≡ (false, 8888)
unfolding read_uint isspace
negative_port = refl

abbrev two_bridges : SoftgredConfig
two_bridges = (parse_bridges initial_config (codes "100@br0,200@br1")).0

two_bridges_parse : parse_bridges initial_config (codes "100@br0,200@br1") ≡ (two_bridges, true)
unfolding parse_bridges isspace
two_bridges_parse = refl

parse_bridges-Mapped_example : Mapped (codes "100@br0,200@br1") two_bridges
parse_bridges-Mapped_example =
    parse_bridges-Mapped initial_config two_bridges (codes "100@br0,200@br1") two_bridges_parse

vlan_twice : (parse_bridges initial_config (codes "100@br0,100@br1")).1 ≡ false
unfolding parse_bridges isspace
vlan_twice = refl

abbrev one_block : SoftgredConfig
one_block = (parse_allow pton initial_config (codes "10.0.0.0/8")).0

one_block_parses : parse_allow pton initial_config (codes "10.0.0.0/8") ≡ (one_block, true)
unfolding parse_allow isspace streq
one_block_parses = refl

parse_allow-Admits_example : Admits pton pton_small (codes "10.0.0.0/8") one_block
parse_allow-Admits_example =
    parse_allow-Admits pton pton_small initial_config one_block (codes "10.0.0.0/8")
      one_block_parses

inside : config_remote_allowed one_block (10 * 2 ^ 24 + 77) ≡ true
unfolding config_remote_allowed parse_allow isspace streq
inside = refl

outside : config_remote_allowed one_block (11 * 2 ^ 24) ≡ false
unfolding config_remote_allowed parse_allow isspace streq
outside = refl

broken_file :
    ini_load (some (record file { lines = codes "[a\n" ∷ [] })) ≡ failed (IniError.invalid_group 1)
unfolding ini_load read_line has_byte isspace
broken_file = refl

ini_load-AllPairs_example : IfDone AllPairs (ini_load (some file))
ini_load-AllPairs_example = ini_load-AllPairs (some file)
