-- ===== src/Settings/Load.antt =====
-- `softgred_config_load_conf` of src/softgred_config.c, and `softgred_config_release`.
pub mod Parts
pub mod Ready
use softgre.Shared.{
  ℕ, zero, suc, ◌+◌, ◌-◌, Bool, true, false, not, ◌&&◌, ◌||◌, List, [], ◌∷◌, ◌++◌, Option, none,
  some, ltb, leb, ◌==◌, if◌then◌else◌, length,
}
use softgre.Maps.{is_some}
use softgre.Compat.{Text, codes, strchr, streq, path_is_absolute}
use softgre.Settings.{SoftgredConfig, initial_config, config_valid_ifname}
use softgre.Settings.Ini.{IniPair, IniFile, Loaded, done, failed, ini_load, ini_get, ini_has}
use softgre.Settings.Values.{read_bool, read_uint, read_string}
use softgre.Settings.Allow.{parse_allow}
use softgre.Settings.Bridges.{parse_bridges}

-- The groups of the file.
abbrev pub global : Text
global = codes "global"

abbrev pub debug : Text
debug = codes "debug"

abbrev pub service : Text
service = codes "service"

-- `strlen` of a text that may be NULL only where the test before it failed.
abbrev pub short_prefix : Option Text → Bool
short_prefix none = false
short_prefix (some prefix) = leb (length prefix) 6

abbrev pub absolute : Option Text → Bool
absolute none = false
absolute (some path) = path_is_absolute path

-- `strpbrk(path, "\r\n")`
abbrev pub one_line : Option Text → Bool
one_line none = true
one_line (some path) = not (is_some (strchr path 13)) && not (is_some (strchr path 10))

abbrev pub is_any : Option Text → Bool
is_any none = false
is_any (some text) = streq text (codes "any")

-- `if (!cfg->pid_file) cfg->pid_file = ...`
abbrev pub or_else : Option Text → Option Text → Option Text
or_else none other = other
or_else (some text) other = some text

-- What the build and the host give: the default paths, `inet_pton`, and the time of the start.
pub record Site : Type 0 where
  pub default_pidfile : Text
  pub default_logfile : Text
  pub inet_pton : Text → Option ℕ
  pub time : ℕ

-- `ok && read_...(..., &value)`: the value is read if what stands before was valid.
unfoldable pub then_read : {A : Type 0} → Bool → Bool × A → A → Bool × A
then_read true read value = read
then_read false read value = (false, value)

unfoldable pub with_names : List IniPair → SoftgredConfig → SoftgredConfig
unfolding read_string
with_names ini cfg = record cfg {
  ifname = read_string ini global (codes "interface") none;
  tunnel_prefix = read_string ini global (codes "tunnel-prefix") (some (codes "sgre"));
}

-- `map && parse_bridges(cfg, map)` behind the tests on the names.
unfoldable pub load_map : Bool → Option Text → SoftgredConfig → SoftgredConfig × Bool
unfolding parse_bridges
load_map names none cfg = (cfg, false)
load_map names (some map) cfg =
    let loaded = parse_bridges cfg map in if names then loaded else (cfg, false)

-- `if (!ok) goto done;`
unfoldable pub and_then :
    SoftgredConfig × Bool → (SoftgredConfig → SoftgredConfig × Bool) → SoftgredConfig × Bool
and_then (cfg, true) next = next cfg
and_then (cfg, false) next = (cfg, false)

module _ (site : Site) where
  -- The interface names and the map of the bridges.
  unfoldable pub load_interfaces : List IniPair → SoftgredConfig → SoftgredConfig × Bool
  unfolding read_string config_valid_ifname load_map with_names
  load_interfaces ini cfg =
      let cfg1 = with_names ini cfg in
      let names =
        config_valid_ifname cfg1.ifname
        && config_valid_ifname cfg1.tunnel_prefix
        && short_prefix cfg1.tunnel_prefix in
      load_map names (read_string ini global (codes "bridge-map") none) cfg1

  unfoldable pub load_list : Option Text → SoftgredConfig → SoftgredConfig × Bool
  unfolding parse_allow
  load_list none cfg = (cfg, true)
  load_list (some list) cfg = parse_allow site.inet_pton cfg list

  -- The allowlist, if there is one.
  unfoldable pub load_allow : List IniPair → SoftgredConfig → SoftgredConfig × Bool
  unfolding ini_get load_list
  load_allow ini cfg =
      load_list (ini_get ini global (codes "allow-remotes")) (record cfg { allow = [] })

  -- The paths: what the command line gave stays.
  unfoldable pub load_paths : List IniPair → SoftgredConfig → SoftgredConfig × Bool
  unfolding read_string path_is_absolute strchr
  load_paths ini cfg =
      let pid_file = read_string ini global (codes "pid-file") (some site.default_pidfile) in
      let log_file = read_string ini global (codes "log-file") (some site.default_logfile) in
      let cfg1 = record cfg {
        pid_file = or_else cfg.pid_file pid_file;
        log_file = or_else cfg.log_file log_file;
      } in
      (cfg1, absolute cfg1.log_file && one_line cfg1.log_file)

  -- The remaining keys.
  unfoldable pub load_values : List IniPair → SoftgredConfig → SoftgredConfig × Bool
  unfolding read_string config_valid_ifname streq read_bool read_uint then_read
  load_values ini cfg0 =
      let bind_in = read_string ini service (codes "bind-in") (some (codes "lo")) in
      let cfg = record cfg0 { srv_bind_in = bind_in } in
      let bound = config_valid_ifname bind_in || is_any bind_in in
      let force =
        then_read bound (read_bool ini global (codes "bridge-force") cfg.bridge_force)
          cfg.bridge_force in
      let enable =
        then_read force.0 (read_bool ini debug (codes "enable") cfg.dbg_enable) cfg.dbg_enable in
      let print_time = then_read enable.0 (read_bool ini debug (codes "print-time") false) false in
      let timestamp =
        then_read print_time.0 (read_bool ini debug (codes "time") print_time.1) print_time.1 in
      let port =
        then_read timestamp.0 (read_uint ini service (codes "port") cfg.srv_port 1 65535)
          cfg.srv_port in
      let listen =
        then_read port.0 (read_uint ini service (codes "max-listen") cfg.srv_max_listen 1 128)
          cfg.srv_max_listen in
      (
        record cfg {
          bridge_force = force.1;
          dbg_enable = enable.1;
          srv_port = port.1;
          srv_max_listen = listen.1;
          dbg_time = cfg.dbg_time || timestamp.1;
          dbg_mode = if enable.1 && cfg.dbg_mode == 0 then 1 else cfg.dbg_mode;
          started_time = site.time;
        },
        listen.0,
      )

  unfoldable pub load_settings : Loaded (List IniPair) → SoftgredConfig → SoftgredConfig × Bool
  unfolding and_then load_interfaces load_allow load_paths load_values
  load_settings (failed why) cfg = (cfg, false)
  load_settings (done ini) cfg = and_then (load_interfaces ini cfg) (λ cfg1.
      and_then (load_allow ini cfg1)
        (λ cfg2. and_then (load_paths ini cfg2) (λ cfg3. load_values ini cfg3)))

  -- The result says whether the daemon may go on.
  unfoldable pub softgred_config_load_conf : SoftgredConfig → Option IniFile → SoftgredConfig × Bool
  unfolding ini_load load_settings
  softgred_config_load_conf cfg file = load_settings (ini_load file) cfg

unfoldable pub softgred_config_release : SoftgredConfig → SoftgredConfig
unfolding initial_config
softgred_config_release cfg = initial_config
