-- ===== src/Settings/Load/Ready.antt =====
-- What the daemon may rely on once `softgred_config_load_conf` has returned true.
use softgre.Shared.{ℕ, ◌<◌, ◌^◌, ◌≡◌, refl, ap, ◌∙◌, true, List, Option, none, some}
use softgre.Compat.{Text, codes}
use softgre.Settings.{SoftgredConfig, config_valid_ifname, config_remote_allowed}
use softgre.Settings.Ini.{IniPair, IniFile, Loaded, done, failed, ini_load, ini_get}
use softgre.Settings.Allow.Blocks.{Admits, Admits-same}
use softgre.Settings.Bridges.Mappings.{Mapped, Mapped-same}
use softgre.Settings.Load.{
  Site, global, short_prefix, absolute, one_line, load_interfaces, load_allow, load_paths,
  load_settings, softgred_config_load_conf,
}
use softgre.Settings.Load.Parts.{
  false_ne_true, and_then-true, Numbers, Numbers-same, remote_allowed-same,
  load_interfaces-Interfaces, load_allow-Allowlist, load_values-Numbers, load_paths-log_file,
}

module _ (site : Site)
    (pton_small : (t : Text) (a : ℕ) → site.inet_pton t ≡ some a → a < 2 ^ 32) where
  pub record Ready (ini : List IniPair) (cfg : SoftgredConfig) : Type 0 where
    pub capture : config_valid_ifname cfg.ifname ≡ true
    pub prefix : config_valid_ifname cfg.tunnel_prefix ≡ true
    pub short : short_prefix cfg.tunnel_prefix ≡ true
    -- The key `bridge-map` is there, and the bridges are its.
    pub bridges :
        (map : Text) × (ini_get ini global (codes "bridge-map") ≡ some map) × Mapped map cfg
    -- An allowlist in the file is in force; without one each remote is allowed.
    pub allowed :
        (list : Text)
        → ini_get ini global (codes "allow-remotes") ≡ some list
        → Admits site.inet_pton pton_small list cfg
    pub unlisted :
        ini_get ini global (codes "allow-remotes") ≡ none
        → (remote : ℕ) → config_remote_allowed cfg remote ≡ true
    pub log_path : absolute cfg.log_file ≡ true
    pub log_line : one_line cfg.log_file ≡ true
    pub numbers : Numbers cfg

  load_settings-Ready :
      (r : Loaded (List IniPair)) (cfg cfg' : SoftgredConfig)
      → Numbers cfg
      → load_settings site r cfg ≡ (cfg', true)
      → (ini : List IniPair) × (r ≡ done ini) × Ready ini cfg'
  unfolding load_settings
  load_settings-Ready (failed why) cfg cfg' n e = absurd (false_ne_true (ap (λ x. x.1) e))
  load_settings-Ready (done ini) cfg cfg' n e =
      let (c1, e1, f1) = and_then-true (load_interfaces site ini cfg) _ e in
      let (c2, e2, f2) = and_then-true (load_allow site ini c1) _ f1 in
      let (c3, e3, e4) = and_then-true (load_paths site ini c2) _ f2 in
      let (i, port, listen) = load_interfaces-Interfaces site pton_small ini cfg c1 e1 in
      let (l, same2) = load_allow-Allowlist site pton_small ini c1 c2 e2 in
      let (abs, line, same3) = load_paths-log_file site pton_small ini c2 c3 e3 in
      let port3 = ap (λ x. x.srv_port) same3 ∙ ap (λ x. x.srv_port) same2 ∙ port in
      let listen3 = ap (λ x. x.srv_max_listen) same3 ∙ ap (λ x. x.srv_max_listen) same2 ∙ listen in
      let (numbers, ifname, prefix, log, bridge, allow) =
        load_values-Numbers site pton_small ini c3 cfg' (Numbers-same cfg c3 port3 listen3 n) e4 in
      let ifname1 = ifname ∙ ap (λ x. x.ifname) same3 ∙ ap (λ x. x.ifname) same2 in
      let prefix1 = prefix ∙ ap (λ x. x.tunnel_prefix) same3 ∙ ap (λ x. x.tunnel_prefix) same2 in
      let bridge1 = bridge ∙ ap (λ x. x.bridge) same3 ∙ ap (λ x. x.bridge) same2 in
      let allow2 = allow ∙ ap (λ x. x.allow) same3 in
      let (map, key, m) = i.bridges in
      (
        ini,
        refl,
        record {
          capture = ap config_valid_ifname ifname1 ∙ i.capture;
          prefix = ap config_valid_ifname prefix1 ∙ i.prefix;
          short = ap short_prefix prefix1 ∙ i.short;
          bridges = (map, key, Mapped-same map c1 cfg' bridge1 m);
          allowed = λ list h.
              Admits-same site.inet_pton pton_small list c2 cfg' allow2 (l.allowed list h);
          unlisted = λ h remote. remote_allowed-same c2 cfg' remote allow2 ∙ l.unlisted h remote;
          log_path = ap absolute log ∙ abs;
          log_line = ap one_line log ∙ line;
          numbers = numbers;
        },
      )

  -- If `softgred_config_load_conf` returns true, from settings whose two numbers are in range, then the
  -- file was read without an error, and: the names of the capture interface and the prefix are valid,
  -- the prefix has at most 6 bytes; the file has a bridge map and the bridges are what it stands for;
  -- an allowlist in the file is in force, and without one each remote is allowed; the log path is
  -- absolute and has no line break; and the two numbers are in range.
  pub load_conf-Ready :
      (cfg cfg' : SoftgredConfig) (file : Option IniFile)
      → Numbers cfg
      → softgred_config_load_conf site cfg file ≡ (cfg', true)
      → (ini : List IniPair) × (ini_load file ≡ done ini) × Ready ini cfg'
  unfolding softgred_config_load_conf
  load_conf-Ready cfg cfg' file n e = load_settings-Ready (ini_load file) cfg cfg' n e
