-- ===== src/Settings/Load/Parts.antt =====
-- What each part of `softgred_config_load_conf` has established once it has returned true.
use softgre.Shared.{
  ℕ, ◌≤◌, ◌<◌, ◌^◌, ◌≡◌, ◌≢◌, refl, sym, ap, ◌∙◌, subst, Bool, true, false, ◌&&◌, List, [], Option,
  none, some, arith, ◌==◌, if◌then◌else◌, length, Bool-cases, Option-cases, inl, inr,
  some-injective, none-some_absurd,
}
use softgre.Compat.{Text, codes}
use softgre.Settings.{SoftgredConfig, in_allow, config_valid_ifname, config_remote_allowed}
use softgre.Settings.Ini.{IniPair, ini_get}
use softgre.Settings.Values.{read_uint, read_string}
use softgre.Settings.Values.Decimal.{in_range, in_range-bounds, read_uint-decimal}
use softgre.Settings.Allow.{parse_allow}
use softgre.Settings.Allow.Blocks.{Admits, parse_allow-Admits}
use softgre.Settings.Bridges.{parse_bridges}
use softgre.Settings.Bridges.Mappings.{Mapped, parse_bridges-Mapped}
use softgre.Settings.Load.{
  Site, global, service, then_read, short_prefix, absolute, one_line, with_names, load_map,
  load_interfaces, load_list, load_allow, load_paths, load_values, and_then,
}

pub false_ne_true : false ≢ true
false_ne_true e = cc

pub all_three : (a b c : Bool) → (a && b && c) ≡ true → (a ≡ true) × (b ≡ true) × (c ≡ true)
all_three a b c h = ground arith

all_allowed :
    (cfg : SoftgredConfig) (remote : ℕ) → cfg.allow ≡ [] → config_remote_allowed cfg remote ≡ true
unfolding config_remote_allowed
all_allowed cfg remote e = rw e

read_uint-bounds :
    (ini : List IniPair) (group key : Text) (value low high : ℕ)
    → high < 2 ^ 64
    → low ≤ value
    → value ≤ high
    → (low ≤ (read_uint ini group key value low high).1)
      × ((read_uint ini group key value low high).1 ≤ high)
read_uint-bounds ini group key value low high h a b =
    rw (read_uint-decimal ini group key value low high h)
      (elim (Option-cases (ini_get ini group key)) [
        | inl e ↦ rw e (a, b)
        | inr (text, e) ↦ rw e (elim (Bool-cases (in_range low high text)) [
          | inl f ↦ rw f (in_range-bounds low high text f)
          | inr f ↦ rw f (a, b)
        ])
      ])

pub both : (a b : Bool) → (a && b) ≡ true → (a ≡ true) × (b ≡ true)
both a b h = ground arith

pub and_then-true :
    (r : SoftgredConfig × Bool) (next : SoftgredConfig → SoftgredConfig × Bool)
    {cfg : SoftgredConfig}
    → and_then r next ≡ (cfg, true)
    → (c : SoftgredConfig) × (r ≡ (c, true)) × (next c ≡ (cfg, true))
unfolding and_then
and_then-true (c, true) next e = (c, refl, e)
and_then-true (c, false) next e = absurd (false_ne_true (ap (λ x. x.1) e))

then_read-bounds :
    (ok : Bool) (read : Bool × ℕ) (value low high : ℕ)
    → (low ≤ read.1) × (read.1 ≤ high)
    → (low ≤ value) × (value ≤ high)
    → (low ≤ (then_read ok read value).1) × ((then_read ok read value).1 ≤ high)
unfolding then_read
then_read-bounds true read value low high r v = r
then_read-bounds false read value low high r v = v

-- The ranges of the two numbers of the status service.
pub record Numbers (cfg : SoftgredConfig) : Type 0 where
  pub port_low : 1 ≤ cfg.srv_port
  pub port_high : cfg.srv_port ≤ 65535
  pub listen_low : 1 ≤ cfg.srv_max_listen
  pub listen_high : cfg.srv_max_listen ≤ 128

pub Numbers-same :
    (cfg cfg' : SoftgredConfig)
    → cfg'.srv_port ≡ cfg.srv_port
    → cfg'.srv_max_listen ≡ cfg.srv_max_listen
    → Numbers cfg
    → Numbers cfg'
Numbers-same cfg cfg' p l n = record {
  port_low = omega (arith, n.port_low, p);
  port_high = omega (arith, n.port_high, p);
  listen_low = omega (arith, n.listen_low, l);
  listen_high = omega (arith, n.listen_high, l);
}

pub remote_allowed-same :
    (cfg cfg' : SoftgredConfig) (remote : ℕ)
    → cfg'.allow ≡ cfg.allow
    → config_remote_allowed cfg' remote ≡ config_remote_allowed cfg remote
unfolding config_remote_allowed
remote_allowed-same cfg cfg' remote e =
    ap (λ x. if length x == 0 then true else in_allow x remote) e

module _ (site : Site)
    (pton_small : (t : Text) (a : ℕ) → site.inet_pton t ≡ some a → a < 2 ^ 32) where
  -- The first part.
  pub record Interfaces (ini : List IniPair) (cfg : SoftgredConfig) : Type 0 where
    pub capture : config_valid_ifname cfg.ifname ≡ true
    pub prefix : config_valid_ifname cfg.tunnel_prefix ≡ true
    pub short : short_prefix cfg.tunnel_prefix ≡ true
    pub bridges :
        (map : Text) × (ini_get ini global (codes "bridge-map") ≡ some map) × Mapped map cfg

  load_map-Mapped :
      (names : Bool) (o : Option Text) (cfg cfg' : SoftgredConfig)
      → load_map names o cfg ≡ (cfg', true)
      → (names ≡ true)
        × (map : Text) × (o ≡ some map)
        × Mapped map cfg'
        × (cfg' ≡ record cfg { bridge = cfg'.bridge })
  unfolding load_map parse_bridges
  load_map-Mapped names none cfg cfg' e = absurd (false_ne_true (ap (λ x. x.1) e))
  load_map-Mapped false (some map) cfg cfg' e = absurd (false_ne_true (ap (λ x. x.1) e))
  load_map-Mapped true (some map) cfg cfg' e =
      let bs = ap (λ x. x.0.bridge) e in
      (
        refl,
        map,
        refl,
        parse_bridges-Mapped cfg cfg' map e,
        sym (ap (λ x. x.0) e) ∙ ap (λ b. record cfg { bridge = b }) bs,
      )

  read_string-ini_get :
      (ini : List IniPair) (group key : Text)
      → read_string ini group key none ≡ ini_get ini group key
  unfolding read_string
  read_string-ini_get ini group key = elim (Option-cases (ini_get ini group key)) [
    | inl e ↦ rw (read_string, e)
    | inr (t, e) ↦ rw (read_string, e)
  ]

  pub load_interfaces-Interfaces :
      (ini : List IniPair) (cfg cfg' : SoftgredConfig)
      → load_interfaces site ini cfg ≡ (cfg', true)
      → Interfaces ini cfg'
        × (cfg'.srv_port ≡ cfg.srv_port)
        × (cfg'.srv_max_listen ≡ cfg.srv_max_listen)
  unfolding load_interfaces with_names
  load_interfaces-Interfaces ini cfg cfg' e =
      let (n, map, k, m, same) = load_map-Mapped _ _ (with_names ini cfg) cfg' e in
      let (c, p, t) = all_three _ _ _ n in
      (
        record {
          capture = ap (λ x. config_valid_ifname x.ifname) same ∙ c;
          prefix = ap (λ x. config_valid_ifname x.tunnel_prefix) same ∙ p;
          short = ap (λ x. short_prefix x.tunnel_prefix) same ∙ t;
          bridges = (map, sym (read_string-ini_get ini global (codes "bridge-map")) ∙ k, m);
        },
        ap (λ x. x.srv_port) same,
        ap (λ x. x.srv_max_listen) same,
      )

  -- The second part.
  pub record Allowlist (ini : List IniPair) (cfg : SoftgredConfig) : Type 0 where
    pub allowed :
        (list : Text)
        → ini_get ini global (codes "allow-remotes") ≡ some list
        → Admits site.inet_pton pton_small list cfg
    pub unlisted :
        ini_get ini global (codes "allow-remotes") ≡ none
        → (remote : ℕ) → config_remote_allowed cfg remote ≡ true

  load_list-Allowlist :
      (o : Option Text) (cfg cfg' : SoftgredConfig)
      → cfg.allow ≡ []
      → load_list site o cfg ≡ (cfg', true)
      → ((list : Text) → o ≡ some list → Admits site.inet_pton pton_small list cfg')
        × (o ≡ none → (remote : ℕ) → config_remote_allowed cfg' remote ≡ true)
        × (cfg' ≡ record cfg { allow = cfg'.allow })
  unfolding load_list parse_allow
  load_list-Allowlist none cfg cfg' empty e =
      let same = ap (λ x. x.0) e in
      (
        λ list h. absurd (none-some_absurd h),
        λ _ remote. all_allowed cfg' remote (sym (ap (λ x. x.allow) same) ∙ empty),
        sym same ∙ ap (λ x. record cfg { allow = x.allow }) same,
      )
  load_list-Allowlist (some list) cfg cfg' empty e = (
    λ l h.
        subst (λ x. Admits site.inet_pton pton_small x cfg') (some-injective h)
          (parse_allow-Admits site.inet_pton pton_small cfg cfg' list e),
    λ h. absurd (none-some_absurd (sym h)),
    sym (ap (λ x. x.0) e) ∙ ap (λ x. record cfg { allow = x.0.allow }) e,
  )

  pub load_allow-Allowlist :
      (ini : List IniPair) (cfg cfg' : SoftgredConfig)
      → load_allow site ini cfg ≡ (cfg', true)
      → Allowlist ini cfg' × (cfg' ≡ record cfg { allow = cfg'.allow })
  unfolding load_allow
  load_allow-Allowlist ini cfg cfg' e =
      let (a, u, same) =
        load_list-Allowlist (ini_get ini global (codes "allow-remotes")) (record cfg { allow = [] })
          cfg' refl e in
      (record { allowed = a; unlisted = u }, same)

  pub load_values-Numbers :
      (ini : List IniPair) (cfg cfg' : SoftgredConfig)
      → Numbers cfg
      → load_values site ini cfg ≡ (cfg', true)
      → Numbers cfg'
        × (cfg'.ifname ≡ cfg.ifname)
        × (cfg'.tunnel_prefix ≡ cfg.tunnel_prefix)
        × (cfg'.log_file ≡ cfg.log_file)
        × (cfg'.bridge ≡ cfg.bridge)
        × (cfg'.allow ≡ cfg.allow)
  unfolding load_values
  load_values-Numbers ini cfg cfg' n e =
      let same = sym (ap (λ x. x.0) e) in
      let port =
        then_read-bounds _ _ cfg.srv_port 1 65535
          (read_uint-bounds ini service (codes "port") cfg.srv_port 1 65535 (omega arith) n.port_low
            n.port_high)
          (n.port_low, n.port_high) in
      let listen =
        then_read-bounds _ _ cfg.srv_max_listen 1 128
          (read_uint-bounds ini service (codes "max-listen") cfg.srv_max_listen 1 128 (omega arith)
            n.listen_low n.listen_high)
          (n.listen_low, n.listen_high) in
      let port_eq = ap (λ x. x.srv_port) same in
      let listen_eq = ap (λ x. x.srv_max_listen) same in
      (
        record {
          port_low = subst (λ z. 1 ≤ z) (sym port_eq) port.0;
          port_high = subst (λ z. z ≤ 65535) (sym port_eq) port.1;
          listen_low = subst (λ z. 1 ≤ z) (sym listen_eq) listen.0;
          listen_high = subst (λ z. z ≤ 128) (sym listen_eq) listen.1;
        },
        ap (λ x. x.ifname) same,
        ap (λ x. x.tunnel_prefix) same,
        ap (λ x. x.log_file) same,
        ap (λ x. x.bridge) same,
        ap (λ x. x.allow) same,
      )

  pub load_paths-log_file :
      (ini : List IniPair) (cfg cfg' : SoftgredConfig)
      → load_paths site ini cfg ≡ (cfg', true)
      → (absolute cfg'.log_file ≡ true)
        × (one_line cfg'.log_file ≡ true)
        × (cfg' ≡ record cfg { pid_file = cfg'.pid_file; log_file = cfg'.log_file })
  unfolding load_paths
  load_paths-log_file ini cfg cfg' e =
      let same = sym (ap (λ x. x.0) e) in
      let (a, b) = both _ _ (ap (λ x. x.1) e) in
      (
        ap (λ x. absolute x.log_file) same ∙ a,
        ap (λ x. one_line x.log_file) same ∙ b,
        same ∙ ap (λ x. record cfg { pid_file = x.pid_file; log_file = x.log_file }) (sym same),
      )
