-- ===== src/Settings.antt =====
-- src/softgred_config.h and the parts of src/softgred_config.c that are not reading a file: the
-- record of the settings, the test on interface names, and the allowlist.
pub mod Ini
pub mod Values
pub mod Allow
pub mod Bridges
pub mod Load
pub mod Cli
use Prim.Native.Nat.{bit_and}
use softgre.Shared.{
  ℕ, zero, suc, ◌+◌, ◌-◌, ◌^◌, Bool, true, false, not, ◌&&◌, ◌||◌, List, [], ◌∷◌, Option, none,
  some, ltb, leb, ◌==◌, if◌then◌else◌, length,
}
use softgre.Compat.{Text, codes, ascii_isalnum, streq}
use softgre.Provision.{TunnelBridge, Config}

-- `struct allow_remote`
pub record AllowRemote : Type 0 where
  pub network : ℕ
  pub mask : ℕ

-- `struct softgred_config`, less `dbg_file` and `uts`. A NULL pointer is `none`; the arrays are
-- lists, so that `bridge_slot` and `allow_slot` are their lengths; addresses are in host byte order.
pub record SoftgredConfig : Type 0 where
  pub config_file : Option Text
  pub ifname : Option Text
  pub tunnel_prefix : Option Text
  pub pid_file : Option Text
  pub log_file : Option Text
  pub srv_bind_in : Option Text
  pub is_foreground : Bool
  pub bridge_force : Bool
  pub dbg_enable : Bool
  pub dbg_time : Bool
  pub dbg_mode : ℕ
  pub srv_port : ℕ
  pub srv_max_listen : ℕ
  pub bridge : List TunnelBridge
  pub allow : List AllowRemote
  pub local : ℕ
  pub started_time : ℕ

abbrev pub ifnamsiz : ℕ
ifnamsiz = 16

abbrev pub max_attach : ℕ
max_attach = 10

abbrev pub max_allow : ℕ
max_allow = 64

-- `softgred_config_ref` at the first call; what a static variable does not name is zero.
unfoldable pub initial_config : SoftgredConfig
initial_config = record {
  config_file = none;
  ifname = none;
  tunnel_prefix = none;
  pid_file = none;
  log_file = none;
  srv_bind_in = none;
  is_foreground = false;
  bridge_force = false;
  dbg_enable = false;
  dbg_time = false;
  dbg_mode = 0;
  srv_port = 8888;
  srv_max_listen = 10;
  bridge = [];
  allow = [];
  local = 0;
  started_time = 0;
}

-- The loop of `config_valid_ifname`.
unfoldable pub ifname_bytes : Text → Bool
unfolding ascii_isalnum
ifname_bytes [] = true
ifname_bytes (c ∷ name) =
    (ascii_isalnum c || c == b'_' || c == b'-' || c == b'.') && ifname_bytes name

unfoldable pub config_valid_ifname : Option Text → Bool
unfolding streq ifname_bytes
config_valid_ifname none = false
config_valid_ifname (some name) =
    not (length name == 0)
    && ltb (length name) ifnamsiz
    && not (streq name (codes "."))
    && not (streq name (codes ".."))
    && ifname_bytes name

-- The loop of `config_remote_allowed`.
unfoldable pub in_allow : List AllowRemote → ℕ → Bool
in_allow [] remote = false
in_allow (a ∷ allow) remote = bit_and remote a.mask == a.network || in_allow allow remote

unfoldable pub config_remote_allowed : SoftgredConfig → ℕ → Bool
unfolding in_allow
config_remote_allowed cfg remote = if length cfg.allow == 0 then true else in_allow cfg.allow remote

-- What provisioning reads of the settings.
unfoldable pub provision_config : SoftgredConfig → Config
unfolding config_remote_allowed
provision_config cfg = record {
  local = cfg.local;
  bridges = cfg.bridge;
  remote_allowed = config_remote_allowed cfg;
}
