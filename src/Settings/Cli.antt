-- ===== src/Settings/Cli.antt =====
-- `softgred_config_load_cli` of src/softgred_config.c. What `getopt_long` returns round by round is a
-- list.
use softgre.Shared.{◌+◌, Bool, true, List, [], ◌∷◌, Option, none, some, if◌then◌else◌, min}
use softgre.Compat.{Text}
use softgre.Settings.{SoftgredConfig}

-- The options, with `optarg`; `other` is what `default` takes.
pub data CliOption : Type 0 where
  config_file pid_file log_file : Text → CliOption
  foreground debug debug_time help version other : CliOption

-- The returned -1, 0 and 1.
pub data CliResult : Type 0 where
  usage_error stop go_on : CliResult

-- The cases of the `switch`, with `none` for the loop to go on.
unfoldable pub apply_option : SoftgredConfig → CliOption → SoftgredConfig × Option CliResult
apply_option cfg (config_file path) = (record cfg { config_file = some path }, none)
apply_option cfg (pid_file path) = (record cfg { pid_file = some path }, none)
apply_option cfg (log_file path) = (record cfg { log_file = some path }, none)
apply_option cfg foreground = (record cfg { is_foreground = true }, none)
apply_option cfg debug = (record cfg { dbg_mode = min (cfg.dbg_mode + 1) 4 }, none)
apply_option cfg debug_time = (record cfg { dbg_time = true }, none)
apply_option cfg version = (cfg, some stop)
apply_option cfg help = (cfg, some stop)
apply_option cfg other = (cfg, some usage_error)

-- `operands` says whether arguments are left behind the options.
unfoldable pub softgred_config_load_cli :
    SoftgredConfig → List CliOption → Bool → SoftgredConfig × CliResult
unfolding apply_option
softgred_config_load_cli cfg [] operands = (cfg, if operands then usage_error else go_on)
softgred_config_load_cli cfg (opt ∷ opts) operands =
    let (cfg', ended) = apply_option cfg opt in
    let rest = softgred_config_load_cli cfg' opts operands in
    elim ended [ none ↦ rest | some result ↦ (cfg', result) ]
