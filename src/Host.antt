-- ===== src/Host.antt =====
-- Host aliases and their validation: src/host.rs.
pub mod Config
pub mod Lines
pub mod Directives
pub mod Block
pub mod Checks
pub mod RoundTrip
pub mod Sound
pub mod Registry
pub mod Store
pub mod Lookup
pub mod Rewrite
pub mod Include
pub mod Directory
use binport.Base.{
  ℕ, Bool, true, false, not, ◌&&◌, ◌||◌, [], ◌∷◌, Option, none, some, Result, ok, err, ◌>>=◌, ◌>>◌,
  refuse_if, ok_or, ◌==◌, if◌then◌else◌, any, is_empty,
}
use binport.Bastion.{find_preset}
use binport.Text.{Text, codes, equal, contains, is_ascii_whitespace, is_ascii_control}

pub record HostEntry : Type 0 where
  pub name : Text
  pub hostname : Text
  pub user : Text
  pub port : ℕ
  pub proxy_jump : Option Text
  pub strategy : Option Text
  pub bastion_proxy : Option Text
  pub bastion_user : Option Text
  pub bastion_account : Option Text
  pub bastion_port : Option ℕ
  pub bastion_preset : Option Text
  pub bastion_format : Option Text

-- One constructor for each message of src/host.rs, with the values that the message holds.
pub data Error : Type 0 where
  invalid : Text → Text → Error
  self_jump : Error
  unsupported_strategy : Text → Error
  strategy_without_jump : Error
  jump_and_bastion : Error
  options_without_bastion : Error
  unknown_preset : Text → Error
  format_mismatch : Text → Error
  format_without_user : Error
  format_without_account : Error
  invalid_port : Error
  invalid_bastion_port : Error
  in_main_config : Text → Error
  already_exists : Text → Error

abbrev pub is_some {ℓ} : {A : Type ℓ} → Option A → Bool
is_some none = false
is_some (some a) = true

-- A byte that no configuration value holds.
unfoldable pub is_refused : ℕ → Bool
unfolding is_ascii_whitespace is_ascii_control
is_refused c = is_ascii_whitespace c || is_ascii_control c || c == b'#'

unfoldable pub validate_config_value : Text → Text → Result Error (Unit {0})
unfolding is_refused
validate_config_value label value =
    refuse_if (is_empty value || any is_refused value) (invalid label value)

-- `['*', '?', '!']`
is_pattern : ℕ → Bool
is_pattern c = c == b'*' || c == b'?' || c == b'!'

unfoldable pub validate_token : Text → Text → Result Error (Unit {0})
unfolding is_refused is_pattern
validate_token label value =
    refuse_if (is_empty value || any is_refused value || any is_pattern value) (invalid label value)

-- `if let Some(value) = &entry.field { check(label, value)? }`
abbrev pub if_some {ℓ} :
    {A : Type ℓ} → (A → Result Error (Unit {0})) → Option A → Result Error (Unit {0})
if_some check none = ok tt
if_some check (some value) = check value

unfoldable pub validate_jump : Text → Text → Result Error (Unit {0})
unfolding validate_token
validate_jump name jump = do
  validate_token (codes "jump host") jump
  refuse_if (equal jump name) self_jump

unfoldable pub validate_strategy : Option Text → Text → Result Error (Unit {0})
unfolding validate_token
validate_strategy proxy_jump strategy = do
  validate_token (codes "route strategy") strategy
  refuse_if (not (equal strategy (codes "exec-hop"))) (unsupported_strategy strategy)
  refuse_if (not (is_some proxy_jump)) strategy_without_jump

abbrev differs : Option Text → Text → Bool
differs none known = false
differs (some format) known = not (equal format known)

unfoldable pub validate_preset : Option Text → Text → Result Error (Unit {0})
unfolding validate_token find_preset
validate_preset bastion_format preset = do
  validate_token (codes "bastion preset") preset
  known ← ok_or (find_preset preset) (unknown_preset preset)
  refuse_if (differs bastion_format known.format) (format_mismatch preset)

abbrev pub has_bastion_options : HostEntry → Bool
has_bastion_options entry =
    is_some entry.bastion_user
    || is_some entry.bastion_account
    || is_some entry.bastion_port
    || is_some entry.bastion_preset
    || is_some entry.bastion_format

-- `entry.bastion_format.as_deref().unwrap_or("{user}/{host}/{account}")`
abbrev pub format_or_default : Option Text → Text
format_or_default none = codes "{user}/{host}/{account}"
format_or_default (some format) = format

unfoldable pub validate_names : HostEntry → Result Error (Unit {0})
unfolding contains
validate_names entry =
    let format = format_or_default entry.bastion_format in
    (do
      refuse_if (contains (codes "{user}") format && not (is_some entry.bastion_user))
          format_without_user
      refuse_if (contains (codes "{account}") format && not (is_some entry.bastion_account))
          format_without_account)

unfoldable pub validate_entry : HostEntry → Result Error (Unit {0})
unfolding validate_token validate_jump validate_strategy validate_preset validate_names
validate_entry entry = do
  validate_token (codes "host name") entry.name
  validate_token (codes "hostname") entry.hostname
  validate_token (codes "user") entry.user
  if_some (validate_jump entry.name) entry.proxy_jump
  if_some (validate_strategy entry.proxy_jump) entry.strategy
  refuse_if (is_some entry.proxy_jump && is_some entry.bastion_proxy) jump_and_bastion
  refuse_if (not (is_some entry.bastion_proxy) && has_bastion_options entry) options_without_bastion
  if_some (validate_token (codes "bastion host")) entry.bastion_proxy
  if_some (validate_token (codes "bastion user")) entry.bastion_user
  if_some (validate_token (codes "bastion account")) entry.bastion_account
  if_some (validate_preset entry.bastion_format) entry.bastion_preset
  if_some (validate_config_value (codes "bastion format")) entry.bastion_format
  if is_some entry.bastion_proxy then validate_names entry else ok tt
