-- ===== src/Ssh/Config.antt =====
-- How a configuration file of ssh changes a destination: `apply_ssh_config` of src/ssh.rs. A variable
-- of the source with its `_set` flag is an option here.
pub mod Pairs
pub mod Scan
pub mod Managed
use binport.Base.{
  ℕ, Bool, true, false, not, ◌&&◌, ◌||◌, List, [], ◌∷◌, ◌++◌, Option, none, some, if◌then◌else◌,
  any, is_empty, ◌==◌,
}
use binport.Host.Config.{key_value, is_key, u16_max}
use binport.Ssh.{Destination, BastionProxy}
use binport.Text.Decimal
use binport.Text.{Text, codes, equal, lines, trim, split_whitespace, strip_prefix, starts_with}

-- What was set by the lines so far.
pub record Found : Type 0 where
  pub hostname : Option Text
  pub user : Option Text
  pub port : Option ℕ
  pub identity : Option Text
  pub proxy_jump : Option Text
  pub bastion_host : Option Text
  pub bastion_user : Option Text
  pub bastion_account : Option Text
  pub bastion_port : Option ℕ
  pub bastion_format : Option Text
  pub bastion_preset : Option Text

abbrev pub nothing_found : Found
nothing_found = record {
  hostname = none;
  user = none;
  port = none;
  identity = none;
  proxy_jump = none;
  bastion_host = none;
  bastion_user = none;
  bastion_account = none;
  bastion_port = none;
  bastion_format = none;
  bastion_preset = none;
}

-- A value that is set stays.
abbrev pub first {ℓ} : {A : Type ℓ} → Option A → Option A → Option A
first (some a) b = some a
first none b = b

unfoldable pub set_found : Found → Text → Text → Found
set_found f key value =
    if is_key key "hostname"
    then record f { hostname = first f.hostname (some value) }
    else if is_key key "user"
    then record f { user = first f.user (some value) }
    else if is_key key "port"
    then record f { port = first f.port (Decimal.parse u16_max value) }
    else if is_key key "identityfile"
    then record f { identity = first f.identity (some value) }
    else if is_key key "proxyjump"
    then record f { proxy_jump = first f.proxy_jump (some value) }
    else if is_key key "bastionproxy"
    then record f { bastion_host = first f.bastion_host (some value) }
    else if is_key key "bastionuser"
    then record f { bastion_user = first f.bastion_user (some value) }
    else if is_key key "bastionaccount"
    then record f { bastion_account = first f.bastion_account (some value) }
    else if is_key key "bastionport"
    then record f { bastion_port = first f.bastion_port (Decimal.parse u16_max value) }
    else if is_key key "bastionformat"
    then record f { bastion_format = first f.bastion_format (some value) }
    else if is_key key "bastionpreset"
    then record f { bastion_preset = first f.bastion_preset (some value) }
    else f

pub record Reader : Type 0 where
  pub active : Bool
  pub found : Found

-- `value.split_whitespace().any(|pattern| pattern == alias || pattern == "*")`
unfoldable pub names : Text → Text → Bool
names alias value =
    any (λ pattern. equal pattern alias || equal pattern (codes "*")) (split_whitespace value)

unfoldable pub read_pair : Text → Reader → Text → Text → Reader
read_pair alias r key value =
    if is_key key "host"
    then record r { active = names alias value }
    else if r.active
    then record r { found = set_found r.found key value }
    else r

abbrev pub read_line : Text → Reader → Option (Text × Text) → Reader
read_line alias r none = r
read_line alias r (some (key, value)) = read_pair alias r key (trim value)

abbrev pub read_lines : Text → Reader → List Text → Reader
read_lines alias r [] = r
read_lines alias r (raw ∷ ls) = read_lines alias (read_line alias r (key_value raw)) ls

-- A path with the separator that a further component needs.
unfoldable pub with_separator : Text → Text
with_separator [] = []
with_separator (c ∷ []) = if c == b'/' then c ∷ [] else c ∷ codes "/"
with_separator (c ∷ (d ∷ s)) = c ∷ with_separator (d ∷ s)

-- `home.join(suffix)`, as texts
unfoldable pub join_text : Text → Text → Text
join_text home [] = with_separator home
join_text home (c ∷ suffix) = if c == b'/' then c ∷ suffix else with_separator home ++ (c ∷ suffix)

unfoldable pub expand_home : Option Text → Text → Text
expand_home home value = elim (strip_prefix (codes "~/") value) [
  | none ↦ value
  | some suffix ↦ elim home [ none ↦ value | some h ↦ join_text h suffix ]
]

abbrev pub or_keep {ℓ} : {A : Type ℓ} → A → Option A → A
or_keep old none = old
or_keep old (some new) = new

abbrev pub keep_or_set {ℓ} : {A : Type ℓ} → Option A → Option A → Option A
keep_or_set old none = old
keep_or_set old (some new) = some new

-- `if value != "none"`
abbrev pub jump_of : Option Text → Option Text
jump_of none = none
jump_of (some value) = if equal value (codes "none") then none else some value

abbrev pub or_empty : Option Text → Text
or_empty = or_keep []

abbrev pub default_format : Text
default_format = codes "{user}/{host}/{account}"

abbrev pub bastion_of : Found → Text → BastionProxy
bastion_of f host = record {
  host = host;
  port = or_keep 22 f.bastion_port;
  user = or_empty f.bastion_user;
  account = or_empty f.bastion_account;
  preset = f.bastion_preset;
  format =
      if is_empty (or_empty f.bastion_format) then default_format else or_empty f.bastion_format;
}

-- `if bastion_host_set && !bastion_host.is_empty()`
abbrev pub bastion : Found → Option BastionProxy → Option BastionProxy
bastion f old = elim f.bastion_host [
  | none ↦ old
  | some host ↦ if is_empty host then old else some (bastion_of f host)
]

abbrev pub expanded : Option Text → Option Text → Option Text
expanded home none = none
expanded home (some path) = some (expand_home home path)

-- The user is left alone where one was asked for.
unfoldable pub settled : Option Text → Bool → Found → Destination → Destination
settled home allow_user f d = record d {
  hostname = or_keep d.hostname f.hostname;
  user = if allow_user then or_keep d.user f.user else d.user;
  port = or_keep d.port f.port;
  identity = keep_or_set d.identity (expanded home f.identity);
  proxy_jump = keep_or_set d.proxy_jump (jump_of f.proxy_jump);
  bastion_proxy = bastion f d.bastion_proxy;
}

abbrev pub start : Reader
start = record { active = false; found = nothing_found }

unfoldable pub apply_ssh_config : Option Text → Text → Text → Bool → Destination → Destination
apply_ssh_config home source alias allow_user d =
    settled home allow_user (read_lines alias start (lines source)).found d
