-- ===== src/Tests/Ssh.antt =====
-- Destinations: src/ssh.rs at the inputs of its tests.
use binport.Base.{
  Bool, true, false, [], ◌∷◌, ◌≡◌, refl, Option, none, some, Result, ok, arith, All, IsDistinct,
}
use binport.Host.Config.{render, key_value}
use binport.Host.Registry.{lookup}
use binport.Host.RoundTrip.{IsStored}
use binport.Host.{HostEntry, validate_entry}
use binport.Ssh.Config.Managed.{IsWord, reached, apply_ssh_config-render}
use binport.Ssh.Config.{
  apply_ssh_config, settled, read_pair, set_found, names, join_text, with_separator, or_keep,
  default_format,
}
use binport.Ssh.Groups.Sound.{IsIncreasing, IsSelected, select_hosts_from_config-IsIncreasing}
use binport.Ssh.Groups.{select_hosts_from_config, is_member, group_prefix, without_last}
use binport.Ssh.Login.Laws.{Begins, identity_paths-IsDistinct}
use binport.Ssh.Login.{same_path, format_username, replace, identity_paths, Environment}
use binport.Ssh.Resolve.Sound.{resolve-managed}
use binport.Ssh.Resolve.{Home, resolve, split_user, initial, apply_file, set_keys}
use binport.Ssh.{Destination, BastionProxy}
use binport.Text.Decimal
use binport.Text.Order.{less}
use binport.Text.Search.{trim_end_matches}
use binport.Text.{
  Text, codes, equal, lines, trim, trim_start, trim_end, split_whitespace, split_once, strip_prefix,
  eq_ignore_ascii_case,
}

abbrev prod : HostEntry
prod = record {
  name = codes "prod";
  hostname = codes "192.0.2.8";
  user = codes "deploy";
  port = 2202;
  proxy_jump = none;
  strategy = none;
  bastion_proxy = none;
  bastion_user = none;
  bastion_account = none;
  bastion_port = none;
  bastion_preset = none;
  bastion_format = none;
}

prod-IsStored : IsStored prod
unfolding trim_start trim_end validate_entry
prod-IsStored = (
  refl,
  record {
    name = record { at_start = refl; at_end = refl };
    hostname = record { at_start = refl; at_end = refl };
    user = record { at_start = refl; at_end = refl };
    port = omega arith;
    proxy_jump = tt;
    strategy = tt;
    bastion_proxy = tt;
    bastion_user = tt;
    bastion_account = tt;
    bastion_port = tt;
    bastion_preset = tt;
    bastion_format = tt;
  },
)

prod-IsWord : IsWord prod
unfolding split_whitespace
prod-IsWord = refl

abbrev me : Destination
me = record {
  hostname = codes "prod";
  port = 22;
  user = codes "me";
  identity = none;
  managed_identity = none;
  proxy_jump = none;
  bastion_proxy = none;
}

-- Two `Host` blocks: the first value counts.
first_value :
    apply_ssh_config none
      (codes "Host prod\n HostName 192.0.2.8\n User deploy\n Port 2202\nHost *\n Port 2\n")
      (codes "prod")
      true
      me
    ≡ record me { hostname = codes "192.0.2.8"; port = 2202; user = codes "deploy" }
unfolding apply_ssh_config settled read_pair set_found names key_value lines split_whitespace trim
    eq_ignore_ascii_case Decimal.parse
first_value = refl

apply_ssh_config-render_example :
    apply_ssh_config none (render (prod ∷ [])) (codes "prod") true me
    ≡ reached true (lookup (codes "prod") (prod ∷ [])) me
apply_ssh_config-render_example =
    apply_ssh_config-render none (prod ∷ []) (codes "prod") true me (prod-IsStored, tt)
      (prod-IsWord, tt) (tt, tt)

abbrev home : Home
home = record {
  path = codes "/home/me";
  config = some (codes "Host prod\n HostName other\n");
  managed_config = some (render (prod ∷ []));
  is_file = λ path. equal path (codes "/home/me/.ssh/id_rsa");
}

abbrev env : Environment
env name = if_user (equal name (codes "USER"))
  where
    if_user : Bool → Option Text
    if_user true = some (codes "me")
    if_user false = none

abbrev managed_key : Text → Result (Unit {0}) Text
managed_key value = ok (codes "/config/keys/prod")

abbrev resolved : Destination
resolved = record {
  hostname = codes "192.0.2.8";
  port = 2202;
  user = codes "root";
  identity = some (codes "/home/me/.ssh/id_rsa");
  managed_identity = none;
  proxy_jump = none;
  bastion_proxy = none;
}

resolve_prod : resolve env (some home) managed_key (codes "root@prod") ≡ ok resolved
unfolding resolve split_user initial apply_file set_keys apply_ssh_config settled read_pair
    set_found names join_text with_separator render key_value lines split_whitespace trim
    eq_ignore_ascii_case split_once Decimal.parse Decimal.show
resolve_prod = refl

named_prod : lookup (split_user (codes "root@prod")).1 (prod ∷ []) ≡ some prod
unfolding split_user split_once
named_prod = refl

resolve-managed_example :
    (resolved.hostname ≡ prod.hostname)
    × (resolved.port ≡ prod.port)
    × (resolved.user ≡ or_keep prod.user (split_user (codes "root@prod")).0)
resolve-managed_example =
    resolve-managed env home managed_key (codes "root@prod") (prod ∷ []) prod resolved refl
      (prod-IsStored, tt) (prod-IsWord, tt) (tt, tt) named_prod resolve_prod

abbrev config : Text
config =
    codes
      "Host prod-api-02\n HostName 192.0.2.2\nHost prod-api-01 prod-worker-01\nHost prod-*\nHost *\n"

select_prod :
    select_hosts_from_config config (codes "prod")
    ≡ codes "prod-api-01" ∷ codes "prod-api-02" ∷ codes "prod-worker-01" ∷ []
unfolding select_hosts_from_config is_member group_prefix without_last key_value lines
    split_whitespace strip_prefix eq_ignore_ascii_case trim_end_matches less
select_prod = refl

select_hosts_from_config-IsIncreasing_example :
    IsIncreasing (select_hosts_from_config config (codes "prod"))
    × All (IsSelected (codes "prod")) (select_hosts_from_config config (codes "prod"))
select_hosts_from_config-IsIncreasing_example =
    select_hosts_from_config-IsIncreasing config (codes "prod")

abbrev keyed : Destination
keyed = record me {
  managed_identity = some (codes "/binport/managed");
  identity = some (codes "/home/me/.ssh/id_rsa");
}

identity_paths-IsDistinct_example :
    IsDistinct same_path (identity_paths (some (codes "/home/me")) home.is_file keyed)
    × ((m : Text)
        → keyed.managed_identity ≡ some m
        → Begins (m ∷ []) (identity_paths (some (codes "/home/me")) home.is_file keyed))
identity_paths-IsDistinct_example =
    identity_paths-IsDistinct (some (codes "/home/me")) home.is_file keyed

abbrev gate : BastionProxy
gate = record {
  host = codes "10.0.0.1";
  port = 22;
  user = codes "alice";
  account = codes "deploy";
  preset = none;
  format = default_format;
}

login_name : format_username gate (codes "192.168.1.5") ≡ codes "alice/192.168.1.5/deploy"
unfolding format_username replace
login_name = refl
