-- ===== src/Ssh/Resolve.antt =====
-- `Destination::resolve` of src/ssh.rs. The environment and the home directory are arguments: what the
-- two configuration files hold, which files are there, and the path of the managed key.
pub mod Sound
use binport.Base.{
  ℕ, Bool, true, false, not, List, [], ◌∷◌, ◌++◌, Option, none, some, Result, ok, err, ◌>>=◌, ◌==◌,
  if◌then◌else◌,
}
use binport.Ssh.Config.{apply_ssh_config, join_text, first, or_keep}
use binport.Ssh.Login.{Environment}
use binport.Ssh.{Destination}
use binport.Text.{Text, codes, split_once}

pub record Home : Type 0 where
  pub path : Text
  pub config : Option Text
  pub managed_config : Option Text
  pub is_file : Text → Bool

-- The user that was asked for, and the alias.
unfoldable pub split_user : Text → Option Text × Text
split_user value = elim (split_once (λ c. c == b'@') value) [
  | none ↦ (none, value)
  | some (user, host) ↦ (some user, host)
]

abbrev pub default_user : Environment → Option Text → Text
default_user env requested =
    or_keep (codes "root") (first requested (first (env (codes "USER")) (env (codes "USERNAME"))))

unfoldable pub initial : Environment → Option Text → Text → Destination
initial env requested alias = record {
  hostname = alias;
  port = 22;
  user = default_user env requested;
  identity = none;
  managed_identity = none;
  proxy_jump = none;
  bastion_proxy = none;
}

abbrev pub is_none : Option Text → Bool
is_none none = true
is_none (some a) = false

-- A configuration that cannot be read changes nothing.
unfoldable pub apply_file : Text → Option Text → Text → Bool → Destination → Destination
apply_file home none alias allow_user d = d
apply_file home (some source) alias allow_user d =
    apply_ssh_config (some home) source alias allow_user d

abbrev pub first_key : (Text → Bool) → Text → List Text → Option Text
first_key is_file ssh_dir [] = none
first_key is_file ssh_dir (name ∷ names) =
    if is_file (join_text ssh_dir name)
    then some (join_text ssh_dir name)
    else first_key is_file ssh_dir names

abbrev pub default_keys : List Text
default_keys = codes "id_ed25519" ∷ codes "id_ecdsa" ∷ codes "id_rsa" ∷ []

unfoldable pub set_keys : Home → Text → Destination → Destination
set_keys home managed d = record d {
  managed_identity = if home.is_file managed then some managed else d.managed_identity;
  identity =
      first d.identity (first_key home.is_file (join_text home.path (codes ".ssh")) default_keys);
}

-- `managed_key` is what `auth::managed_key_path` gives for the whole value.
unfoldable pub resolve :
    {E : Type 0} → Environment → Option Home → (Text → Result E Text) → Text → Result E Destination
resolve env home managed_key value =
    let (requested, alias) = split_user value in
    let d = initial env requested alias in
    elim home [
      | none ↦ ok d
      | some h ↦ managed_key value >>= λ managed. ok (
          set_keys h managed (
            apply_file h.path h.managed_config alias (is_none requested)
              (apply_file h.path h.config alias (is_none requested) d)))
    ]
