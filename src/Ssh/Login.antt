-- ===== src/Ssh/Login.antt =====
-- Who logs in and with what: `format_username`, `bastion_env_suffix`, `bastion_password`,
-- `identity_paths` and `auth_methods` of src/ssh.rs on unix. The environment, the files that are there
-- and the stored passwords are arguments.
pub mod Laws
use binport.Base.{
  ℕ, ◌-◌, zero, suc, Bool, true, false, not, ◌&&◌, ◌||◌, List, [], ◌∷◌, ◌++◌, map, Option, none,
  some, Result, ok, err, ◌==◌, leb, length, any, filter, if◌then◌else◌, is_empty,
}
use binport.Ssh.{Destination, BastionProxy}
use binport.Ssh.Config.{join_text}
use binport.Places.{same_place}
use binport.Text.{Text, codes, equal, starts_with, split, is_ascii_alphanumeric}

-- `s.replace(part, with)` for a `part` that is not empty; the number says how many characters of a
-- match are left.
abbrev pub replace_from : Text → Text → ℕ → Text → Text
replace_from part with n [] = []
replace_from part with (suc n) (c ∷ s) = replace_from part with n s
replace_from part with zero (c ∷ s) =
    if starts_with part (c ∷ s)
    then with ++ replace_from part with (length part - 1) s
    else c ∷ replace_from part with zero s

unfoldable pub replace : Text → Text → Text → Text
replace part with s = replace_from part with zero s

unfoldable pub format_username : BastionProxy → Text → Text
format_username bastion target_host =
    replace (codes "{account}") bastion.account
      (replace (codes "{host}") target_host (replace (codes "{user}") bastion.user bastion.format))

unfoldable pub to_ascii_uppercase : ℕ → ℕ
to_ascii_uppercase c = if leb b'a' c && leb c b'z' then c - 32 else c

unfoldable pub bastion_env_suffix : Text → Text
bastion_env_suffix host =
    map (λ c. if is_ascii_alphanumeric c then to_ascii_uppercase c else b'_') host

-- The variables by name.
abbrev pub Environment : Type 0
Environment = Text → Option Text

-- The password and whether it is to be stored; `stored` is what `auth::read_bastion_password` gives.
unfoldable pub bastion_password :
    {E : Type 0}
    → Environment
    → Result E (Option Text)
    → BastionProxy
    → Result E (Option Text × Bool)
bastion_password env stored bastion =
    elim (env (codes "BINPORT_BASTION_PASSWORD_" ++ bastion_env_suffix bastion.host)) [
      | some password ↦ ok (some password, true)
      | none ↦ elim (env (codes "BINPORT_BASTION_PASSWORD")) [
        | some password ↦ ok (some password, true)
        | none ↦ elim stored [ ok found ↦ ok (found, false) | err e ↦ err e ]
      ]
    ]

-- `Path::components`: empty parts and `.` are left out, but for a `.` at the start of a relative path. The
-- empty first part is the root.
abbrev pub proper_parts : List Text → List Text
proper_parts parts = filter (λ part. not (is_empty part || equal part (codes "."))) parts

abbrev pub leading_part : Text → List Text
leading_part path =
    if starts_with (codes "/") path
    then [] ∷ []
    else if equal path (codes ".") || starts_with (codes "./") path
    then codes "." ∷ []
    else []

unfoldable pub components : Text → List Text
unfolding split
components path = leading_part path ++ proper_parts (split b'/' path)

-- Whether two paths are equal.
abbrev pub same_path : Text → Text → Bool
same_path p q = same_place (components p) (components q)

abbrev pub contains_path : Text → List Text → Bool
contains_path path = any (λ p. same_path p path)

-- `paths.push(path)` where the path is not there yet.
abbrev pub push_new : List Text → Text → List Text
push_new paths path = if contains_path path paths then paths else paths ++ path ∷ []

abbrev pub key_names : List Text
key_names = codes "id_rsa" ∷ codes "id_dsa" ∷ codes "id_ecdsa" ∷ codes "id_ed25519" ∷ []

abbrev pub push_keys : (Text → Bool) → Text → List Text → List Text → List Text
push_keys is_file ssh_dir [] paths = paths
push_keys is_file ssh_dir (name ∷ names) paths =
    push_keys is_file ssh_dir names
      (if is_file (join_text ssh_dir name) then push_new paths (join_text ssh_dir name) else paths)

abbrev pub managed_paths : Option Text → List Text
managed_paths none = []
managed_paths (some path) = path ∷ []

abbrev pub with_identity : Option Text → List Text → List Text
with_identity none paths = paths
with_identity (some path) paths = push_new paths path

unfoldable pub identity_paths : Option Text → (Text → Bool) → Destination → List Text
identity_paths home is_file d = elim home [
  | none ↦ with_identity d.identity (managed_paths d.managed_identity)
  | some h ↦
      push_keys is_file (join_text h (codes ".ssh")) key_names
        (with_identity d.identity (managed_paths d.managed_identity))
]

pub data AuthMethod : Type 0 where
  with_password : Text → AuthMethod
  with_key_file : Text → AuthMethod
  with_agent : AuthMethod

pub data Error : Type 0 where
  no_key : Error

abbrev pub agent_auth_method : Environment → List AuthMethod
agent_auth_method env = elim (env (codes "SSH_AUTH_SOCK")) [
  | none ↦ []
  | some socket ↦ with_agent ∷ []
]

abbrev pub methods_or_error : List AuthMethod → Result Error (List AuthMethod)
methods_or_error [] = err no_key
methods_or_error (m ∷ methods) = ok (m ∷ methods)

-- A password is tried alone; otherwise the keys in their order, and then the agent.
unfoldable pub auth_methods :
    Environment
    → Option Text
    → (Text → Bool)
    → Destination
    → Option Text
    → Result Error (List AuthMethod)
auth_methods env home is_file d (some password) = ok (with_password password ∷ [])
auth_methods env home is_file d none =
    methods_or_error (map with_key_file (identity_paths home is_file d) ++ agent_auth_method env)
