-- ===== src/Auth.antt =====
-- Stored passwords and managed keys: src/auth.rs on unix. The hash of a text, the environment and the
-- making of a key pair are arguments. The two directories are files by name; the permissions of the
-- files are left out.
pub mod Names
use binport.Base.{
  ℕ, Bool, true, false, not, ◌&&◌, ◌||◌, List, [], ◌∷◌, ◌++◌, map, Option, none, some, Result, ok,
  err, ◌==◌, if◌then◌else◌, is_empty,
}
use binport.Exec.{Exec, ◌>>=◌, ◌>>◌, pure, fail, lift, gets, modify}
use binport.Files
use binport.Files.{Files, is_file}
use binport.Json.{Bytes}
use binport.Ssh.Config.{join_text}
use binport.Ssh.Login.{Environment}
use binport.Text.Decimal
use binport.Text.Search.{take, trim_matches}
use binport.Text.{Text, codes, trim, is_ascii_alphanumeric}

pub data Error : Type 0 where
  no_config_dir : Error
  incomplete_key_pair : Text → Error
  no_key : Text → Error
  not_generated : Error
  file_not_found : Error

abbrev pub bastion_credential_name : Text → ℕ → Text → Text
bastion_credential_name host port user =
    user ++ (codes "@" ++ (host ++ (codes ":" ++ Decimal.show port)))

-- The name of a file below `credentials`.
abbrev pub credential_file : (Text → Text) → Text → Text
credential_file hash name = take 24 (hash name)

unfoldable pub bastion_credential : (Text → Text) → Text → ℕ → Text → Text
bastion_credential hash host port user =
    credential_file hash (bastion_credential_name host port user)

unfoldable pub route_credential : (Text → Text) → Text → Text
route_credential hash alias = credential_file hash (codes "route:" ++ alias)

unfoldable pub save_password : Text → Text → Files → Files
save_password file password credentials = Files.write file password credentials

unfoldable pub read_password : Text → Files → Option Text
read_password file credentials = Files.read file credentials

-- Whether there was one.
unfoldable pub remove_password : Text → Files → Bool × Files
remove_password file credentials = (is_file file credentials, Files.remove file credentials)

-- The directory of the configuration; `home` is that of `dirs::home_dir`.
unfoldable pub config_root : Environment → Option Text → Result Error Text
config_root env home = elim (env (codes "BINPORT_CONFIG_DIR")) [
  | some path ↦ ok path
  | none ↦ elim (env (codes "XDG_CONFIG_HOME")) [
    | some path ↦ ok (join_text path (codes "binport"))
    | none ↦ elim home [
      | some path ↦ ok (join_text (join_text path (codes ".config")) (codes "binport"))
      | none ↦ err no_config_dir
    ]
  ]
]

abbrev pub readable_char : ℕ → ℕ
readable_char c = if is_ascii_alphanumeric c || c == b'-' || c == b'_' || c == b'.' then c else b'_'

abbrev pub or_host : Text → Text
or_host readable = if is_empty readable then codes "host" else readable

-- The name of a key below `keys`.
unfoldable pub managed_key_name : (Text → Text) → Text → Text
managed_key_name hash host =
    or_host (trim_matches b'.' (take 48 (map readable_char host)))
    ++ (codes "-" ++ take 12 (hash host))

abbrev pub public_name : Text → Text
public_name private = private ++ codes ".pub"

pub record ManagedKey : Type 0 where
  pub private_name : Text
  pub public_key : Text
  pub created : Bool

-- A private key and its public key, as texts.
abbrev pub KeyPair : Type 0
KeyPair = Text × Text

unfoldable pub write_pair : Text → KeyPair → Files → Files
write_pair name (private, public) keys =
    Files.write (public_name name) (public ++ codes "\n") (Files.write name private keys)

abbrev pub trimmed_or_empty : Option Text → Text
trimmed_or_empty none = []
trimmed_or_empty (some text) = trim text

unfoldable pub ensure_managed_key_at : Option KeyPair → Text → Exec Error Files ManagedKey
ensure_managed_key_at generated name keys =
    if is_file name keys && is_file (public_name name) keys
    then (
      ok (record {
        private_name = name;
        public_key = trimmed_or_empty (Files.read (public_name name) keys);
        created = false;
      }),
      keys,
    )
    else if is_file name keys || is_file (public_name name) keys
    then (err (incomplete_key_pair name), keys)
    else elim generated [
      | none ↦ (err not_generated, keys)
      | some pair ↦ (
        ok (record { private_name = name; public_key = pair.1; created = true }),
        write_pair name pair keys,
      )
    ]

unfoldable pub read_managed_public_key : Text → Text → Files → Result Error (Text × Text)
read_managed_public_key host name keys =
    if is_file name keys
    then (elim (Files.read (public_name name) keys) [
      | none ↦ err file_not_found
      | some public ↦ ok (name, trim public)
    ])
    else err (no_key host)

unfoldable pub remove_managed_key : Text → Files → Files
remove_managed_key name keys = Files.remove (public_name name) (Files.remove name keys)
