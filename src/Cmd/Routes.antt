-- ===== src/Cmd/Routes.antt =====
-- Routes that a host argument names: `parse_remote_file`, `ad_hoc_route`, `ad_hoc_bastion` and
-- `apply_ad_hoc_bastion` of src/cmd/runtime.rs.
use binport.Base.{
  ℕ, Bool, true, false, ◌&&◌, ◌||◌, [], ◌∷◌, Option, none, some, Result, ok, err, ◌==◌, leb, any,
  is_empty, if◌then◌else◌,
}
use binport.Ssh.Config.{default_format}
use binport.Ssh.{Destination}
use binport.Text.{Text, split_once}

pub data Error : Type 0 where
  empty_part : Error
  not_two_aliases : Error
  already_proxied : Error

pub record RemoteFile : Type 0 where
  pub host : Text
  pub path : Text

abbrev is_ascii_alphabetic : ℕ → Bool
is_ascii_alphabetic c = (leb b'a' c && leb c b'z') || (leb b'A' c && leb c b'Z')

-- One letter: the drive of a path of Windows. A character that is one byte long is an ASCII character.
abbrev pub is_drive : Text → Bool
is_drive (c ∷ []) = is_ascii_alphabetic c
is_drive _ = false

unfoldable pub parse_remote_file : Text → Result Error (Option RemoteFile)
parse_remote_file value = elim (split_once (λ c. c == b':') value) [
  | none ↦ ok none
  | some (host, path) ↦
      if is_drive host
      then ok none
      else if is_empty host || is_empty path
      then err empty_part
      else ok (some (record { host = host; path = path }))
]

-- Two aliases with a separator between them.
abbrev pub two_aliases : ℕ → Text → Result Error (Option (Text × Text))
two_aliases separator host = elim (split_once (λ c. c == separator) host) [
  | none ↦ ok none
  | some (first, target) ↦
      if is_empty first || is_empty target || any (λ c. c == separator) target
      then err not_two_aliases
      else ok (some (first, target))
]

unfoldable pub ad_hoc_route : Text → Result Error (Option (Text × Text))
ad_hoc_route = two_aliases b','

unfoldable pub ad_hoc_bastion : Text → Result Error (Option (Text × Text))
ad_hoc_bastion = two_aliases b'~'

abbrev pub is_proxied : Destination → Bool
is_proxied target = elim target.proxy_jump [
  | some jump ↦ true
  | none ↦ elim target.bastion_proxy [ some bastion ↦ true | none ↦ false ]
]

unfoldable pub apply_ad_hoc_bastion : Destination → Destination → Result Error Destination
apply_ad_hoc_bastion target bastion =
    if is_proxied target
    then err already_proxied
    else ok (record target {
      bastion_proxy = some (record {
        host = bastion.hostname;
        port = bastion.port;
        user = bastion.user;
        account = target.user;
        preset = none;
        format = default_format;
      });
    })
