-- ===== src/Tests/Auth.antt =====
-- Managed keys and stored passwords: src/auth.rs at inputs of its tests.
use binport.Auth.Names.{managed_key_name-IsComponent}
use binport.Auth.{
  managed_key_name, ensure_managed_key_at, config_root, write_pair, incomplete_key_pair,
}
use binport.Base.{◌≤◌, [], ◌∷◌, ◌≡◌, refl, true, none, some, ok, err, length}
use binport.Files
use binport.Oci.Unpack.Escape.{IsComponent}
use binport.Ssh.Config.{join_text, with_separator}
use binport.Text.Search.{take, trim_matches, trim_start_matches, trim_end_matches}
use binport.Text.{Text, codes, is_ascii_alphanumeric}

abbrev hash : Text → Text
hash text = codes "0123456789abcdef0123456789abcdef0123456789abcdef0123456789abcdef"

abbrev host : Text
host = codes "../root@host:2222"

host_name : managed_key_name hash host ≡ codes "_root_host_2222-0123456789ab"
unfolding managed_key_name take trim_matches trim_start_matches trim_end_matches
    is_ascii_alphanumeric
host_name = refl

managed_key_name-IsComponent_example :
    IsComponent (managed_key_name hash host) × (length (managed_key_name hash host) ≤ 61)
unfolding is_ascii_alphanumeric
managed_key_name-IsComponent_example = managed_key_name-IsComponent hash host refl

created_key :
    ensure_managed_key_at (some (codes "secret", codes "ssh-ed25519 AAAA")) (codes "h-00") [] ≡ (
      ok (record {
        private_name = codes "h-00";
        public_key = codes "ssh-ed25519 AAAA";
        created = true;
      }),
      (codes "h-00.pub", codes "ssh-ed25519 AAAA\n") ∷ (codes "h-00", codes "secret") ∷ [],
    )
unfolding ensure_managed_key_at write_pair Files.read
created_key = refl

half_key :
    ensure_managed_key_at none (codes "h-00") ((codes "h-00", codes "secret") ∷ [])
    ≡ (err (incomplete_key_pair (codes "h-00")), (codes "h-00", codes "secret") ∷ [])
unfolding ensure_managed_key_at write_pair Files.read
half_key = refl

home_root :
    config_root (λ name. none) (some (codes "/home/u")) ≡ ok (codes "/home/u/.config/binport")
unfolding config_root join_text with_separator
home_root = refl
