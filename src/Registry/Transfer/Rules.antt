-- ===== src/Registry/Transfer/Rules.antt =====
-- A blob is kept under its name when its hash is that name.
use binport.Base.{ℕ, false, ◌≡◌, arith, [], none, inr}
use binport.Exec.{modify}
use binport.Exec.Keeps.{Keeps, Keeps-bind, Keeps-bind_lift, Keeps-test, Keeps-fail}
use binport.Json.{Bytes}
use binport.Registry.Client.{Client, get_response}
use binport.Registry.Client.Rules.{OnDisk, on_disk-Keeps, get_response-Keeps}
use binport.Registry.Digest.{digest_hash}
use binport.Registry.Disk.Sound.{IsSound, rename-IsSound}
use binport.Registry.Disk.{rename}
use binport.Registry.Transfer.{
  receive, write_received, drop_received, is_bad_blob, keep_blob, download_blob,
}
use binport.Registry.{Error, Services, Descriptor, blob_verification_failed}
use binport.Text.Order.{equal_iff}
use binport.Text.{Text}

module _ (hash_bytes : Bytes → Text) where
  write_received-Keeps :
      (hash : Text) (file : Bytes)
      → Keeps (IsSound hash_bytes) (modify {E = Error} (write_received hash file))
  unfolding write_received
  write_received-Keeps hash file = record {
    holds = λ d sound. record { cached = sound.cached; owned = sound.owned };
  }

  drop_received-Keeps :
      (hash : Text) → Keeps (IsSound hash_bytes) (modify {E = Error} (drop_received hash))
  unfolding drop_received
  drop_received-Keeps hash = record {
    holds = λ d sound. record { cached = sound.cached; owned = sound.owned };
  }

  is_hash :
      (hash : Text) (descriptor : Descriptor) (received : Bytes × ℕ)
      → is_bad_blob hash_bytes hash descriptor received ≡ false
      → hash_bytes received.0 ≡ hash
  is_hash hash descriptor (file, size) h = ground (arith, equal_iff (hash_bytes file) hash)

  pub keep_blob-Keeps :
      (hash : Text) (descriptor : Descriptor) (received : Bytes × ℕ)
      → Keeps (IsSound hash_bytes) (keep_blob hash_bytes hash descriptor received)
  unfolding keep_blob
  keep_blob-Keeps hash descriptor received =
      Keeps-bind (modify (write_received hash received.0)) _ (write_received-Keeps hash received.0)
        (λ _.
          Keeps-test (is_bad_blob hash_bytes hash descriptor received) _
            (modify (rename hash received.0))
            (λ _.
              Keeps-bind (modify (drop_received hash)) _ (drop_received-Keeps hash)
                (λ _. Keeps-fail (blob_verification_failed descriptor.digest)))
            (λ good. record {
              holds = λ d.
                  rename-IsSound hash_bytes hash received.0 d
                    (inr (is_hash hash descriptor received good));
            }))

pub download_blob-Keeps :
    {S : Type 0} (services : Services S) (client : Client) (url : Text) (descriptor : Descriptor)
    → Keeps (OnDisk (IsSound services.hash_bytes)) (download_blob services client url descriptor)
unfolding download_blob
download_blob-Keeps services client url descriptor =
    Keeps-bind_lift (digest_hash descriptor.digest) _ (λ hash _.
      Keeps-bind (get_response services client url none) _
        (get_response-Keeps services client (IsSound services.hash_bytes) url none)
        (λ response.
          on_disk-Keeps (IsSound services.hash_bytes) _
            (keep_blob-Keeps services.hash_bytes hash descriptor (receive [] 0 response.chunks))))
