-- ===== src/Registry/Transfer.antt =====
-- Blobs and manifests over the requests: `download_blob`, `blob_exists`, `upload_blob`, `put_manifest`
-- and `read_layout_blob` of src/registry.rs.
pub mod Rules
pub mod Read
use binport.Base.{
  ℕ, ◌+◌, ◌%◌, ◌^◌, Bool, true, false, not, ◌||◌, List, [], ◌∷◌, ◌++◌, Option, none, some, Result,
  ok, err, ok_or, if◌then◌else◌, ◌==◌, refuse_if, length,
}
use binport.Exec.{Exec, ◌>>=◌, ◌>>◌, pure, fail, lift, gets, modify}
use binport.Files.{write, remove}
use binport.Json.{Bytes}
use binport.Registry.Client.{Client, Session, on_disk, send, get_response, error_for_status}
use binport.Registry.Digest.{digest_hash, is_wrong, verify_bytes}
use binport.Registry.Disk.{Disk, rename, read_blob}
use binport.Registry.Reference.{blob_url, uploads_url, manifest_url}
use binport.Registry.{
  Error, no_location, bad_url, blob_verification_failed, file_not_found, Services, Response,
  Descriptor, head, post, put,
}
use binport.Text.{Text, codes, equal, starts_with}

-- The loop of `download_blob`: the received bytes and their number. An empty chunk ends it.
unfoldable pub receive : Bytes → ℕ → List Bytes → Bytes × ℕ
receive file size [] = (file, size)
receive file size ([] ∷ chunks) = (file, size)
receive file size ((b ∷ chunk) ∷ chunks) =
    receive (file ++ b ∷ chunk) ((size + length (b ∷ chunk)) % 2 ^ 64) chunks

unfoldable pub write_received : Text → Bytes → Disk → Disk
write_received hash file d = record d { received = write hash file d.received }

unfoldable pub drop_received : Text → Disk → Disk
drop_received hash d = record d { received = remove hash d.received }

-- `actual != hash || size != descriptor.size`
abbrev pub is_bad_blob : (Bytes → Text) → Text → Descriptor → Bytes × ℕ → Bool
is_bad_blob hash_bytes hash descriptor (file, size) =
    not (equal (hash_bytes file) hash) || not (size == descriptor.size)

-- What follows the loop.
unfoldable pub keep_blob :
    (Bytes → Text) → Text → Descriptor → Bytes × ℕ → Exec Error Disk (Unit {0})
keep_blob hash_bytes hash descriptor received = do
  modify (write_received hash received.0)
  if is_bad_blob hash_bytes hash descriptor received
      then (do modify (drop_received hash); fail (blob_verification_failed descriptor.digest))
      else modify (rename hash received.0)

abbrev pub is_absolute : Text → Bool
is_absolute location =
    starts_with (codes "http://") location || starts_with (codes "https://") location

abbrev pub octet_stream : Text
octet_stream = codes "application/octet-stream"

module _ {S : Type 0} (services : Services S) (client : Client) where
  unfoldable pub download_blob : Text → Descriptor → Exec Error (Session S) (Unit {0})
  download_blob url descriptor = do
    hash ← lift (digest_hash descriptor.digest)
    response ← get_response services client url none
    on_disk (keep_blob services.hash_bytes hash descriptor (receive [] 0 response.chunks))

  unfoldable pub blob_exists : Descriptor → Exec Error (Session S) Bool
  blob_exists descriptor = do
    response ←
        send services client head (blob_url client.reference descriptor.digest client.scheme) none
          none none
    if response.status == 200
        then pure true
        else (if response.status == 404
            then pure false
            else (do response' ← lift (error_for_status response); pure false))

  -- The place of the upload, absolute or on the registry.
  unfoldable pub upload_place : Text → Option Text
  upload_place location =
      if is_absolute location
      then some location
      else services.join_url (client.scheme ++ (codes "://" ++ client.reference.registry)) location

  unfoldable pub upload_url : Descriptor → Response → Result Error Text
  upload_url descriptor response = elim response.location [
    | none ↦ err no_location
    | some location ↦ elim (upload_place location) [
      | none ↦ err bad_url
      | some place ↦
          ok_or (services.url_with_query place ((codes "digest", descriptor.digest) ∷ [])) bad_url
    ]
  ]

  unfoldable pub upload_blob : Descriptor → Bytes → Exec Error (Session S) (Unit {0})
  upload_blob descriptor bytes = do
    lift (verify_bytes services.hash_bytes bytes descriptor)
    response ← send services client post (uploads_url client.reference client.scheme) none none none
    response' ← lift (error_for_status response)
    url ← lift (upload_url descriptor response')
    answer ← send services client put url none (some octet_stream) (some bytes)
    answer' ← lift (error_for_status answer)
    pure tt

  unfoldable pub put_manifest : Text → Text → Bytes → Exec Error (Session S) (Unit {0})
  put_manifest reference media_type bytes = do
    answer ←
        send services client put (manifest_url client.reference reference client.scheme) none
          (some media_type) (some bytes)
    answer' ← lift (error_for_status answer)
    pure tt
