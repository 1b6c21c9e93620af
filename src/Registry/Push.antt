-- ===== src/Registry/Push.antt =====
-- `push_layout` of src/registry.rs: the blobs of a layout go to the registry, then the manifests, then
-- the index under its tag.
pub mod Requests
pub mod Sound
use binport.Base.{
  ℕ, ◌+◌, Bool, true, false, not, ◌||◌, List, [], ◌∷◌, ◌++◌, Option, none, some, Result, ok, err,
  ok_or, if◌then◌else◌, refuse_if, is_empty, length, any,
}
use binport.Exec.{Exec, ◌>>=◌, ◌>>◌, pure, lift, gets}
use binport.Files
use binport.Json.{Bytes}
use binport.Registry.Client.{Client, Session, get_manifest_optional}
use binport.Registry.Pull.{blobs_of, digest_of}
use binport.Registry.Transfer.Read.{read_layout_blob}
use binport.Registry.Transfer.{blob_exists, upload_blob, put_manifest}
use binport.Registry.{
  Error, file_not_found, invalid_json, not_an_index, Services, Descriptor, Document, PushReport,
  oci_index, oci_manifest,
}
use binport.Text.{Text, codes, equal}

pub record Counts : Type 0 where
  pub uploaded : ℕ
  pub existing : ℕ

-- The digests in a set.
abbrev pub add_digest : List Text → Text → List Text
add_digest digests digest =
    if any (λ d. equal d digest) digests then digests else digests ++ digest ∷ []

abbrev pub add_digests : List Text → List Descriptor → List Text
add_digests digests [] = digests
add_digests digests (d ∷ descriptors) = add_digests (add_digest digests d.digest) descriptors

-- Whether the registry has the index under the tag already.
abbrev pub is_pushed : (Bytes → Text) → Text → Option Bytes → Bool
is_pushed hash_bytes root_digest none = false
is_pushed hash_bytes root_digest (some bytes) = equal (digest_of hash_bytes bytes) root_digest

abbrev pub manifest_type : Text → Text
manifest_type media_type = if is_empty media_type then oci_manifest else media_type

module _ {S : Type 0} (services : Services S) (client : Client) where
  -- A blob of the layout, which the files alone decide.
  unfoldable pub read_blob_of : Descriptor → Exec Error (Session S) Bytes
  read_blob_of descriptor = do
    disk ← gets (λ (s : Session S). s.disk)
    lift (read_layout_blob services.hash_bytes descriptor disk)

  unfoldable pub read_document : Bytes → Exec Error (Session S) Document
  read_document bytes = lift (ok_or (services.document bytes) invalid_json)

  unfoldable pub count_blobs : List Descriptor → List Text → Exec Error (Session S) (List Text)
  count_blobs [] digests = pure digests
  count_blobs (m ∷ manifests) digests = do
    bytes ← read_blob_of m
    manifest ← read_document bytes
    count_blobs manifests (add_digests digests (blobs_of manifest))

  unfoldable pub push_blob : Descriptor → Counts → Exec Error (Session S) Counts
  push_blob descriptor counts = do
    exists ← blob_exists services client descriptor
    if exists then pure (record counts { existing = counts.existing + 1 }) else (do
      bytes ← read_blob_of descriptor
      upload_blob services client descriptor bytes
      pure (record counts { uploaded = counts.uploaded + 1 }))

  unfoldable pub push_blobs : List Descriptor → Counts → Exec Error (Session S) Counts
  push_blobs [] counts = pure counts
  push_blobs (d ∷ descriptors) counts = do
    counts' ← push_blob d counts
    push_blobs descriptors counts'

  unfoldable pub push_manifest : Descriptor → Counts → Exec Error (Session S) Counts
  push_manifest descriptor counts = do
    bytes ← read_blob_of descriptor
    manifest ← read_document bytes
    counts' ← push_blobs (blobs_of manifest) counts
    put_manifest services client descriptor.digest (manifest_type manifest.media_type) bytes
    pure counts'

  unfoldable pub push_manifests : List Descriptor → Counts → Exec Error (Session S) Counts
  push_manifests [] counts = pure counts
  push_manifests (m ∷ manifests) counts = do
    counts' ← push_manifest m counts
    push_manifests manifests counts'

  -- What follows when the registry does not have the index.
  unfoldable pub push_all : Document → Bytes → Exec Error (Session S) PushReport
  push_all index bytes = do
    counts ← push_manifests index.manifests (record { uploaded = 0; existing = 0 })
    put_manifest services client client.reference.reference oci_index bytes
    pure (record {
      digest = digest_of services.hash_bytes bytes;
      uploaded = counts.uploaded;
      existing = counts.existing;
    })

  unfoldable pub report_pushed : Document → Bytes → Exec Error (Session S) PushReport
  report_pushed index bytes = do
    digests ← count_blobs index.manifests []
    pure (record {
      digest = digest_of services.hash_bytes bytes;
      uploaded = 0;
      existing = length digests;
    })

  unfoldable pub read_index : Exec Error (Session S) Bytes
  read_index = do
    found ← gets (λ (s : Session S). Files.read (codes "index.json") s.top)
    lift (ok_or found file_not_found)

  unfoldable pub push_layout : Exec Error (Session S) PushReport
  push_layout = do
    bytes ← read_index
    index ← read_document bytes
    lift (refuse_if (not (equal index.media_type oci_index)) not_an_index)
    existing ← get_manifest_optional services client client.reference.reference
    if is_pushed services.hash_bytes (digest_of services.hash_bytes bytes) existing
        then report_pushed index bytes
        else push_all index bytes
