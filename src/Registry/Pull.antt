-- ===== src/Registry/Pull.antt =====
-- `pull_layout` of src/registry.rs: an image becomes a layout of files, through the cache of blobs.
pub mod Sound
use binport.Base.{
  ℕ, ◌+◌, Bool, true, false, not, ◌&&◌, ◌||◌, List, [], ◌∷◌, ◌++◌, Option, none, some, Result, ok,
  err, ok_or, if◌then◌else◌, refuse_if, is_empty,
}
use binport.Registry
use binport.Exec.{Exec, ◌>>=◌, ◌>>◌, pure, fail, lift, gets, modify}
use binport.Files.{Files, write}
use binport.Json.{Bytes}
use binport.Registry.Client.{Client, Session, on_disk, get_bytes}
use binport.Registry.Digest.{verify_bytes}
use binport.Registry.Disk.{materialize, materialize_cached, store_bytes}
use binport.Registry.Reference.{Reference, manifest_url, blob_url}
use binport.Registry.Transfer.{download_blob}
use binport.Registry.{
  Error, wrong_root, invalid_json, not_multi_platform, no_supported_manifest, unsupported_manifest,
  not_serialized, Services, Descriptor, Document, RegistryPlatform, PullReport, oci_index,
  docker_index, oci_manifest, docker_manifest, accept_manifests,
}
use binport.Text.{Text, codes, equal, starts_with}

abbrev pub is_linux : RegistryPlatform → Bool
is_linux platform =
    equal platform.os (codes "linux")
    && (equal platform.architecture (codes "amd64") || equal platform.architecture (codes "arm64"))

unfoldable pub supported_platform : Descriptor → Bool
supported_platform descriptor = elim descriptor.platform [
  | none ↦ false
  | some platform ↦ is_linux platform
]

-- `document.manifests.into_iter().filter(supported_platform).collect()`
unfoldable pub supported : List Descriptor → List Descriptor
unfolding supported_platform
supported [] = []
supported (d ∷ manifests) =
    let rest = supported manifests in if supported_platform d then d ∷ rest else rest

-- `manifest_document.config.iter().chain(manifest_document.layers.iter())`
abbrev pub blobs_of : Document → List Descriptor
blobs_of document = elim document.config [ none ↦ document.layers | some c ↦ c ∷ document.layers ]

abbrev pub digest_of : (Bytes → Text) → Bytes → Text
digest_of hash_bytes bytes = codes "sha256:" ++ hash_bytes bytes

-- The numbers of blobs that were downloaded and found in the cache.
pub record Counts : Type 0 where
  pub downloaded : ℕ
  pub cached : ℕ

abbrev pub is_wrong_root : Text → Text → Bool
is_wrong_root reference root_digest =
    starts_with (codes "sha256:") reference && not (equal reference root_digest)

abbrev pub is_index : Text → Bool
is_index media_type = equal media_type oci_index || equal media_type docker_index

abbrev pub is_manifest : Text → Bool
is_manifest media_type = equal media_type oci_manifest || equal media_type docker_manifest

abbrev pub oci_layout : Bytes
oci_layout = codes "{\"imageLayoutVersion\":\"1.0.0\"}\n"

-- `fs::create_dir_all` and the version file
unfoldable pub create_layout : {S : Type 0} → Session S → Session S
create_layout s = record s {
  layout_exists = true;
  top = write (codes "oci-layout") oci_layout s.top;
}

unfoldable pub write_index : {S : Type 0} → Bytes → Session S → Session S
write_index bytes s = record s { top = write (codes "index.json") bytes s.top }

module _ {S : Type 0} (services : Services S) (client : Client) where
  -- One blob, which the cache had or which was downloaded.
  unfoldable pub pull_blob : Descriptor → Counts → Exec Error (Session S) Counts
  pull_blob descriptor counts = do
    found ← on_disk (materialize_cached services.hash_bytes descriptor)
    if found then pure (record counts { cached = counts.cached + 1 }) else (do
      download_blob services client (blob_url client.reference descriptor.digest client.scheme)
          descriptor
      on_disk (materialize descriptor.digest)
      pure (record counts { downloaded = counts.downloaded + 1 }))

  unfoldable pub pull_blobs : List Descriptor → Counts → Exec Error (Session S) Counts
  pull_blobs [] counts = pure counts
  pull_blobs (d ∷ descriptors) counts = do
    counts' ← pull_blob d counts
    pull_blobs descriptors counts'

  unfoldable pub pull_manifest : Descriptor → Counts → Exec Error (Session S) Counts
  pull_manifest manifest counts = do
    bytes ←
        get_bytes services client (manifest_url client.reference manifest.digest client.scheme)
          (some accept_manifests)
    lift (verify_bytes services.hash_bytes bytes manifest)
    on_disk (store_bytes manifest.digest bytes)
    document ← lift (ok_or (services.document bytes) invalid_json)
    lift (
        refuse_if (not (is_manifest document.media_type))
          (unsupported_manifest document.media_type))
    pull_blobs (blobs_of document) counts

  unfoldable pub pull_manifests : List Descriptor → Counts → Exec Error (Session S) Counts
  pull_manifests [] counts = pure counts
  pull_manifests (m ∷ manifests) counts = do
    counts' ← pull_manifest m counts
    pull_manifests manifests counts'

  unfoldable pub pull_layout : Exec Error (Session S) PullReport
  pull_layout = do
    exists ← gets (λ (s : Session S). s.layout_exists)
    lift (refuse_if exists Registry.layout_exists)
    modify create_layout
    root ←
        get_bytes services client
          (manifest_url client.reference client.reference.reference client.scheme)
          (some accept_manifests)
    let root_digest = digest_of services.hash_bytes root
    lift (
        refuse_if (is_wrong_root client.reference.reference root_digest)
          (wrong_root root_digest client.reference.reference))
    document ← lift (ok_or (services.document root) invalid_json)
    lift (refuse_if (not (is_index document.media_type)) (not_multi_platform document.media_type))
    let manifests = supported document.manifests
    lift (refuse_if (is_empty manifests) no_supported_manifest)
    counts ← pull_manifests manifests (record { downloaded = 0; cached = 0 })
    index ← lift (
        ok_or
          (services.local_index
            (record { schema_version = 2; media_type = oci_index; manifests = manifests }))
          not_serialized)
    modify (write_index index)
    pure (record { digest = root_digest; downloaded = counts.downloaded; cached = counts.cached })
