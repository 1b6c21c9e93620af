-- ===== src/Registry/Pull/Sound.antt =====
-- What `pull_layout` of src/registry.rs leaves on the disk.
use binport.Base.{List, [], ◌∷◌, Option, some}
use binport.Exec.{modify}
use binport.Exec.Keeps.{
  Keeps, Keeps-bind, Keeps-bind_lift, Keeps-lift, Keeps-pure, Keeps-gets, Keeps-if,
}
use binport.Json.{Bytes}
use binport.Registry.Client.Rules.{OnDisk, on_disk-Keeps, get_bytes-Keeps}
use binport.Registry.Client.{Client, Session, on_disk, get_bytes}
use binport.Registry.Digest.{verify_bytes, verify_bytes-eq-ok}
use binport.Registry.Disk.Sound.{
  IsSound, materialize-Keeps, materialize_cached-Keeps, store_bytes-Keeps,
}
use binport.Registry.Disk.{materialize, materialize_cached, store_bytes}
use binport.Registry.Pull.{
  Counts, create_layout, write_index, pull_blob, pull_blobs, pull_manifest, pull_manifests,
  pull_layout,
}
use binport.Registry.Reference.{manifest_url}
use binport.Registry.Transfer.Rules.{download_blob-Keeps}
use binport.Registry.{Error, Services, Descriptor, accept_manifests}
use binport.Text.{Text}

module _ {S : Type 0} (services : Services S) (client : Client) where
  abbrev Sound : Session S → Type 0
  Sound = OnDisk (IsSound services.hash_bytes)

  materialize-Sound : (digest : Text) → Keeps Sound (on_disk (materialize digest))
  materialize-Sound digest =
      on_disk-Keeps (IsSound services.hash_bytes) (materialize digest)
        (materialize-Keeps services.hash_bytes digest)

  materialize_cached-Sound :
      (d : Descriptor) → Keeps Sound (on_disk (materialize_cached services.hash_bytes d))
  materialize_cached-Sound d =
      on_disk-Keeps (IsSound services.hash_bytes) (materialize_cached services.hash_bytes d)
        (materialize_cached-Keeps services.hash_bytes d)

  pull_blob-Sound :
      (d : Descriptor) (counts : Counts) → Keeps Sound (pull_blob services client d counts)
  unfolding pull_blob
  pull_blob-Sound d counts =
      search
        (
          Keeps-bind, Keeps-if, Keeps-pure, materialize_cached-Sound, materialize-Sound,
          download_blob-Keeps,
        )
        depth 12

  pull_blobs-Sound :
      (ds : List Descriptor) (counts : Counts) → Keeps Sound (pull_blobs services client ds counts)
  unfolding pull_blobs
  pull_blobs-Sound [] counts = Keeps-pure counts
  pull_blobs-Sound (d ∷ ds) counts =
      Keeps-bind (pull_blob services client d counts) _ (pull_blob-Sound d counts)
        (pull_blobs-Sound ds)

  pull_manifest-Sound :
      (m : Descriptor) (counts : Counts) → Keeps Sound (pull_manifest services client m counts)
  unfolding pull_manifest
  pull_manifest-Sound m counts =
      Keeps-bind
        (get_bytes services client (manifest_url client.reference m.digest client.scheme)
          (some accept_manifests))
        _ (get_bytes-Keeps services client (IsSound services.hash_bytes) _ _)
        (λ bytes. Keeps-bind_lift (verify_bytes services.hash_bytes bytes m) _ (λ _ verified.
          Keeps-bind (on_disk (store_bytes m.digest bytes)) _
            (on_disk-Keeps (IsSound services.hash_bytes) (store_bytes m.digest bytes) (
              store_bytes-Keeps services.hash_bytes m.digest bytes
                (verify_bytes-eq-ok services.hash_bytes bytes m verified).0))
            (λ _. search (Keeps-bind, Keeps-lift, pull_blobs-Sound) depth 12)))

  pull_manifests-Sound :
      (ms : List Descriptor) (counts : Counts)
      → Keeps Sound (pull_manifests services client ms counts)
  unfolding pull_manifests
  pull_manifests-Sound [] counts = Keeps-pure counts
  pull_manifests-Sound (m ∷ ms) counts =
      Keeps-bind (pull_manifest services client m counts) _ (pull_manifest-Sound m counts)
        (pull_manifests-Sound ms)

  create_layout-Sound : Keeps {E = Error} Sound (modify create_layout)
  unfolding create_layout
  create_layout-Sound = record { holds = λ s h. h }

  write_index-Sound : (bytes : Bytes) → Keeps {E = Error} Sound (modify (write_index bytes))
  unfolding write_index
  write_index-Sound bytes = record { holds = λ s h. h }

  get_bytes-Sound :
      (url : Text) (accept : Option Text) → Keeps Sound (get_bytes services client url accept)
  get_bytes-Sound = get_bytes-Keeps services client (IsSound services.hash_bytes)

  pull_layout-Keeps : Keeps Sound (pull_layout services client)
  unfolding pull_layout
  pull_layout-Keeps =
      search
        (
          Keeps-bind, Keeps-lift, Keeps-gets, Keeps-pure, create_layout-Sound, write_index-Sound,
          get_bytes-Sound, pull_manifests-Sound,
        )
        depth 40

-- Whatever the registry answers, and whether the pull succeeds or fails on its way: when each file
-- of the cache, and each file of the layout that is no link to it, was empty or had the hash that is its
-- name, the same holds behind the pull.
pub pull_layout-IsSound :
    {S : Type 0} (services : Services S) (client : Client) (s : Session S)
    → IsSound services.hash_bytes s.disk
    → IsSound services.hash_bytes (pull_layout services client s).1.disk
pull_layout-IsSound services client s sound = (pull_layout-Keeps services client).holds s sound
