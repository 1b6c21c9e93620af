-- ===== src/Tests/Oci.antt =====
-- OCI layouts: src/oci.rs with one tool for one platform.
use binport.Base.{true, [], ◌∷◌, ◌++◌, ◌≡◌, refl, none, some, ok, length}
use binport.Catalog.Platform
use binport.Catalog.{is_sha256}
use binport.Files
use binport.Json.{Bytes, Coder}
use binport.Oci.Blobs.{read_blob, write_blob, descriptor_of, read_blob-write_blob}
use binport.Oci.{
  Services, Layout, Descriptor, Index, Manifest, index_media_type, manifest_media_type,
  config_media_type, tool_media_type, name_key, version_key,
}
use binport.Places
use binport.Places.{Place, Tree}
use binport.Text.{Text, codes, len, is_ascii_hexdigit}
use binport.Toolbox.{Lockfile}

abbrev hash : Text
hash = codes "aaaaaaaaaaaaaaaaaaaaaaaaaaaaaaaaaaaaaaaaaaaaaaaaaaaaaaaaaaaaaaaa"

abbrev blob : Bytes
blob = codes "demo"

abbrev layer : Descriptor
layer = record (descriptor_of hash tool_media_type 4) {
  annotations = (name_key, codes "demo") ∷ (version_key, codes "1.0.0") ∷ [];
}

abbrev packed_manifest : Manifest
packed_manifest = record {
  schema_version = 2;
  media_type = manifest_media_type;
  config = descriptor_of hash config_media_type 4;
  layers = layer ∷ [];
}

abbrev packed_index : Index
packed_index = record {
  schema_version = 2;
  media_type = index_media_type;
  manifests =
      record (descriptor_of hash manifest_media_type 4) {
        platform = some (record { os = codes "linux"; architecture = codes "amd64" });
      }
      ∷ [];
}

-- A coder that knows one value.
abbrev only : {A : Type 0} → A → Coder A
only value = record { to_vec = λ _. some blob; from_slice = λ _. some value }

abbrev demo_lock : Lockfile
demo_lock = record {
  format = 1;
  tools =
      record {
        name = codes "demo";
        version = codes "1.0.0";
        platform = codes "linux/amd64";
        sha256 = hash;
        path = codes ".binport/toolbox/linux-amd64/demo";
      }
      ∷ [];
}

abbrev services : Services
services = record {
  hash_bytes = λ _. hash;
  index = only packed_index;
  manifest = only packed_manifest;
  config = only (record { format = 1; platform = codes "linux/amd64"; project_lock = none });
  toolbox = only demo_lock;
  project_lock = record { to_vec = λ _. none; from_slice = λ _. none };
  layout_version = λ _. some (some (codes "1.0.0"));
}

abbrev layout : Layout
layout = record {
  is_there = true;
  top = (codes "oci-layout", blob) ∷ (codes "index.json", blob) ∷ [];
  blobs = (hash, blob) ∷ [];
}

abbrev project : Place
project = codes "home" ∷ codes "project" ∷ []

abbrev restored : Tree
restored =
    (project ++ codes ".binport" ∷ codes "toolbox.json" ∷ [], blob ++ codes "\n")
    ∷ (
      project ++ codes ".binport" ∷ codes "toolbox" ∷ codes "linux-amd64" ∷ codes "demo" ∷ [],
      blob,
    )
    ∷ []

-- A layer that is named by an absolute path, in the layout.
abbrev intruder : Descriptor
intruder = record layer {
  annotations = (name_key, codes "/root/.ssh/authorized_keys") ∷ (version_key, codes "1.0.0") ∷ [];
}

hash-is_sha256 : is_sha256 hash ≡ true
unfolding is_sha256 len is_ascii_hexdigit
hash-is_sha256 = refl

abbrev fresh : Layout
fresh = record { is_there = true; top = []; blobs = [] }

no_blob : (old : Bytes) → Files.read hash [] ≡ some old → old ≡ blob
unfolding Files.read
no_blob old h = cc

read_blob-write_blob_example :
    ((write_blob (λ _. hash) blob tool_media_type fresh).0
      ≡ ok (descriptor_of hash tool_media_type (length blob)))
    × (read_blob
          (λ _. hash)
          (write_blob (λ _. hash) blob tool_media_type fresh).1.blobs
          (descriptor_of hash tool_media_type (length blob))
        ≡ ok blob)
read_blob-write_blob_example =
    read_blob-write_blob (λ _. hash) blob tool_media_type fresh hash-is_sha256 no_blob
