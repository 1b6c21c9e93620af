-- ===== src/Oci/Unpack/Sound.antt =====
-- The lock that `unpack` of src/oci.rs returns.
use binport.Base.{IsIn, ◌≡◌, ap, Result, ok, map, All, IsDistinct, ok-injective}
use binport.Catalog.Platform
use binport.Catalog.Platform.{Platform}
use binport.Json.{Bytes}
use binport.Lockfile.Locked.{IsSafe}
use binport.Lockfile.{Identity, same_identity}
use binport.Oci.Blobs.{read_blob, annotation}
use binport.Oci.Unpack.{Unpacked, relative_path, manifest_platform, read_index, decode_blob}
use binport.Oci.{
  Error, Services, Layout, Descriptor, Index, Manifest, tool_media_type, name_key, version_key,
}
use binport.Text.{Text}
use binport.Toolbox.{LockedTool, Lockfile}

abbrev pub identity_of : LockedTool → Identity
identity_of t = (t.name, t.platform)

pub pure-eq-ok :
    {A S : Type 0} {a b : A} {s s' : S} → ◌≡◌ {A = Result Error A × S} (ok a, s) (ok b, s') → a ≡ b
pure-eq-ok {A} {S} h = ok-injective (ap (λ (p : Result Error A × S). p.0) h)

module _ (services : Services) (layout : Layout) where
  -- The layer stands in a manifest that the index lists for the platform.
  pub record IsListed (index : Index) (from : Platform) (layer : Descriptor) : Type 0 where
    pub descriptor : Descriptor
    pub manifest : Manifest
    pub in_index : IsIn descriptor index.manifests
    pub platform : manifest_platform services layout descriptor ≡ ok from
    pub decoded : decode_blob services layout services.manifest descriptor ≡ ok manifest
    pub in_manifest : IsIn layer manifest.layers

  -- The tool is a verified layer of the layout.
  pub record IsInstalled (index : Index) (t : LockedTool) : Type 0 where
    pub from : Platform
    pub layer : Descriptor
    pub bytes : Bytes
    pub listed : IsListed index from layer
    pub media : layer.media_type ≡ tool_media_type
    pub named : annotation layer name_key ≡ ok t.name
    pub versioned : annotation layer version_key ≡ ok t.version
    pub platform : t.platform ≡ Platform.name from
    pub verified : read_blob services.hash_bytes layout.blobs layer ≡ ok bytes
    pub hash : t.sha256 ≡ services.hash_bytes bytes
    pub safe : IsSafe t.name
    pub path : t.path ≡ relative_path from t.name

  record Inv (index : Index) (st : Unpacked) : Type 0 where
    named : st.identities ≡ map identity_of st.tools
    distinct : IsDistinct same_identity st.identities
    installed : All (IsInstalled index) st.tools

  -- What `unpack` promises of the lock that it returns.
  pub record IsUnpacked (lock : Lockfile) : Type 0 where
    pub index : Index
    pub listing : read_index services layout ≡ ok index
    pub format : lock.format ≡ 1
    pub distinct : IsDistinct same_identity (map identity_of lock.tools)
    pub installed : All (IsInstalled index) lock.tools
