-- ===== src/Oci/Blobs.antt =====
-- `write_blob`, `read_blob`, `annotation` and the platforms of src/oci.rs.
use binport.Base.{
  ℕ, Bool, true, false, not, ◌||◌, [], ◌++◌, ◌≡◌, refl, ap, sym, subst, arith, Option, none, some,
  Result, ok, ◌>>=◌, ◌>>◌, ◌==◌, refuse_if, ok_or, length, if◌then◌else◌, Option-cases, inl, inr,
  ◌∙◌,
}
use binport.Catalog.Platform
use binport.Catalog.Platform.{Platform, linux_amd64, linux_arm64}
use binport.Catalog.{is_sha256}
use binport.Exec.{Exec}
use binport.Files
use binport.Files.{Files, is_file}
use binport.Json.{Bytes}
use binport.Oci.{
  Error, file_not_found, not_sha256, invalid_digest, blob_verification_failed, missing_annotation,
  unsupported_platform, OciPlatform, Descriptor, Layout,
}
use binport.Text.Order.{equal_refl}
use binport.Text.{Text, codes, equal, strip_prefix}

unfoldable pub write_new : Text → Bytes → Layout → Layout
write_new hash bytes out =
    if is_file hash out.blobs then out else record out { blobs = Files.write hash bytes out.blobs }

abbrev pub descriptor_of : Text → Text → ℕ → Descriptor
descriptor_of hash media_type size = record {
  media_type = media_type;
  digest = codes "sha256:" ++ hash;
  size = size;
  platform = none;
  annotations = [];
}

unfoldable pub write_blob : (Bytes → Text) → Bytes → Text → Exec Error Layout Descriptor
write_blob hash_bytes bytes media_type out = (
  ok (descriptor_of (hash_bytes bytes) media_type (length bytes)),
  write_new (hash_bytes bytes) bytes out,
)

-- `bytes.len() as u64 != descriptor.size || hash_bytes(&bytes) != hash`
abbrev pub is_wrong : (Bytes → Text) → Bytes → ℕ → Text → Bool
is_wrong hash_bytes bytes size hash =
    not (length bytes == size) || not (equal (hash_bytes bytes) hash)

unfoldable pub read_blob : (Bytes → Text) → Files → Descriptor → Result Error Bytes
read_blob hash_bytes blobs descriptor = do
  hash ← ok_or (strip_prefix (codes "sha256:") descriptor.digest) not_sha256
  refuse_if (not (is_sha256 hash)) invalid_digest
  bytes ← ok_or (Files.read hash blobs) file_not_found
  refuse_if (is_wrong hash_bytes bytes descriptor.size hash)
      (blob_verification_failed descriptor.digest)
  ok bytes

unfoldable pub annotation : Descriptor → Text → Result Error Text
annotation descriptor key = ok_or (Files.read key descriptor.annotations) (missing_annotation key)

unfoldable pub to_oci_platform : Platform → OciPlatform
to_oci_platform linux_amd64 = record { os = codes "linux"; architecture = codes "amd64" }
to_oci_platform linux_arm64 = record { os = codes "linux"; architecture = codes "arm64" }

unfoldable pub from_oci_platform : OciPlatform → Result Error Platform
from_oci_platform platform =
    ok_or (Platform.parse (platform.os ++ (codes "/" ++ platform.architecture)))
      (unsupported_platform platform)

pub from_oci_platform-to_oci_platform :
    (p : Platform) → from_oci_platform (to_oci_platform p) ≡ ok p
unfolding from_oci_platform to_oci_platform Platform.parse
from_oci_platform-to_oci_platform linux_amd64 = refl
from_oci_platform-to_oci_platform linux_arm64 = refl

read-write_new :
    (hash : Text) (bytes : Bytes) (out : Layout)
    → ((old : Bytes) → Files.read hash out.blobs ≡ some old → old ≡ bytes)
    → Files.read hash (write_new hash bytes out).blobs ≡ some bytes
unfolding write_new
read-write_new hash bytes out same = elim (Option-cases (Files.read hash out.blobs)) [
  | inl absent ↦
      subst Written (sym absent)
        (Files.read-write hash hash bytes out.blobs ∙ rw (equal_refl hash) refl)
  | inr (old, there) ↦ subst Written (sym there) (there ∙ ap some (same old there))
]
  where
    kept_or_new : Option Bytes → Layout
    kept_or_new o =
        if (elim o [ none ↦ false | some b ↦ true ])
        then out
        else record out { blobs = Files.write hash bytes out.blobs }

    Written : Option Bytes → Type 0
    Written o = Files.read hash (kept_or_new o).blobs ≡ some bytes

not_wrong :
    (hash_bytes : Bytes → Text) (bytes : Bytes)
    → is_wrong hash_bytes bytes (length bytes) (hash_bytes bytes) ≡ false
not_wrong hash_bytes bytes = ground (arith, equal_refl (hash_bytes bytes))

-- A blob that was written is read back through its descriptor, when the hash of its bytes has 64
-- hexadecimal digits and the layout had no other bytes under this hash.
pub read_blob-write_blob :
    (hash_bytes : Bytes → Text) (bytes : Bytes) (media_type : Text) (out : Layout)
    → is_sha256 (hash_bytes bytes) ≡ true
    → ((old : Bytes) → Files.read (hash_bytes bytes) out.blobs ≡ some old → old ≡ bytes)
    → ((write_blob hash_bytes bytes media_type out).0
        ≡ ok (descriptor_of (hash_bytes bytes) media_type (length bytes)))
      × (read_blob hash_bytes
            (write_blob hash_bytes bytes media_type out).1.blobs
            (descriptor_of (hash_bytes bytes) media_type (length bytes))
          ≡ ok bytes)
unfolding write_blob read_blob strip_prefix
read_blob-write_blob hash_bytes bytes media_type out valid same = (
  refl,
  rw (valid, read-write_new (hash_bytes bytes) bytes out same, not_wrong hash_bytes bytes) refl,
)
