-- ===== src/Registry/Digest.antt =====
-- Digests and the verification of bytes: `digest_hash` and `verify_bytes` of src/registry.rs.
use binport.Base.{
  ℕ, Bool, false, not, ◌||◌, ◌≡◌, arith, Result, ok, ◌>>=◌, ◌>>◌, ◌==◌, refuse_if, ok_or, length,
  refuse_if-eq-ok, >>=-eq-ok,
}
use binport.Catalog.{is_sha256}
use binport.Json.{Bytes}
use binport.Registry.{Error, not_sha256, invalid_digest, verification_failed, Descriptor}
use binport.Text.{Text, codes, equal, strip_prefix}
use binport.Text.Order.{equal_iff}

unfoldable pub digest_hash : Text → Result Error Text
digest_hash digest = do
  hash ← ok_or (strip_prefix (codes "sha256:") digest) not_sha256
  refuse_if (not (is_sha256 hash)) invalid_digest
  ok hash

-- `bytes.len() as u64 != descriptor.size || hash_bytes(bytes) != hash`
abbrev pub is_wrong : (Bytes → Text) → Bytes → ℕ → Text → Bool
is_wrong hash_bytes bytes size hash =
    not (length bytes == size) || not (equal (hash_bytes bytes) hash)

unfoldable pub verify_bytes : (Bytes → Text) → Bytes → Descriptor → Result Error (Unit {0})
verify_bytes hash_bytes bytes descriptor = do
  hash ← digest_hash descriptor.digest
  refuse_if (is_wrong hash_bytes bytes descriptor.size hash) (verification_failed descriptor.digest)

pub not_wrong :
    (hash_bytes : Bytes → Text) (bytes : Bytes) (size : ℕ) (hash : Text)
    → is_wrong hash_bytes bytes size hash ≡ false
    → (length bytes ≡ size) × (hash_bytes bytes ≡ hash)
not_wrong hash_bytes bytes size hash h = ground (arith, equal_iff (hash_bytes bytes) hash)

pub verify_bytes-eq-ok :
    (hash_bytes : Bytes → Text) (bytes : Bytes) (d : Descriptor)
    → verify_bytes hash_bytes bytes d ≡ ok tt
    → (digest_hash d.digest ≡ ok (hash_bytes bytes)) × (length bytes ≡ d.size)
unfolding verify_bytes
verify_bytes-eq-ok hash_bytes bytes d h =
    let (hash, valid, h1) = >>=-eq-ok (digest_hash d.digest) _ h in
    let right =
      not_wrong hash_bytes bytes d.size hash
        (refuse_if-eq-ok (is_wrong hash_bytes bytes d.size hash) _ h1) in
    (rw right.1 valid, right.0)
