-- ===== src/Registry/Transfer/Read.antt =====
-- `read_layout_blob` of src/registry.rs.
use binport.Base.{Result, ok, ◌>>=◌, ◌>>◌, ok_or}
use binport.Json.{Bytes}
use binport.Registry.Digest.{digest_hash, verify_bytes}
use binport.Registry.Disk.{Disk, read_blob}
use binport.Registry.{Error, Descriptor, file_not_found}
use binport.Text.{Text}

-- The bytes of the layout that a descriptor names, verified.
unfoldable pub read_layout_blob : (Bytes → Text) → Descriptor → Disk → Result Error Bytes
read_layout_blob hash_bytes descriptor d = do
  hash ← digest_hash descriptor.digest
  bytes ← ok_or (read_blob hash d) file_not_found
  verify_bytes hash_bytes bytes descriptor
  ok bytes
