-- ===== src/Registry/Disk.antt =====
-- The cache of blobs and the layout that is filled from it: `materialize`, `materialize_cached` and
-- `store_bytes` of src/registry.rs. A blob of the layout is a hard link to the file of the same name
-- in the cache, or a file of its own. `fs::hard_link` fails where the destination is there, or where
-- the file system does not link; `fs::copy` opens its destination with truncation, so a copy onto
-- another link of the source leaves both empty.
pub mod Sound
pub mod Twice
use binport.Base.{
  ℕ, Bool, true, false, not, List, [], ◌∷◌, Option, none, some, Result, ok, err, ok_or,
  if◌then◌else◌,
}
use binport.Exec.{Exec, ◌>>=◌, ◌>>◌, pure, fail, lift, gets, modify}
use binport.Files.{Files, read, write, remove, is_file}
use binport.Json.{Bytes}
use binport.Registry.Digest.{digest_hash, is_wrong}
use binport.Registry.{Error, Descriptor, file_not_found}
use binport.Text.{Text, equal}

pub data Blob : Type 0 where
  linked : Blob
  own : Bytes → Blob

abbrev pub Layout : Type 0
Layout = List (Text × Blob)

unfoldable pub blob_at : Text → Layout → Option Blob
blob_at name [] = none
blob_at name ((n, blob) ∷ layout) =
    let rest = blob_at name layout in if equal n name then some blob else rest

-- `links` says whether the cache and the layout are on one file system that has hard links. The
-- files that are being received stand in the cache under names that are no hashes.
pub record Disk : Type 0 where
  pub links : Bool
  pub cache : Files
  pub received : Files
  pub layout : Layout

-- What one reads in the layout.
abbrev content : Files → Text → Blob → Option Bytes
content cache name linked = read name cache
content cache name (own bytes) = some bytes

unfoldable pub read_blob : Text → Disk → Option Bytes
read_blob name d = elim (blob_at name d.layout) [
  | none ↦ none
  | some blob ↦ content d.cache name blob
]

-- The file under the name in the cache goes away; a link to it keeps its bytes.
abbrev pub kept : Text → Option Blob → Option Bytes → Layout → Layout
kept name (some linked) (some bytes) layout = (name, own bytes) ∷ layout
kept name _ _ layout = layout

unfoldable pub unlink : Text → Disk → Disk
unlink name d = record d {
  cache = remove name d.cache;
  layout = kept name (blob_at name d.layout) (read name d.cache) d.layout;
}

-- `fs::rename` of a received file to its name in the cache
unfoldable pub rename : Text → Bytes → Disk → Disk
unfolding unlink
rename name bytes d = record (unlink name d) {
  cache = write name bytes (unlink name d).cache;
  received = remove name d.received;
}

-- `fs::copy` from the cache to the layout, where the source has these bytes
unfoldable pub copy : Text → Bytes → Option Blob → Disk → Disk
copy name bytes (some linked) d = record d { cache = write name [] d.cache }
copy name bytes _ d = record d { layout = (name, own bytes) ∷ d.layout }

-- `fs::hard_link(..).is_err()`, then `fs::copy`
unfoldable pub link_or_copy : Text → Bytes → Disk → Disk
unfolding copy
link_or_copy name bytes d = elim (blob_at name d.layout) [
  | none ↦
      if d.links
      then record d { layout = (name, linked) ∷ d.layout }
      else record d { layout = (name, own bytes) ∷ d.layout }
  | some blob ↦ copy name bytes (some blob) d
]

unfoldable pub link_from_cache : Text → Exec Error Disk (Unit {0})
link_from_cache hash = do
  source ← gets (λ d. read hash d.cache)
  bytes ← lift (ok_or source file_not_found)
  modify (link_or_copy hash bytes)

unfoldable pub materialize : Text → Exec Error Disk (Unit {0})
materialize digest = do hash ← lift (digest_hash digest); link_from_cache hash

-- `if !cached.exists() { fs::write(&cached, bytes)?; }`
unfoldable pub write_new : Text → Bytes → Disk → Disk
write_new hash bytes d =
    if is_file hash d.cache then d else record d { cache = write hash bytes d.cache }

unfoldable pub store_bytes : Text → Bytes → Exec Error Disk (Unit {0})
store_bytes digest bytes = do
  hash ← lift (digest_hash digest)
  modify (write_new hash bytes)
  materialize digest

-- The cached bytes are used where they verify, and removed where they do not.
unfoldable pub use_cached : (Bytes → Text) → Descriptor → Text → Option Bytes → Exec Error Disk Bool
use_cached hash_bytes descriptor hash none = pure false
use_cached hash_bytes descriptor hash (some bytes) =
    if is_wrong hash_bytes bytes descriptor.size hash
    then (do modify (unlink hash); pure false)
    else (do materialize descriptor.digest; pure true)

unfoldable pub materialize_cached : (Bytes → Text) → Descriptor → Exec Error Disk Bool
materialize_cached hash_bytes descriptor = do
  hash ← lift (digest_hash descriptor.digest)
  found ← gets (λ d. read hash d.cache)
  use_cached hash_bytes descriptor hash found
