-- ===== src/Registry/Disk/Twice.antt =====
-- A blob that is put into the layout of src/registry.rs twice.
use binport.Base.{true, [], ◌∷◌, ◌≡◌, refl, ◌∙◌, ap, none, some, ok}
use binport.Files.{read, write}
use binport.Json.{Bytes}
use binport.Registry.Digest.{digest_hash}
use binport.Registry.Disk.{
  linked, blob_at, Disk, read_blob, copy, link_or_copy, link_from_cache, materialize,
}
use binport.Text.Order.{equal_refl}
use binport.Text.{Text}

materialize-link_or_copy :
    (digest hash : Text) (bytes : Bytes) (d : Disk)
    → digest_hash digest ≡ ok hash
    → read hash d.cache ≡ some bytes
    → materialize digest d ≡ (ok tt, link_or_copy hash bytes d)
unfolding materialize link_from_cache
materialize-link_or_copy digest hash bytes d valid there =
    rw (valid, link_from_cache) (rw (there, link_from_cache) refl)

linked_disk : Text → Disk → Disk
linked_disk hash d = record d { layout = (hash, linked) ∷ d.layout }

emptied_disk : Text → Disk → Disk
unfolding linked_disk
emptied_disk hash d = record (linked_disk hash d) { cache = write hash [] d.cache }

link_or_copy-linked :
    (hash : Text) (bytes : Bytes) (d : Disk)
    → d.links ≡ true
    → blob_at hash d.layout ≡ none
    → link_or_copy hash bytes d ≡ linked_disk hash d
unfolding link_or_copy linked_disk
link_or_copy-linked hash bytes d links free = rw (free, link_or_copy) (rw links refl)

link_or_copy-emptied :
    (hash : Text) (bytes : Bytes) (d : Disk)
    → link_or_copy hash bytes (linked_disk hash d) ≡ emptied_disk hash d
unfolding link_or_copy emptied_disk blob_at copy linked_disk
link_or_copy-emptied hash bytes d = rw (equal_refl hash, link_or_copy) refl

-- On a file system with hard links, a cached blob that is put into a layout that lacks it is read
-- there; when the same digest is put there once more, the blob is empty in the layout and in the
-- cache, and neither call fails.
pub materialize-materialize :
    (digest hash : Text) (bytes : Bytes) (d : Disk)
    → digest_hash digest ≡ ok hash
    → d.links ≡ true
    → blob_at hash d.layout ≡ none
    → read hash d.cache ≡ some bytes
    → (once : Disk) × (twice : Disk) × (materialize digest d ≡ (ok tt, once))
      × (read_blob hash once ≡ some bytes)
      × (materialize digest once ≡ (ok tt, twice))
      × (read_blob hash twice ≡ some [])
      × (read hash twice.cache ≡ some [])
unfolding read_blob emptied_disk blob_at linked_disk read
materialize-materialize digest hash bytes d valid links free there = (
  linked_disk hash d,
  emptied_disk hash d,
  materialize-link_or_copy digest hash bytes d valid there
      ∙ ap (λ x. (ok tt, x)) (link_or_copy-linked hash bytes d links free),
  rw (equal_refl hash, read_blob) there,
  materialize-link_or_copy digest hash bytes (linked_disk hash d) valid there
      ∙ ap (λ x. (ok tt, x)) (link_or_copy-emptied hash bytes d),
  rw (equal_refl hash, read_blob) (rw (equal_refl hash) refl),
  rw (equal_refl hash) refl,
)
