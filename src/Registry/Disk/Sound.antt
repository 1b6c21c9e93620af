-- ===== src/Registry/Disk/Sound.antt =====
-- What the files of src/registry.rs hold: bytes that were verified, or nothing after a copy of a file
-- onto itself.
use binport.Base.{
  true, false, [], ◌∷◌, ◌≡◌, refl, sym, ◌∙◌, subst, arith, ◌⊎◌, inl, inr, Option, none, some, ok,
  Option-cases, ok-injective, if_some-eq, if_intro,
}
use binport.Exec.{gets, modify}
use binport.Exec.Keeps.{Keeps, Keeps-bind_lift, Keeps-bind, Keeps-pure, Keeps-gets, Keeps-if}
use binport.Files.{Files, read, write, remove, is_file, read-remove}
use binport.Json.{Bytes}
use binport.Registry.Digest.{digest_hash, is_wrong}
use binport.Registry.Disk.{
  Blob, linked, own, Layout, blob_at, Disk, kept, unlink, rename, copy, link_or_copy,
  link_from_cache, materialize, write_new, store_bytes, use_cached, materialize_cached,
}
use binport.Registry.{Error, Descriptor}
use binport.Text.Order.{equal_iff}
use binport.Text.{Text, equal}

module _ (hash_bytes : Bytes → Text) where
  -- The file is empty, or its name is the hash of its bytes.
  abbrev pub IsFine : Text → Bytes → Type 0
  IsFine name bytes = (bytes ≡ []) ⊎ (hash_bytes bytes ≡ name)

  pub record IsSound (d : Disk) : Type 0 where
    pub cached : (name : Text) (bytes : Bytes) → read name d.cache ≡ some bytes → IsFine name bytes
    pub owned :
        (name : Text) (bytes : Bytes) → blob_at name d.layout ≡ some (own bytes) → IsFine name bytes

  IsFine-at :
      (n name : Text) (b bytes : Bytes)
      → equal n name ≡ true
      → b ≡ bytes
      → IsFine n b
      → IsFine name bytes
  IsFine-at n name b bytes same equal_bytes fine =
      subst (λ m. IsFine m bytes) ((equal_iff n name).0 same) (subst (IsFine n) equal_bytes fine)

  Cached : Files → Type 0
  Cached cache = (name : Text) (bytes : Bytes) → read name cache ≡ some bytes → IsFine name bytes

  Owned : Layout → Type 0
  Owned layout =
      (name : Text) (bytes : Bytes) → blob_at name layout ≡ some (own bytes) → IsFine name bytes

  write-Cached :
      (cache : Files) (n : Text) (b : Bytes) → Cached cache → IsFine n b → Cached (write n b cache)
  unfolding Cached read
  write-Cached cache n b old fine name bytes h =
      elim (if_some-eq (equal n name) b bytes (read name cache) h) [
        | inl (same, e) ↦ IsFine-at n name b bytes same e fine
        | inr (other, e) ↦ old name bytes e
      ]

  remove-Cached : (cache : Files) (n : Text) → Cached cache → Cached (remove n cache)
  unfolding Cached
  remove-Cached cache n old name bytes h =
      old name bytes (ground (arith, read-remove name n cache, h))

  add-Owned :
      (layout : Layout) (n : Text) (b : Bytes)
      → Owned layout
      → IsFine n b
      → Owned ((n, own b) ∷ layout)
  unfolding Owned blob_at
  add-Owned layout n b old fine name bytes h =
      elim (if_some-eq (equal n name) (own b) (own bytes) (blob_at name layout) h) [
        | inl (same, e) ↦ IsFine-at n name b bytes same (cc) fine
        | inr (other, e) ↦ old name bytes e
      ]

  link-Owned : (layout : Layout) (n : Text) → Owned layout → Owned ((n, linked) ∷ layout)
  unfolding Owned blob_at
  link-Owned layout n old name bytes h =
      elim (if_some-eq (equal n name) linked (own bytes) (blob_at name layout) h) [
        | inl (same, e) ↦ cc
        | inr (other, e) ↦ old name bytes e
      ]

  kept-Owned :
      (name : Text) (blob : Option Blob) (bytes : Option Bytes) (layout : Layout)
      → ((b : Bytes) → bytes ≡ some b → IsFine name b)
      → Owned layout
      → Owned (kept name blob bytes layout)
  kept-Owned name (some linked) (some b) layout fine old = add-Owned layout name b old (fine b refl)
  kept-Owned name (some linked) none layout fine old = old
  kept-Owned name (some (own b)) bytes layout fine old = old
  kept-Owned name none bytes layout fine old = old

  unlink-IsSound : (name : Text) (d : Disk) → IsSound d → IsSound (unlink name d)
  unfolding unlink Cached Owned
  unlink-IsSound name d sound = record {
    cached = remove-Cached d.cache name sound.cached;
    owned =
        kept-Owned name (blob_at name d.layout) (read name d.cache) d.layout (sound.cached name)
          sound.owned;
  }

  pub rename-IsSound :
      (name : Text) (bytes : Bytes) (d : Disk)
      → IsFine name bytes
      → IsSound d
      → IsSound (rename name bytes d)
  unfolding rename Cached Owned
  rename-IsSound name bytes d fine sound =
      let rest = unlink-IsSound name d sound in
      record { cached = write-Cached _ name bytes rest.cached fine; owned = rest.owned }

  copy-IsSound :
      (name : Text) (bytes : Bytes) (blob : Option Blob) (d : Disk)
      → IsFine name bytes
      → IsSound d
      → IsSound (copy name bytes blob d)
  unfolding copy Cached Owned
  copy-IsSound name bytes (some linked) d fine sound = record {
    cached = write-Cached d.cache name [] sound.cached (inl refl);
    owned = sound.owned;
  }
  copy-IsSound name bytes (some (own b)) d fine sound = record {
    cached = sound.cached;
    owned = add-Owned d.layout name bytes sound.owned fine;
  }
  copy-IsSound name bytes none d fine sound = record {
    cached = sound.cached;
    owned = add-Owned d.layout name bytes sound.owned fine;
  }

  link_or_copy-IsSound :
      (name : Text) (bytes : Bytes) (d : Disk)
      → IsFine name bytes
      → IsSound d
      → IsSound (link_or_copy name bytes d)
  unfolding link_or_copy Cached Owned
  link_or_copy-IsSound name bytes d fine sound = elim (Option-cases (blob_at name d.layout)) [
    | inr (blob, there) ↦
        rw (there, link_or_copy) (copy-IsSound name bytes (some blob) d fine sound)
    | inl free ↦
        rw (free, link_or_copy)
          (if_intro IsSound d.links
            (record { cached = sound.cached; owned = link-Owned d.layout name sound.owned })
            (record {
              cached = sound.cached;
              owned = add-Owned d.layout name bytes sound.owned fine;
            }))
  ]

  link_from_cache-Keeps : (hash : Text) → Keeps IsSound (link_from_cache hash)
  unfolding link_from_cache
  link_from_cache-Keeps hash = record {
    holds = λ d sound. elim (Option-cases (read hash d.cache)) [
      | inl missing ↦ rw missing sound
      | inr (bytes, there) ↦
          rw there (link_or_copy-IsSound hash bytes d (sound.cached hash bytes there) sound)
    ];
  }

  pub materialize-Keeps : (digest : Text) → Keeps IsSound (materialize digest)
  unfolding materialize
  materialize-Keeps digest =
      Keeps-bind_lift (digest_hash digest) link_from_cache (λ hash _. link_from_cache-Keeps hash)

  write_new-Keeps :
      (hash : Text) (bytes : Bytes)
      → IsFine hash bytes
      → Keeps IsSound (modify {E = Error} (write_new hash bytes))
  unfolding write_new Cached Owned
  write_new-Keeps hash bytes fine = record {
    holds = λ d sound. if_intro IsSound (is_file hash d.cache) sound (record {
      cached = write-Cached d.cache hash bytes sound.cached fine;
      owned = sound.owned;
    });
  }

  pub store_bytes-Keeps :
      (digest : Text) (bytes : Bytes)
      → digest_hash digest ≡ ok (hash_bytes bytes)
      → Keeps IsSound (store_bytes digest bytes)
  unfolding store_bytes
  store_bytes-Keeps digest bytes valid = Keeps-bind_lift (digest_hash digest) _ (λ hash is.
      Keeps-bind _ _ (write_new-Keeps hash bytes (inr (ok-injective (sym valid ∙ is))))
        (λ _. materialize-Keeps digest))

  use_cached-Keeps :
      (descriptor : Descriptor) (hash : Text) (found : Option Bytes)
      → Keeps IsSound (use_cached hash_bytes descriptor hash found)
  unfolding use_cached
  use_cached-Keeps descriptor hash none = Keeps-pure false
  use_cached-Keeps descriptor hash (some bytes) =
      Keeps-if (is_wrong hash_bytes bytes descriptor.size hash) _ _
        (Keeps-bind (modify (unlink hash)) _
          (record { holds = λ d sound. unlink-IsSound hash d sound }) (λ _. Keeps-pure false))
        (Keeps-bind (materialize descriptor.digest) _ (materialize-Keeps descriptor.digest)
          (λ _. Keeps-pure true))

  pub materialize_cached-Keeps :
      (descriptor : Descriptor) → Keeps IsSound (materialize_cached hash_bytes descriptor)
  unfolding materialize_cached
  materialize_cached-Keeps descriptor = Keeps-bind_lift (digest_hash descriptor.digest) _ (λ hash _.
      Keeps-bind (gets (λ d. read hash d.cache)) _ (Keeps-gets (λ d. read hash d.cache))
        (use_cached-Keeps descriptor hash))
