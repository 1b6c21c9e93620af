-- ===== src/Registry/Reference/RoundTrip.antt =====
-- A reference of src/registry.rs is read from what one writes for it.
use binport.Base.{
  ℕ, true, false, ◌||◌, [], ◌∷◌, ◌++◌, ◌≡◌, refl, sym, ◌∙◌, ap, arith, some, ok, ◌==◌, all,
  is_empty, Bool-cases, inl, inr, subst, append_assoc,
}
use binport.Registry.Reference.{
  Reference, split_tag, repository_tag, repository_reference, is_repository_char, parse,
}
use binport.Text.Search.{has, rsplit_once-none, rsplit_once-last}
use binport.Text.{Text, codes, strip_prefix, split_once, is_ascii_alphanumeric}

has-append : (c : ℕ) (a b : Text) → has c (a ++ b) ≡ (has c a || has c b)
has-append c [] b = refl
has-append c (d ∷ a) b = ground (arith, has-append c a b)

-- The last place of a character.
last_place :
    (c : ℕ) (s : Text)
    → has c s ≡ true
    → (a : Text) × (b : Text) × (s ≡ a ++ c ∷ b) × (has c b ≡ false)
last_place c [] h = cc
last_place c (d ∷ s) h = elim (Bool-cases (has c s)) [
  | inl later ↦
      let (a, b, same, free) = last_place c s later in (d ∷ a, b, ap (λ t. d ∷ t) same, free)
  | inr free ↦ ([], s, ap (λ e. e ∷ s) (ground (arith, h, free)), free)
]

not_at : (s : Text) → all is_repository_char s ≡ true → has b'@' s ≡ false
unfolding is_ascii_alphanumeric
not_at [] h = refl
not_at (c ∷ s) h = ground (arith, not_at s)

split_once-slash :
    (a b : Text) → has b'/' a ≡ false → split_once (λ c. c == b'/') (a ++ b'/' ∷ b) ≡ some (a, b)
unfolding split_once
split_once-slash [] b h = refl
split_once-slash (c ∷ a) b h = ground (arith, split_once-slash a b)

split_tag-tag :
    (directory name tag : Text)
    → has b':' tag ≡ false
    → split_tag directory (name ++ b':' ∷ tag) ≡ (directory ++ name, tag)
split_tag-tag directory name tag no_colon =
    rw (rsplit_once-last b':' name tag no_colon, split_tag) refl

no_slash-tag :
    (name tag : Text)
    → has b'/' name ≡ false
    → has b'/' tag ≡ false
    → has b'/' (name ++ b':' ∷ tag) ≡ false
no_slash-tag name tag flat no_slash = has-append b'/' name (b':' ∷ tag) ∙ ground arith

repository_tag-flat :
    (repository tag : Text)
    → has b'/' repository ≡ false
    → has b'/' tag ≡ false
    → has b':' tag ≡ false
    → repository_tag (repository ++ b':' ∷ tag) ≡ (repository, tag)
unfolding repository_tag
repository_tag-flat repository tag flat no_slash no_colon =
    rw
      (
        rsplit_once-none b'/' (repository ++ b':' ∷ tag)
            (no_slash-tag repository tag flat no_slash),
        repository_tag,
      )
      (split_tag-tag [] repository tag no_colon)

repository_tag-deep :
    (directory name tag : Text)
    → has b'/' name ≡ false
    → has b'/' tag ≡ false
    → has b':' tag ≡ false
    → repository_tag ((directory ++ b'/' ∷ name) ++ b':' ∷ tag) ≡ (directory ++ b'/' ∷ name, tag)
unfolding repository_tag
repository_tag-deep directory name tag flat no_slash no_colon =
    ap repository_tag (append_assoc directory (b'/' ∷ name) (b':' ∷ tag))
    ∙ rw
        (
          rsplit_once-last b'/' directory (name ++ b':' ∷ tag)
              (no_slash-tag name tag flat no_slash),
          repository_tag,
        )
        (split_tag-tag (directory ++ codes "/") name tag no_colon
          ∙ ap (λ r. (r, tag)) (append_assoc directory (codes "/") name))

repository_tag-tag :
    (repository tag : Text)
    → has b'/' tag ≡ false
    → has b':' tag ≡ false
    → repository_tag (repository ++ b':' ∷ tag) ≡ (repository, tag)
repository_tag-tag repository tag no_slash no_colon = elim (Bool-cases (has b'/' repository)) [
  | inr flat ↦ repository_tag-flat repository tag flat no_slash no_colon
  | inl deep ↦
      let (directory, name, same, flat) = last_place b'/' repository deep in
      subst (λ r. repository_tag (r ++ b':' ∷ tag) ≡ (r, tag)) (sym same)
        (repository_tag-deep directory name tag flat no_slash no_colon)
]

-- What a written reference needs for each of its parts to be read back.
pub record IsWritable (r : Reference) : Type 0 where
  pub registry : is_empty r.registry ≡ false
  pub one_host : has b'/' r.registry ≡ false
  pub repository : is_empty r.repository ≡ false
  pub plain : all is_repository_char r.repository ≡ true
  pub reference : is_empty r.reference ≡ false
  pub no_at : has b'@' r.reference ≡ false

abbrev pub written : Text → Reference → Text
written mark r = codes "oci://" ++ (r.registry ++ (b'/' ∷ (r.repository ++ (mark ++ r.reference))))

not_empty-append : (a b : Text) → is_empty a ≡ false → is_empty (a ++ b) ≡ false
not_empty-append [] b h = cc
not_empty-append (c ∷ a) b h = refl

parse-parts :
    (mark : Text) (r : Reference)
    → IsWritable r
    → repository_reference (r.repository ++ (mark ++ r.reference)) ≡ (r.repository, r.reference)
    → parse (written mark r) ≡ ok r
unfolding parse strip_prefix
parse-parts mark r w parts =
    rw
      (
        split_once-slash r.registry (r.repository ++ (mark ++ r.reference)) w.one_host,
        w.registry,
        not_empty-append r.repository (mark ++ r.reference) w.repository,
        parts,
        w.repository,
        w.reference,
        w.plain,
      )
      refl

-- The two ways to write the last part.
pub data Form : Type 0 where
  with_tag with_digest : Form

abbrev pub separator : Form → Text
separator with_tag = codes ":"
separator with_digest = codes "@"

abbrev pub Fits : Form → Text → Type 0
Fits with_tag reference = (has b'/' reference ≡ false) × (has b':' reference ≡ false)
Fits with_digest reference = Unit

-- A reference that is written with its last part behind `@`, or behind `:` where that part holds no
-- `:` and no `/`, is read back in its three parts: the registry is not empty and holds no `/`, the
-- repository and the reference are not empty, the repository has only the characters that are
-- allowed, and the reference holds no `@`.
pub parse-written :
    (form : Form) (r : Reference)
    → IsWritable r
    → Fits form r.reference
    → parse (written (separator form) r) ≡ ok r
unfolding repository_reference
parse-written with_digest r w fits =
    parse-parts (codes "@") r w
      (rw (rsplit_once-last b'@' r.repository r.reference w.no_at, repository_reference) refl)
parse-written with_tag r w (no_slash, no_colon) = parse-parts (codes ":") r w (
    rw
      (
        rsplit_once-none b'@' (r.repository ++ b':' ∷ r.reference) (
            has-append b'@' r.repository (b':' ∷ r.reference)
            ∙ rw (not_at r.repository w.plain, w.no_at) refl),
        repository_reference,
      )
      (repository_tag-tag r.repository r.reference no_slash no_colon))
