-- ===== src/Registry/Reference.antt =====
-- `Reference` of src/registry.rs: the name of an image and the urls of its parts.
pub mod RoundTrip
use binport.Base.{
  ℕ, Bool, true, false, not, ◌&&◌, ◌||◌, List, [], ◌∷◌, ◌++◌, ◌≡◌, refl, arith, Option, none, some,
  Result, ok, ◌>>=◌, ◌>>◌, ◌==◌, refuse_if, ok_or, all, is_empty,
}
use binport.Registry.{Error, not_oci_scheme, no_repository, empty_part, invalid_reference}
use binport.Text.Search.{rsplit_once}
use binport.Text.{Text, codes, strip_prefix, split_once, is_ascii_alphanumeric}

pub record Reference : Type 0 where
  pub registry : Text
  pub repository : Text
  pub reference : Text

-- The part behind the last `/`, cut at its last `:`.
abbrev pub split_tag : Text → Text → Text × Text
split_tag directory name = elim (rsplit_once b':' name) [
  | some (repository, tag) ↦ (directory ++ repository, tag)
  | none ↦ (directory ++ name, codes "latest")
]

unfoldable pub repository_tag : Text → Text × Text
repository_tag rest = elim (rsplit_once b'/' rest) [
  | some (directory, name) ↦ split_tag (directory ++ codes "/") name
  | none ↦ split_tag [] rest
]

unfoldable pub repository_reference : Text → Text × Text
repository_reference rest = elim (rsplit_once b'@' rest) [
  | some parts ↦ parts
  | none ↦ repository_tag rest
]

abbrev pub is_repository_char : ℕ → Bool
is_repository_char c = is_ascii_alphanumeric c || c == b'/' || c == b'.' || c == b'_' || c == b'-'

abbrev pub checked : Text → Text × Text → Result Error Reference
checked registry (repository, reference) = do
  refuse_if (is_empty repository || is_empty reference || not (all is_repository_char repository))
      invalid_reference
  ok (record { registry = registry; repository = repository; reference = reference })

unfoldable pub parse : Text → Result Error Reference
parse text = do
  value ← ok_or (strip_prefix (codes "oci://") text) not_oci_scheme
  (registry, rest) ← ok_or (split_once (λ c. c == b'/') value) no_repository
  refuse_if (is_empty registry || is_empty rest) empty_part
  checked registry (repository_reference rest)

-- `{scheme}://{registry}/v2/{repository}`
abbrev base_url : Reference → Text → Text
base_url r scheme = scheme ++ (codes "://" ++ (r.registry ++ (codes "/v2/" ++ r.repository)))

unfoldable pub manifest_url : Reference → Text → Text → Text
manifest_url r reference scheme = base_url r scheme ++ (codes "/manifests/" ++ reference)

unfoldable pub blob_url : Reference → Text → Text → Text
blob_url r digest scheme = base_url r scheme ++ (codes "/blobs/" ++ digest)

unfoldable pub uploads_url : Reference → Text → Text
uploads_url r scheme = base_url r scheme ++ codes "/blobs/uploads/"
