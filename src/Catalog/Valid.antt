-- ===== src/Catalog/Valid.antt =====
-- What `validate` of src/catalog.rs makes sure of.
use binport.Base.{
  Bool, true, false, not, ◌||◌, List, [], ◌∷◌, ◌≡◌, sym, ◌∙◌, arith, ok, any, All, All-map,
  >>=-eq-ok, >>-eq-ok, passed, ok-injective,
}
use binport.Catalog.Platform.{Platform, linux_amd64, linux_arm64, same_comm, all_platforms}
use binport.Catalog.{
  CatalogArtifact, Tool, Catalog, unsupported_schema, empty_field, duplicate_tool,
  duplicate_artifact, not_https, invalid_sha256, missing_artifact, lacks_field, contains, is_https,
  is_sha256, check_artifacts, check_platforms, check_tools, validate, on,
}
use binport.Text.{Text, equal}

pub record IsGood (a : CatalogArtifact) : Type 0 where
  pub https : is_https a.url ≡ true
  pub hashed : is_sha256 a.sha256 ≡ true

-- Each artifact is good, and one is there for each platform.
pub record IsComplete (t : Tool) : Type 0 where
  pub fields : lacks_field t ≡ false
  pub good : All IsGood t.artifacts
  pub supported : (p : Platform) → any (on p) t.artifacts ≡ true

-- No two tools have the same name.
abbrev pub IsDistinct : List Tool → Type 0
IsDistinct [] = Unit
IsDistinct (t ∷ tools) = All (λ u. equal u.name t.name ≡ false) tools × IsDistinct tools

not-false : (b : Bool) → not b ≡ false → b ≡ true
not-false b h = ground arith

check_artifacts-IsGood :
    (name : Text) (platforms : List Platform) (artifacts : List CatalogArtifact)
    {seen : List Platform}
    → check_artifacts name platforms artifacts ≡ ok seen
    → All IsGood artifacts
unfolding check_artifacts
check_artifacts-IsGood name platforms [] h = tt
check_artifacts-IsGood name platforms (a ∷ artifacts) h =
    let (fresh, h1) = passed _ (duplicate_artifact name a.platform) _ h in
    let (https, h2) = passed _ (not_https name) _ h1 in
    let (hashed, h3) = passed _ (invalid_sha256 name) _ h2 in
    (
      record { https = not-false _ https; hashed = not-false _ hashed },
      check_artifacts-IsGood name (a.platform ∷ platforms) artifacts h3,
    )

-- The platforms behind the loop are those in front of it and those of the artifacts.
check_artifacts-contains :
    (name : Text) (platforms : List Platform) (artifacts : List CatalogArtifact)
    {seen : List Platform} (p : Platform)
    → check_artifacts name platforms artifacts ≡ ok seen
    → contains p seen ≡ (contains p platforms || any (on p) artifacts)
unfolding check_artifacts
check_artifacts-contains name platforms [] p h = rw (← ok-injective h) (ground arith)
check_artifacts-contains name platforms (a ∷ artifacts) p h =
    let (fresh, h1) = passed _ (duplicate_artifact name a.platform) _ h in
    let (https, h2) = passed _ (not_https name) _ h1 in
    let (hashed, h3) = passed _ (invalid_sha256 name) _ h2 in
    check_artifacts-contains name (a.platform ∷ platforms) artifacts p h3
    ∙ rw (same_comm p a.platform) (ground arith)

check_platforms-contains :
    (name : Text) (platforms wanted : List Platform)
    → check_platforms name platforms wanted ≡ ok tt
    → All (λ p. contains p platforms ≡ true) wanted
unfolding check_platforms
check_platforms-contains name platforms [] h = tt
check_platforms-contains name platforms (p ∷ wanted) h =
    let (there, h1) = passed _ (missing_artifact name p) _ h in
    (not-false _ there, check_platforms-contains name platforms wanted h1)

all_platforms-contains :
    (name : Text) (platforms : List Platform) (p : Platform)
    → check_platforms name platforms all_platforms ≡ ok tt
    → contains p platforms ≡ true
all_platforms-contains name platforms linux_amd64 h =
    (check_platforms-contains name platforms all_platforms h).0
all_platforms-contains name platforms linux_arm64 h =
    (check_platforms-contains name platforms all_platforms h).1.0

-- The tools that are checked are complete, and their names are new and distinct.
abbrev New : List Text → Tool → Type 0
New names t = any (equal t.name) names ≡ false

unseen : (n : Text) (names : List Text) (t : Tool) → New (n ∷ names) t → New names t
unseen n names t h = ground arith

differs : (n : Text) (names : List Text) (t : Tool) → New (n ∷ names) t → equal t.name n ≡ false
differs n names t h = ground arith

check_tools-IsComplete :
    (names : List Text) (tools : List Tool)
    → check_tools names tools ≡ ok tt
    → All IsComplete tools × All (New names) tools × IsDistinct tools
unfolding check_tools
check_tools-IsComplete names [] h = (tt, tt, tt)
check_tools-IsComplete names (t ∷ tools) h =
    let (fields, h1) = passed _ (empty_field t.name) _ h in
    let (fresh, h2) = passed _ (duplicate_tool t.name) _ h1 in
    let (platforms, checked, h3) = >>=-eq-ok (check_artifacts t.name [] t.artifacts) _ h2 in
    let (there, h4) = >>-eq-ok (check_platforms t.name platforms all_platforms) _ h3 in
    let (complete, new, distinct) = check_tools-IsComplete (t.name ∷ names) tools h4 in
    (
      (
        record {
          fields = fields;
          good = check_artifacts-IsGood t.name [] t.artifacts checked;
          supported = λ p.
              sym (check_artifacts-contains t.name [] t.artifacts p checked)
              ∙ all_platforms-contains t.name platforms p there;
        },
        complete,
      ),
      (fresh, All-map (unseen t.name names) tools new),
      (All-map (differs t.name names) tools new, distinct),
    )

pub validate-IsComplete :
    (catalog : Catalog)
    → validate catalog ≡ ok tt
    → All IsComplete catalog.tools × IsDistinct catalog.tools
unfolding validate
validate-IsComplete catalog h =
    let (schema, h1) = passed _ (unsupported_schema catalog.schema) _ h in
    let (complete, new, distinct) = check_tools-IsComplete [] catalog.tools h1 in
    (complete, distinct)
