-- ===== src/Catalog/Served.antt =====
-- What `artifact` of src/catalog.rs finds in a valid catalog.
use binport.Base.{
  Option, none, sym, ap, Option-cases, Bool, true, false, List, [], ◌∷◌, ◌≡◌, refl, arith, none,
  some, ok, find, All, All-zip, find-All, Bool-cases, inl, inr,
}
use binport.Catalog.Platform.{Platform}
use binport.Catalog.Valid.{IsGood, IsComplete, IsDistinct, validate-IsComplete}
use binport.Catalog.{
  Tool, Catalog, Artifact, is_https, is_sha256, validate, on, fits, found, tool_artifact, artifact,
}
use binport.Text.{equal}
use binport.Text.{Text}
use binport.Text.Order.{equal_refl, equal_comm}

-- The artifact of a tool for a platform, as one can rely on it.
pub record IsServed (t : Tool) (p : Platform) (a : Artifact) : Type 0 where
  pub tool : a.tool ≡ t.name
  pub version : a.version ≡ t.version
  pub platform : a.platform ≡ p
  pub https : is_https a.url ≡ true
  pub hashed : is_sha256 a.sha256 ≡ true

-- A test that only fits the tool's own name finds the tool.
abbrev Finds : List Tool → Tool → Type 0
Finds tools t =
    (q : Tool → Bool)
    → q t ≡ true
    → ((u : Tool) → q u ≡ true → equal u.name t.name ≡ true)
    → find q tools ≡ some t

find_later :
    (x t : Tool) (tools : List Tool)
    → equal t.name x.name ≡ false
    → Finds tools t
    → Finds (x ∷ tools) t
find_later x t tools differ finds q fits_t only = elim (Bool-cases (q x)) [
  | inl here ↦ ground (arith, only x here, equal_comm t.name x.name)
  | inr not_here ↦ rw (not_here, find) (finds q fits_t only)
]

find_distinct : (tools : List Tool) → IsDistinct tools → All (Finds tools) tools
find_distinct [] h = tt
find_distinct (x ∷ tools) (differ, h) = (
  λ q fits_x only. rw (fits_x, find) refl,
  All-zip (λ t. find_later x t tools) tools differ (find_distinct tools h),
)

-- A complete tool has an artifact for each platform.
tool_artifact-IsServed :
    (t : Tool) (p : Platform)
    → IsComplete t
    → (a : Artifact) × (tool_artifact p t ≡ some a) × IsServed t p a
tool_artifact-IsServed t p complete =
    let (entry, here, good, on_p) =
      find-All IsGood (on p) t.artifacts complete.good (complete.supported p) in
    (
      found t p entry,
      rw (here, tool_artifact) refl,
      record {
        tool = refl;
        version = refl;
        platform = refl;
        https = good.https;
        hashed = good.hashed;
      },
    )

-- The artifact that is asked for by the name of a tool, with its version or with none.
abbrev pub Serves : Catalog → Tool → Type 0
Serves catalog t =
    (p : Platform)
    → (a : Artifact) × (artifact catalog t.name none p ≡ some a)
      × (artifact catalog t.name (some t.version) p ≡ some a)
      × IsServed t p a

artifact-Serves :
    (catalog : Catalog) (t : Tool) → IsComplete t → Finds catalog.tools t → Serves catalog t
unfolding artifact
artifact-Serves catalog t complete finds p =
    let (a, here, served) = tool_artifact-IsServed t p complete in
    let by_name = finds (fits t.name none) (equal_refl t.name) (λ u h. h) in
    let by_version =
      finds (fits t.name (some t.version)) (rw (equal_refl t.name, equal_refl t.version) refl)
        (λ u h. ground arith) in
    (a, rw (by_name, artifact) here, rw (by_version, artifact) here, served)

-- In a catalog that `validate` accepts, every tool has for every platform an artifact of its own
-- version with an https address and a hash of 64 hexadecimal digits, and `artifact` finds it by the
-- tool's name alone and by its name and version.
pub validate-Serves :
    (catalog : Catalog) → validate catalog ≡ ok tt → All (Serves catalog) catalog.tools
validate-Serves catalog h =
    let (complete, distinct) = validate-IsComplete catalog h in
    All-zip (artifact-Serves catalog) catalog.tools complete (find_distinct catalog.tools distinct)

tool_artifact-platform :
    (t : Tool) (p : Platform) (a : Artifact) → tool_artifact p t ≡ some a → a.platform ≡ p
tool_artifact-platform t p a h = elim (Option-cases (find (on p) t.artifacts)) [
  | inl missing ↦ (let wrong = rw (missing, tool_artifact) at h in cc)
  | inr (entry, here) ↦
      ap (λ (b : Option Artifact). elim b [ none ↦ p | some c ↦ c.platform ])
        (sym (rw (here, tool_artifact) at h))
]

-- An artifact that is found is one for the platform that was asked for.
pub artifact-platform :
    (catalog : Catalog) (tool : Text) (version : Option Text) (p : Platform) (a : Artifact)
    → artifact catalog tool version p ≡ some a
    → a.platform ≡ p
unfolding artifact
artifact-platform catalog tool version p a h =
    elim (Option-cases (find (fits tool version) catalog.tools)) [
      | inl missing ↦ (let wrong = rw (missing, artifact) at h in cc)
      | inr (t, here) ↦ tool_artifact-platform t p a (rw (here, artifact) at h)
    ]
