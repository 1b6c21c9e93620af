-- ===== src/Catalog.antt =====
-- The catalog of official tools: src/catalog.rs. The value that the YAML reader makes of the file
-- `catalog.yaml` is an argument of the functions that look up in it.
pub mod Platform
pub mod Archive
pub mod Valid
pub mod Served
use binport.Base.{
  ℕ, Bool, not, ◌&&◌, ◌||◌, List, [], ◌∷◌, Option, none, some, Result, ok, ◌>>=◌, ◌>>◌, ◌==◌,
  refuse_if, all, any, find, is_empty,
}
use Platform.{same, all_platforms}
use binport.Text.{Text, codes, equal, len, starts_with, is_ascii_alphanumeric, is_ascii_hexdigit}

pub record CatalogArtifact : Type 0 where
  pub platform : Platform.Platform
  pub url : Text
  pub sha256 : Text
  pub archive : Archive.Archive

pub record Tool : Type 0 where
  pub name : Text
  pub version : Text
  pub replaces : Text
  pub description : Text
  pub artifacts : List CatalogArtifact

pub record Artifact : Type 0 where
  pub tool : Text
  pub version : Text
  pub platform : Platform.Platform
  pub url : Text
  pub sha256 : Text
  pub archive : Archive.Archive

pub record Catalog : Type 0 where
  pub schema : ℕ
  pub tools : List Tool

-- One constructor for each message, with the values that the message holds.
pub data Error : Type 0 where
  unsupported_schema : ℕ → Error
  empty_field : Text → Error
  duplicate_tool : Text → Error
  duplicate_artifact : Text → Platform.Platform → Error
  not_https : Text → Error
  invalid_sha256 : Text → Error
  missing_artifact : Text → Platform.Platform → Error

abbrev pub is_tool_char : ℕ → Bool
is_tool_char c = is_ascii_alphanumeric c || c == b'-' || c == b'_'

unfoldable pub lacks_field : Tool → Bool
lacks_field tool =
    is_empty tool.name
    || not (all is_tool_char tool.name)
    || is_empty tool.version
    || is_empty tool.replaces
    || is_empty tool.description

-- The set of the platforms as a list.
abbrev pub contains : Platform.Platform → List Platform.Platform → Bool
contains platform = any (same platform)

abbrev pub is_https : Text → Bool
is_https url = starts_with (codes "https://") url

unfoldable pub is_sha256 : Text → Bool
unfolding len
is_sha256 hash = len hash == 64 && all is_ascii_hexdigit hash

-- `for artifact in &tool.artifacts`: the platforms behind the loop.
unfoldable pub check_artifacts :
    Text → List Platform.Platform → List CatalogArtifact → Result Error (List Platform.Platform)
check_artifacts name platforms [] = ok platforms
check_artifacts name platforms (a ∷ artifacts) = do
  refuse_if (contains a.platform platforms) (duplicate_artifact name a.platform)
  refuse_if (not (is_https a.url)) (not_https name)
  refuse_if (not (is_sha256 a.sha256)) (invalid_sha256 name)
  check_artifacts name (a.platform ∷ platforms) artifacts

-- `for platform in Platform::ALL`
unfoldable pub check_platforms :
    Text → List Platform.Platform → List Platform.Platform → Result Error (Unit {0})
check_platforms name platforms [] = ok tt
check_platforms name platforms (p ∷ wanted) = do
  refuse_if (not (contains p platforms)) (missing_artifact name p)
  check_platforms name platforms wanted

-- `for tool in &catalog.tools`
unfoldable pub check_tools : List Text → List Tool → Result Error (Unit {0})
check_tools names [] = ok tt
check_tools names (t ∷ tools) = do
  refuse_if (lacks_field t) (empty_field t.name)
  refuse_if (any (equal t.name) names) (duplicate_tool t.name)
  platforms ← check_artifacts t.name [] t.artifacts
  check_platforms t.name platforms all_platforms
  check_tools (t.name ∷ names) tools

unfoldable pub validate : Catalog → Result Error (Unit {0})
validate catalog = do
  refuse_if (not (catalog.schema == 1)) (unsupported_schema catalog.schema)
  check_tools [] catalog.tools

abbrev pub named : Text → Tool → Bool
named tool entry = equal entry.name tool

unfoldable pub replacement : Catalog → Text → Text
replacement catalog tool = elim (find (named tool) catalog.tools) [
  | none ↦ codes "-"
  | some entry ↦ entry.replaces
]

unfoldable pub description : Catalog → Text → Text
description catalog tool = elim (find (named tool) catalog.tools) [
  | none ↦ codes "custom tool"
  | some entry ↦ entry.description
]

-- `entry.name == tool && version.is_none_or(|requested| requested == entry.version)`
abbrev pub fits : Text → Option Text → Tool → Bool
fits tool none entry = named tool entry
fits tool (some requested) entry = named tool entry && equal requested entry.version

abbrev pub on : Platform.Platform → CatalogArtifact → Bool
on platform entry = same entry.platform platform

abbrev pub found : Tool → Platform.Platform → CatalogArtifact → Artifact
found tool platform artifact = record {
  tool = tool.name;
  version = tool.version;
  platform = platform;
  url = artifact.url;
  sha256 = artifact.sha256;
  archive = artifact.archive;
}

abbrev pub tool_artifact : Platform.Platform → Tool → Option Artifact
tool_artifact platform tool = elim (find (on platform) tool.artifacts) [
  | none ↦ none
  | some artifact ↦ some (found tool platform artifact)
]

unfoldable pub artifact : Catalog → Text → Option Text → Platform.Platform → Option Artifact
artifact catalog tool version platform = elim (find (fits tool version) catalog.tools) [
  | none ↦ none
  | some entry ↦ tool_artifact platform entry
]
