-- ===== src/Lockfile.antt =====
-- The resolution of a Binfile into a lock file: `resolve` of src/lockfile.rs. What the file system
-- holds is an argument: `locate` gives the recorded path and the hash of a copy's source, or nothing
-- where it is not there. The lock's own file and the hash of the Binfile are left out.
pub mod File
pub mod Locked
pub mod Sound
use binport.Base.{
  Bool, ◌&&◌, List, [], ◌∷◌, ◌++◌, Option, none, some, Result, ok, err, ◌>>=◌, ◌>>◌, refuse_if,
  ok_or, map_err, any,
}
use binport.Binfile.{Binfile, ToolSpec, CopySpec}
use binport.Catalog.Archive
use binport.Catalog.Platform
use binport.Catalog.Platform.{Platform}
use binport.Catalog.{Catalog, Artifact, artifact}
use binport.Shell.ToolName
use binport.Shell.ToolName.{safe_name}
use binport.Text.{Text, equal}

pub record ResolvedTool : Type 0 where
  pub name : Text
  pub version : Text
  pub platform : Text
  pub source : Text
  pub source_sha256 : Text
  pub archive : Text

pub record ResolvedCopy : Type 0 where
  pub name : Text
  pub platform : Text
  pub source : Text
  pub sha256 : Text

pub data Error : Type 0 where
  no_artifact : ToolSpec → Platform → Error
  unsafe_name : ToolName.Error → Error
  duplicate : Text → Platform → Error
  no_source : CopySpec → Error

-- The elements of the set `identities`.
abbrev pub Identity : Type 0
Identity = Text × Text

abbrev pub same_identity : Identity → Identity → Bool
same_identity (n, p) (m, q) = equal n m && equal p q

-- `if !identities.insert((name, platform.name()))`
unfoldable pub claim : Text → Platform → List Identity → Result Error (List Identity)
claim name platform identities = do
  refuse_if (any (same_identity (name, Platform.name platform)) identities)
      (duplicate name platform)
  ok (identities ++ (name, Platform.name platform) ∷ [])

abbrev pub locked : Artifact → ResolvedTool
locked a = record {
  name = a.tool;
  version = a.version;
  platform = Platform.name a.platform;
  source = a.url;
  source_sha256 = a.sha256;
  archive = Archive.name a.archive;
}

pub record Tools : Type 0 where
  pub identities : List Identity
  pub tools : List ResolvedTool

unfoldable pub add_tool : Catalog → Platform → ToolSpec → Tools → Result Error Tools
unfolding claim
add_tool catalog platform spec st = do
  a ← ok_or (artifact catalog spec.name spec.version platform) (no_artifact spec platform)
  name ← map_err unsafe_name (safe_name a.tool)
  identities ← claim a.tool platform st.identities
  ok (record { identities = identities; tools = st.tools ++ locked a ∷ [] })

-- `for tool in &spec.tools`
unfoldable pub add_tools : Catalog → Platform → List ToolSpec → Tools → Result Error Tools
unfolding add_tool
add_tools catalog platform [] st = ok st
add_tools catalog platform (spec ∷ specs) st = do
  next ← add_tool catalog platform spec st
  add_tools catalog platform specs next

-- `for platform in spec.platforms`
unfoldable pub add_platforms : Catalog → List ToolSpec → List Platform → Tools → Result Error Tools
unfolding add_tools
add_platforms catalog specs [] st = ok st
add_platforms catalog specs (platform ∷ platforms) st = do
  next ← add_tools catalog platform specs st
  add_platforms catalog specs platforms next

pub record Copies : Type 0 where
  pub identities : List Identity
  pub copies : List ResolvedCopy

abbrev pub copied : CopySpec → Text × Text → ResolvedCopy
copied copy (source, sha256) = record {
  name = copy.name;
  platform = Platform.name copy.platform;
  source = source;
  sha256 = sha256;
}

unfoldable pub add_copy : (Text → Option (Text × Text)) → CopySpec → Copies → Result Error Copies
unfolding claim
add_copy locate copy st = do
  name ← map_err unsafe_name (safe_name copy.name)
  identities ← claim copy.name copy.platform st.identities
  source ← ok_or (locate copy.source) (no_source copy)
  ok (record { identities = identities; copies = st.copies ++ copied copy source ∷ [] })

-- `for copy in spec.copies`
unfoldable pub add_copies :
    (Text → Option (Text × Text)) → List CopySpec → Copies → Result Error Copies
unfolding add_copy
add_copies locate [] st = ok st
add_copies locate (copy ∷ rest) st = do next ← add_copy locate copy st; add_copies locate rest next

abbrev pub start : Tools
start = record { identities = []; tools = [] }

unfoldable pub resolve :
    Catalog
    → (Text → Option (Text × Text))
    → Binfile
    → Result Error (List ResolvedTool × List ResolvedCopy)
unfolding add_platforms add_copies
resolve catalog locate spec = do
  st ← add_platforms catalog spec.tools spec.platforms start
  done ← add_copies locate spec.copies (record { identities = st.identities; copies = [] })
  ok (st.tools, done.copies)
