-- ===== src/Toolbox.antt =====
-- The toolbox of a project, the file `.binport/toolbox.json` and the tools below `.binport/toolbox`:
-- `Lockfile` and `LockedTool` of src/toolbox.rs, with the places that src/oci.rs uses too.
use binport.Base.{ℕ, List, ◌==◌, map, if◌then◌else◌}
use binport.Catalog.Platform
use binport.Catalog.Platform.{Platform}
use binport.Text.{Text}

pub record LockedTool : Type 0 where
  pub name : Text
  pub version : Text
  pub platform : Text
  pub sha256 : Text
  pub path : Text

pub record Lockfile : Type 0 where
  pub format : ℕ
  pub tools : List LockedTool

-- `platform.name().replace('/', "-")`
abbrev pub platform_dir : Platform → Text
platform_dir platform = map (λ c. if c == b'/' then b'-' else c) (Platform.name platform)
