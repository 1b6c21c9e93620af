-- ===== src/Binfile.antt =====
-- The Binfile of a project: src/binfile.rs.
pub mod Sound
pub mod Errors
use binport.Base.{
  ℕ, suc, Bool, not, ◌&&◌, ◌||◌, List, [], ◌∷◌, ◌++◌, Option, none, some, Result, ok, err, ◌>>=◌,
  leb, ◌-◌, ◌>>◌, ◌==◌, refuse_if, ok_or, if◌then◌else◌, any, is_empty, map,
}
use binport.Catalog.Platform.{Platform, same, linux_amd64}
use binport.Catalog.Platform
use binport.Text.{
  Text, codes, equal, lines, before, trim, split_once, is_whitespace, split_whitespace,
}

pub record ToolSpec : Type 0 where
  pub name : Text
  pub version : Option Text

pub record CopySpec : Type 0 where
  pub source : Text
  pub name : Text
  pub platform : Platform

pub record Binfile : Type 0 where
  pub platforms : List Platform
  pub tools : List ToolSpec
  pub copies : List CopySpec

-- One constructor for each message, with the number of the line and the values it holds.
pub data Error : Type 0 where
  no_value : ℕ → Error
  unsupported_target : ℕ → Text → Error
  empty_tool_name : ℕ → Error
  malformed_copy : ℕ → Error
  unknown_directive : ℕ → Text → Error
  no_entries : Error

abbrev pub to_ascii_uppercase : ℕ → ℕ
to_ascii_uppercase c = if leb b'a' c && leb c b'z' then c - 32 else c

-- `raw.split('#').next().unwrap_or_default().trim()`
unfoldable pub content : Text → Text
unfolding before trim
content raw = trim (before b'#' raw)

abbrev pub contains : Platform → List Platform → Bool
contains platform = any (same platform)

abbrev pub add_platform : Binfile → Platform → Binfile
add_platform file platform =
    if contains platform file.platforms
    then file
    else record file { platforms = file.platforms ++ platform ∷ [] }

-- `value.split_once('@').map_or((value, None), |(name, version)| (name, Some(version.to_owned())))`
abbrev pub name_version : Text → Text × Option Text
name_version value = elim (split_once (λ c. c == b'@') value) [
  | none ↦ (value, none)
  | some (name, version) ↦ (name, some version)
]

unfoldable pub read_target : ℕ → Text → Binfile → Result Error Binfile
unfolding trim
read_target index value file = do
  platform ← ok_or (Platform.parse (trim value)) (unsupported_target (suc index) (trim value))
  ok (add_platform file platform)

abbrev pub push_tool : ℕ → Text × Option Text → Binfile → Result Error Binfile
push_tool index (name, version) file = do
  refuse_if (is_empty name) (empty_tool_name (suc index))
  ok (record file { tools = file.tools ++ record { name = name; version = version } ∷ [] })

unfoldable pub read_tool : ℕ → Text → Binfile → Result Error Binfile
unfolding trim split_once
read_tool index value file = push_tool index (name_version (trim value)) file

-- The four parts of the value.
abbrev pub push_copy : ℕ → List Text → Binfile → Result Error Binfile
push_copy index (source ∷ name ∷ flag ∷ target ∷ []) file = do
  refuse_if (not (equal flag (codes "--target"))) (malformed_copy (suc index))
  platform ← ok_or (Platform.parse target) (unsupported_target (suc index) target)
  ok (record file {
    copies = file.copies ++ record { source = source; name = name; platform = platform } ∷ [];
  })
push_copy index _ file = err (malformed_copy (suc index))

unfoldable pub read_copy : ℕ → Text → Binfile → Result Error Binfile
unfolding split_whitespace
read_copy index value file = push_copy index (split_whitespace value) file

unfoldable pub read_directive : ℕ → Text × Text → Binfile → Result Error Binfile
unfolding read_target read_tool read_copy
read_directive index (directive, value) file =
    let upper = map to_ascii_uppercase directive in
    if equal upper (codes "TARGET")
    then read_target index value file
    else if equal upper (codes "TOOL")
    then read_tool index value file
    else if equal upper (codes "COPY")
    then read_copy index value file
    else err (unknown_directive (suc index) upper)

unfoldable pub read_line : ℕ → Text → Binfile → Result Error Binfile
unfolding read_directive content split_once is_whitespace
read_line index raw file = if is_empty (content raw) then ok file else (do
  parts ← ok_or (split_once is_whitespace (content raw)) (no_value (suc index))
  read_directive index parts file)

-- `for (index, raw) in source.lines().enumerate()`
unfoldable pub read_lines : ℕ → List Text → Binfile → Result Error Binfile
unfolding read_line
read_lines index [] file = ok file
read_lines index (raw ∷ rest) file = do
  file' ← read_line index raw file
  read_lines (suc index) rest file'

abbrev pub or_default : List Platform → List Platform
or_default [] = linux_amd64 ∷ []
or_default (p ∷ platforms) = p ∷ platforms

abbrev pub empty : Binfile
empty = record { platforms = []; tools = []; copies = [] }

unfoldable pub parse : Text → Result Error Binfile
unfolding read_lines lines
parse source = do
  file ← read_lines 0 (lines source) empty
  refuse_if (is_empty file.tools && is_empty file.copies) no_entries
  ok (record file { platforms = or_default file.platforms })
