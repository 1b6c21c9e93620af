-- ===== src/Shell/ToolName.antt =====
-- `safe_tool_name` of src/lib.rs, with the last component of a path as `std::path` defines it.
use binport.Base.{
  ℕ, Bool, not, ◌||◌, List, [], ◌∷◌, Option, none, some, Result, ok, ◌>>=◌, ◌>>◌, ◌==◌, refuse_if,
  ok_or, if◌then◌else◌, all, is_empty,
}
use binport.Shell.{OsString, utf8, not_utf8}
use binport.Text.{Text, codes, equal, split, is_ascii_alphanumeric}

pub data Error : Type 0 where
  not_valid_utf8 : Error
  unsupported_characters : Text → Error

-- The components of a path but `.` and the empty ones; the last one wins.
abbrev pub last_component : Option Text → List Text → Option Text
last_component last [] = last
last_component last (part ∷ parts) =
    if is_empty part || equal part (codes ".")
    then last_component last parts
    else last_component (some part) parts

-- `Path::file_name` of a path that is UTF-8.
unfoldable pub file_name : Text → Option Text
unfolding split
file_name path = elim (last_component none (split b'/' path)) [
  | none ↦ none
  | some part ↦ if equal part (codes "..") then none else some part
]

abbrev pub is_name_char : ℕ → Bool
is_name_char c = is_ascii_alphanumeric c || c == b'-' || c == b'_' || c == b'.'

-- `.and_then(OsStr::to_str)`
abbrev to_str : Option OsString → Option Text
to_str (some (utf8 s)) = some s
to_str (some (not_utf8 bytes)) = none
to_str none = none

-- The argument is the path's `file_name()`.
unfoldable pub safe_tool_name : Option OsString → Result Error Text
safe_tool_name file = do
  name ← ok_or (to_str file) not_valid_utf8
  refuse_if (is_empty name || not (all is_name_char name)) (unsupported_characters name)
  ok name

-- `safe_tool_name(Path::new(path))` at a `str`.
abbrev pub os_name : Option Text → Option OsString
os_name none = none
os_name (some s) = some (utf8 s)

abbrev pub safe_name : Text → Result Error Text
safe_name path = safe_tool_name (os_name (file_name path))
