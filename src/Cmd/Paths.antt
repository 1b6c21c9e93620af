-- ===== src/Cmd/Paths.antt =====
-- Paths of `cp` and `rm`: `validate_remove_path`, `source_name` and `recursive_destination` of
-- src/cmd/transfer.rs.
pub mod Remove
use binport.Base.{
  ℕ, Bool, true, false, not, ◌&&◌, ◌||◌, List, [], ◌∷◌, ◌++◌, Option, none, some, Result, ok, err,
  ◌>>=◌, ok_or, refuse_if, ◌==◌, any, is_empty, if◌then◌else◌,
}
use binport.Cmd.Routes
use binport.Cmd.Routes.{RemoteFile, parse_remote_file}
use binport.Shell.ToolName.{file_name}
use binport.Text.{Text, codes, equal, split}
use binport.Text.Search.{trim_end_matches}

pub data Error : Type 0 where
  dangerous : Text → Error
  no_file_name : Error
  bad_path : Routes.Error → Error

-- `matches!(trimmed, "" | "." | ".." | "~" | "$HOME")`
abbrev pub is_named_danger : Text → Bool
is_named_danger path =
    equal path []
    || equal path (codes ".")
    || equal path (codes "..")
    || equal path (codes "~")
    || equal path (codes "$HOME")

abbrev pub is_parent : Text → Bool
is_parent part = equal part (codes "..")

unfoldable pub validate_remove_path : Text → Result Error (Unit {0})
validate_remove_path path =
    refuse_if
      (is_named_danger (trim_end_matches b'/' path)
        || any is_parent (split b'/' (trim_end_matches b'/' path)))
      (dangerous path)

abbrev pub path_of : Text → Option RemoteFile → Text
path_of value none = value
path_of value (some remote) = remote.path

unfoldable pub source_name : Text → Result Error Text
source_name value = elim (parse_remote_file value) [
  | err e ↦ err (bad_path e)
  | ok remote ↦ ok_or (file_name (path_of value remote)) no_file_name
]

-- `value.ends_with(c)`
abbrev pub ends_with : ℕ → Text → Bool
ends_with c [] = false
ends_with c (d ∷ []) = d == c
ends_with c (d ∷ (e ∷ s)) = ends_with c (e ∷ s)

-- `source.trim_end_matches(['/', '\\'])`
abbrev keep_unless : ℕ → Text → Text
keep_unless d [] = if d == b'/' || d == b'\\' then [] else d ∷ []
keep_unless d (e ∷ s) = d ∷ (e ∷ s)

unfoldable pub without_separators : Text → Text
without_separators [] = []
without_separators (d ∷ s) = keep_unless d (without_separators s)

unfoldable pub recursive_destination : Text → Text → Result Error Text
recursive_destination source destination =
    if not (ends_with b'/' destination) && not (ends_with b'\\' destination)
    then ok destination
    else source_name (without_separators source) >>= λ name. ok (destination ++ name)
