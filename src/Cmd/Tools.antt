-- ===== src/Cmd/Tools.antt =====
-- `default_tool_arguments` of src/cmd/remote.rs.
use binport.Base.{Bool, true, false, not, ◌||◌, List, [], ◌∷◌, ◌++◌, any, if◌then◌else◌}
use binport.Shell.{OsString, utf8, not_utf8}
use binport.Text.{Text, codes, equal, starts_with}

-- `tool != OsStr::new("eza")`
abbrev pub is_eza : OsString → Bool
is_eza (utf8 s) = equal s (codes "eza")
is_eza (not_utf8 bytes) = false

abbrev pub layouts : List Text
layouts =
    codes "-l"
    ∷ codes "--long"
    ∷ codes "-1"
    ∷ codes "--oneline"
    ∷ codes "-G"
    ∷ codes "--grid"
    ∷ codes "-T"
    ∷ codes "--tree"
    ∷ []

abbrev pub is_layout : OsString → Bool
is_layout (utf8 s) = any (equal s) layouts
is_layout (not_utf8 bytes) = false

abbrev pub is_color : OsString → Bool
is_color (utf8 s) =
    equal s (codes "--color")
    || equal s (codes "--colour")
    || starts_with (codes "--color=") s
    || starts_with (codes "--colour=") s
is_color (not_utf8 bytes) = false

abbrev pub unless : Bool → Text → List OsString
unless true default = []
unless false default = utf8 default ∷ []

unfoldable pub default_tool_arguments : OsString → List OsString → List OsString
default_tool_arguments tool arguments =
    if not (is_eza tool)
    then arguments
    else unless (any is_layout arguments) (codes "--long")
      ++ (unless (any is_color arguments) (codes "--color=always") ++ arguments)
