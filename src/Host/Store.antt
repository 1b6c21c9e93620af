-- ===== src/Host/Store.antt =====
-- The two files of `~/.ssh` and the operations on them: `list`, `find`, `add`, `remove` and
-- `ensure_include` of src/host.rs. A file that is not there is `none`; reading and writing succeed.
use binport.Base.{
  Bool, true, false, not, ◌&&◌, List, [], ◌++◌, Option, none, some, Result, ok, ◌>>=◌, ◌>>◌,
  refuse_if, any, if◌then◌else◌, is_empty,
}
use binport.Host.Config.{key_value, is_key, parse, render}
use binport.Host.Registry.{insert, collect, contains_key, erase, lookup}
use binport.Host.{HostEntry, Error, in_main_config, already_exists, validate_entry, validate_token}
use binport.Text.{Text, codes, equal, lines, trim, split_whitespace, eq_ignore_ascii_case}

pub record SshDir : Type 0 where
  pub main : Option Text
  pub managed : Option Text

-- Whether a line is a `Host` line that names the alias.
names_alias : Text → Option (Text × Text) → Bool
unfolding eq_ignore_ascii_case split_whitespace
names_alias alias none = false
names_alias alias (some (key, value)) =
    is_key key "host" && any (λ candidate. equal candidate alias) (split_whitespace value)

unfoldable pub contains_alias : Text → Text → Bool
unfolding names_alias key_value lines
contains_alias source alias = any (λ raw. names_alias alias (key_value raw)) (lines source)

abbrev pub include_line : Text
include_line = codes "Include ~/.ssh/binport_config"

unfoldable pub includes : Option (Text × Text) → Bool
unfolding eq_ignore_ascii_case trim
includes none = false
includes (some (key, value)) =
    is_key key "include" && eq_ignore_ascii_case (trim value) (codes "~/.ssh/binport_config")

unfoldable pub included : Text → Bool
unfolding includes key_value lines
included source = any (λ raw. includes (key_value raw)) (lines source)

-- The text of the main file behind `ensure_include`.
unfoldable pub with_include : Text → Text
with_include source =
    if included source
    then source
    else if is_empty source
    then include_line ++ codes "\n"
    else include_line ++ (codes "\n\n" ++ source)

abbrev pub or_empty : Option Text → Text
or_empty none = []
or_empty (some source) = source

-- Nothing is written where the line is there.
unfoldable pub ensure_include : Option Text → Option Text
ensure_include main = if included (or_empty main) then main else some (with_include (or_empty main))

unfoldable pub list : SshDir → Result Error (List HostEntry)
list dir = elim dir.managed [ none ↦ ok [] | some source ↦ parse source ]

unfoldable pub find : Text → SshDir → Result Error (Option HostEntry)
unfolding list
find name dir = do entries ← list dir; ok (lookup name entries)

unfoldable pub add : HostEntry → Bool → SshDir → Result Error SshDir
unfolding list
add entry force dir = do
  validate_entry entry
  refuse_if (contains_alias (or_empty dir.main) entry.name) (in_main_config entry.name)
  parsed ← list dir
  let entries = collect parsed
  refuse_if (contains_key entry.name entries && not force) (already_exists entry.name)
  ok (record { main = ensure_include dir.main; managed = some (render (insert entry entries)) })

abbrev pub remove_from : Text → SshDir → List HostEntry → SshDir × Bool
remove_from name dir entries =
    if contains_key name entries
    then (record dir { managed = some (render (erase name entries)) }, true)
    else (dir, false)

unfoldable pub remove : Text → SshDir → Result Error (SshDir × Bool)
remove name dir = do
  validate_token (codes "host name") name
  elim dir.managed [
    | none ↦ ok (dir, false)
    | some source ↦ parse source >>= λ parsed. ok (remove_from name dir (collect parsed))
  ]
