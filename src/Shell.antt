-- ===== src/Shell.antt =====
-- The commands that the program sends to a remote shell: src/lib.rs.
pub mod Posix
pub mod Quoting
pub mod Commands
pub mod Injection
pub mod ToolName
use binport.Base.{
  ℕ, ◌+◌, Bool, true, false, ◌&&◌, ◌||◌, List, [], ◌∷◌, ◌++◌, Option, none, some, Result, ok, err,
  ◌>>=◌, ◌==◌, if◌then◌else◌,
}
use binport.Text.{Text, codes, strip_prefix}

-- An `OsStr`: text, or bytes that are not valid UTF-8.
pub data OsString : Type 0 where
  utf8 : Text → OsString
  not_utf8 : List ℕ → OsString

pub data Error : Type 0 where
  argument_not_utf8 : Error

-- `value.replace('\'', "'\\''")`, one character at a time.
unfoldable pub hide : ℕ → Text
hide c = if c == b'\'' then codes "'\\''" else c ∷ []

unfoldable pub replace_quotes : Text → Text
unfolding hide
replace_quotes [] = []
replace_quotes (c ∷ s) = hide c ++ replace_quotes s

-- `format!("'{}'", value.replace('\'', "'\\''"))`
unfoldable pub quoted : Text → Text
unfolding replace_quotes
quoted s = b'\'' ∷ (replace_quotes s ++ codes "'")

unfoldable pub shell_quote : OsString → Result Error Text
shell_quote (utf8 s) = ok (quoted s)
shell_quote (not_utf8 bytes) = err argument_not_utf8

-- Home expands remotely; the suffix is not quoted.
abbrev quote_suffix : Text → Option Text → Text
quote_suffix path (some suffix) = codes "\"$HOME/" ++ (suffix ++ codes "\"")
quote_suffix path none = quoted path

unfoldable pub quote_remote_path : Text → Text
unfolding strip_prefix quoted
quote_remote_path path = quote_suffix path (strip_prefix (codes "$HOME/") path)

abbrev pub cache_root : Text
cache_root = codes ".cache/binport"

unfoldable pub remote_paths : Text → Text → Text × Text
remote_paths hash tool_name =
    let directory = codes "$HOME/" ++ (cache_root ++ (b'/' ∷ hash)) in
    (directory, directory ++ (b'/' ∷ tool_name))

unfoldable pub cache_check_command : Text → Text
cache_check_command remote_file = codes "test -x " ++ quote_remote_path remote_file

abbrev pub upload_script : Text
upload_script =
    codes
      "sh -c 'umask 077; mkdir -p \"$1\"; tmp=\"$2.tmp.$$\"; trap '\"'\"'rm -f \"$tmp\"'\"'\"' EXIT HUP INT TERM; cat >\"$tmp\" && chmod 755 \"$tmp\" && mv \"$tmp\" \"$2\"; status=$?; trap - EXIT; exit $status' sh "

unfoldable pub upload_command : Text → Text → Text
upload_command remote_directory remote_file =
    upload_script ++ (quote_remote_path remote_directory ++ (b' ' ∷ quote_remote_path remote_file))

-- `for argument in arguments { command.push(' '); command.push_str(&shell_quote(argument)?) }`
unfoldable pub push_arguments : Text → List OsString → Result Error Text
push_arguments command [] = ok command
push_arguments command (a ∷ arguments) = do
  q ← shell_quote a
  push_arguments (command ++ (b' ' ∷ q)) arguments

abbrev pub execute_script : Text
execute_script = codes "sh -c 'tool=$1; shift; exec \"$tool\" \"$@\"' sh "

unfoldable pub execute_command : Text → List OsString → Result Error Text
execute_command remote_file arguments =
    push_arguments (execute_script ++ quote_remote_path remote_file) arguments

abbrev pub probe_script : Text
probe_script =
    codes
      "sh -c 'os=$(uname -s) || exit 126; arch=$(uname -m) || exit 126; case \"$os/$arch\" in Linux/x86_64|Linux/amd64) platform=linux/amd64; tool=$1;; Linux/aarch64|Linux/arm64) platform=linux/arm64; tool=$2;; *) printf \"__BINPORT__ unsupported %s/%s\\n\" \"$os\" \"$arch\" >&2; exit 126;; esac; shift 2; if [ -z \"$tool\" ]; then printf \"__BINPORT__ missing %s\\n\" \"$platform\" >&2; exit 126; fi; if [ ! -x \"$tool\" ]; then printf \"__BINPORT__ miss %s\\n\" \"$platform\" >&2; exit 125; fi; printf \"__BINPORT__ hit %s\\n\" \"$platform\" >&2; exec \"$tool\" \"$@\"' sh "

-- `file.unwrap_or("")`
abbrev pub or_empty : Option Text → Text
or_empty none = []
or_empty (some file) = file

unfoldable pub probe_execute_command : Option Text → Option Text → List OsString → Result Error Text
probe_execute_command amd64_file arm64_file arguments =
    push_arguments
      (probe_script
        ++ (quote_remote_path (or_empty amd64_file)
            ++ (b' ' ∷ quote_remote_path (or_empty arm64_file))))
      arguments
