-- ===== src/Shell/Injection.antt =====
-- The remote shell runs the program's own scripts, and every path and argument reaches them as one
-- word with its text unchanged.
use binport.Base.{
  ℕ, true, List, [], ◌∷◌, ◌++◌, map, ◌≡◌, refl, append-nil, Option, some, none, err, all,
  all-append,
}
use binport.Shell.Commands.{
  Reads, Names, Leads, run_path, run_paths, push_arguments-Reads, execute_script-Leads,
}
use binport.Shell.Posix.{run, words, step_in}
use binport.Shell.Quoting.{run-remote_home, run-remote_path, is_safe}
use binport.Shell.{
  OsString, utf8, not_utf8, shell_quote, remote_paths, push_arguments, execute_script,
  execute_command, probe_script, probe_execute_command, upload_script, upload_command, cache_root,
  or_empty, argument_not_utf8, quote_remote_path, quoted,
}
use binport.Text.{Text, codes, strip_prefix}

-- Where the cached tool lies, below the remote home directory.
abbrev pub cached_directory : (Text → Text) → Text → Text
cached_directory env hash = env (codes "HOME") ++ (b'/' ∷ (cache_root ++ (b'/' ∷ hash)))

abbrev pub cached_tool : (Text → Text) → Text → Text → Text
cached_tool env hash tool =
    env (codes "HOME") ++ (b'/' ∷ ((cache_root ++ (b'/' ∷ hash)) ++ (b'/' ∷ tool)))

abbrev pub upload_program : Text
upload_program =
    codes
      "umask 077; mkdir -p \"$1\"; tmp=\"$2.tmp.$$\"; trap 'rm -f \"$tmp\"' EXIT HUP INT TERM; cat >\"$tmp\" && chmod 755 \"$tmp\" && mv \"$tmp\" \"$2\"; status=$?; trap - EXIT; exit $status"

upload_script-Leads :
    (env : Text → Text)
    → Leads env upload_script (codes "sh" ∷ codes "-c" ∷ upload_program ∷ codes "sh" ∷ [])
unfolding Leads run step_in
upload_script-Leads env rest = refl

abbrev pub probe_program : Text
probe_program =
    codes
      "os=$(uname -s) || exit 126; arch=$(uname -m) || exit 126; case \"$os/$arch\" in Linux/x86_64|Linux/amd64) platform=linux/amd64; tool=$1;; Linux/aarch64|Linux/arm64) platform=linux/arm64; tool=$2;; *) printf \"__BINPORT__ unsupported %s/%s\\n\" \"$os\" \"$arch\" >&2; exit 126;; esac; shift 2; if [ -z \"$tool\" ]; then printf \"__BINPORT__ missing %s\\n\" \"$platform\" >&2; exit 126; fi; if [ ! -x \"$tool\" ]; then printf \"__BINPORT__ miss %s\\n\" \"$platform\" >&2; exit 125; fi; printf \"__BINPORT__ hit %s\\n\" \"$platform\" >&2; exec \"$tool\" \"$@\""

probe_script-Leads :
    (env : Text → Text)
    → Leads env probe_script (codes "sh" ∷ codes "-c" ∷ probe_program ∷ codes "sh" ∷ [])
unfolding Leads run step_in
probe_script-Leads env rest = refl

remote_directory-Names :
    (env : Text → Text) (hash tool : Text)
    → all is_safe hash ≡ true
    → Names env (remote_paths hash tool).0 (cached_directory env hash)
unfolding Names remote_paths is_safe
remote_directory-Names env hash tool h r rest m n =
    run-remote_home env (cache_root ++ (b'/' ∷ hash)) r rest m n
      (all-append is_safe (cache_root ++ codes "/") hash refl h)

remote_file-Names :
    (env : Text → Text) (hash tool : Text)
    → all is_safe hash ≡ true
    → all is_safe tool ≡ true
    → Names env (remote_paths hash tool).1 (cached_tool env hash tool)
unfolding Names remote_paths is_safe
remote_file-Names env hash tool h k r rest m n =
    run-remote_home env ((cache_root ++ (b'/' ∷ hash)) ++ (b'/' ∷ tool)) r rest m n (
      all-append is_safe (cache_root ++ (b'/' ∷ hash)) (b'/' ∷ tool)
        (all-append is_safe (cache_root ++ codes "/") hash refl h) k)

-- For every hash and tool name of safe characters and every list of arguments, whatever characters
-- those hold, the command that runs a cached tool is built, and the shell reads in it the script of
-- the program, the tool's path and then exactly these arguments.
pub execute_command-Reads :
    (env : Text → Text) (hash tool : Text) (vs : List Text)
    → all is_safe hash ≡ true
    → all is_safe tool ≡ true
    → Reads env (execute_command (remote_paths hash tool).1 (map utf8 vs)) (
        codes "sh"
        ∷ codes "-c"
        ∷ codes "tool=$1; shift; exec \"$tool\" \"$@\""
        ∷ codes "sh"
        ∷ cached_tool env hash tool
        ∷ vs)
unfolding execute_command
execute_command-Reads env hash tool vs h k =
    push_arguments-Reads env vs _ _ (execute_script ++ quote_remote_path (remote_paths hash tool).1)
      (λ rest.
        run_path env execute_script _ _ (cached_tool env hash tool) rest (execute_script-Leads env)
          (remote_file-Names env hash tool h k))

-- The file of a tool that was uploaded under a hash, if there is one for the platform.
abbrev pub remote_file : Option Text → Text → Option Text
remote_file none tool = none
remote_file (some hash) tool = some (remote_paths hash tool).1

abbrev pub file_word : (Text → Text) → Option Text → Text → Text
file_word env none tool = []
file_word env (some hash) tool = cached_tool env hash tool

abbrev pub IsSafeHash : Option Text → Type 0
IsSafeHash none = Unit
IsSafeHash (some hash) = all is_safe hash ≡ true

file_word-Names :
    (env : Text → Text) (hash : Option Text) (tool : Text)
    → IsSafeHash hash
    → all is_safe tool ≡ true
    → Names env (or_empty (remote_file hash tool)) (file_word env hash tool)
file_word-Names env none tool h k =
    unfold Names in λ r rest m n. run-remote_path env [] r rest m (unfold strip_prefix in refl)
file_word-Names env (some hash) tool h k = remote_file-Names env hash tool h k

-- The command that probes the platform, for a tool that is cached under a hash for either platform,
-- both or none: the shell reads the program's script, the path for each platform, which is the empty
-- word where the tool has no file, and then exactly the arguments, whatever characters they hold.
pub probe_execute_command-Reads :
    (env : Text → Text) (amd64 arm64 : Option Text) (tool : Text) (vs : List Text)
    → IsSafeHash amd64
    → IsSafeHash arm64
    → all is_safe tool ≡ true
    → Reads env
        (probe_execute_command (remote_file amd64 tool) (remote_file arm64 tool) (map utf8 vs))
        (codes "sh"
          ∷ codes "-c"
          ∷ probe_program
          ∷ codes "sh"
          ∷ file_word env amd64 tool
          ∷ file_word env arm64 tool
          ∷ vs)
unfolding probe_execute_command
probe_execute_command-Reads env amd64 arm64 tool vs h h' k =
    push_arguments-Reads env vs _ (file_word env arm64 tool) _ (λ rest.
      run_paths env probe_script _ (or_empty (remote_file amd64 tool))
        (or_empty (remote_file arm64 tool)) (file_word env amd64 tool) (file_word env arm64 tool)
        rest (probe_script-Leads env) (file_word-Names env amd64 tool h k)
        (file_word-Names env arm64 tool h' k))

-- A tool that is uploaded for the hash lands in the path from which `execute_command` runs it: the
-- shell reads the upload script, the directory of the hash and the path of the tool in it.
pub upload_command-words :
    (env : Text → Text) (hash tool : Text)
    → all is_safe hash ≡ true
    → all is_safe tool ≡ true
    → words env (upload_command (remote_paths hash tool).0 (remote_paths hash tool).1)
      ≡ some (
          codes "sh"
          ∷ codes "-c"
          ∷ upload_program
          ∷ codes "sh"
          ∷ cached_directory env hash
          ∷ cached_tool env hash tool
          ∷ [])
unfolding upload_command words run
upload_command-words env hash tool h k = rw append-nil at (
    run_paths env upload_script _ (remote_paths hash tool).0 (remote_paths hash tool).1 _ _ []
      (upload_script-Leads env) (remote_directory-Names env hash tool h)
      (remote_file-Names env hash tool h k))

push_arguments-not_utf8 :
    (vs : List Text) (command : Text) (bytes : List ℕ) (behind : List OsString)
    → push_arguments command (map utf8 vs ++ not_utf8 bytes ∷ behind) ≡ err argument_not_utf8
unfolding push_arguments shell_quote
push_arguments-not_utf8 [] command bytes behind = refl
push_arguments-not_utf8 (v ∷ vs) command bytes behind =
    push_arguments-not_utf8 vs (command ++ (b' ' ∷ quoted v)) bytes behind

-- One argument that is not UTF-8, wherever it stands among the others, refuses the whole command.
pub execute_command-not_utf8 :
    (remote_file : Text) (before : List Text) (bytes : List ℕ) (behind : List OsString)
    → execute_command remote_file (map utf8 before ++ not_utf8 bytes ∷ behind)
      ≡ err argument_not_utf8
unfolding execute_command
execute_command-not_utf8 remote_file before bytes behind =
    push_arguments-not_utf8 before (execute_script ++ quote_remote_path remote_file) bytes behind
