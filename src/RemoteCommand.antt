-- ===== src/RemoteCommand.antt =====
-- The commands for files and directories on a host: src/remote_command.rs. A path is a Rust `str`, so
-- it is UTF-8. Each command is a constant script and the quoted arguments behind it.
pub mod Words
pub mod Programs
pub mod Leads
pub mod Scripts
pub mod Ranges
use binport.Base.{ℕ, ◌+◌, ◌%◌, ◌^◌, Bool, ◌∷◌, ◌++◌, Result, ok, ◌>>=◌, ◌==◌, if◌then◌else◌}
use binport.Shell.{Error, shell_quote, utf8}
use binport.Text.Decimal.{show}
use binport.Text.{Text, codes}

abbrev pub file_size_script : Text
file_size_script = codes "sh -c 'test -f \"$1\" || exit 66; wc -c <\"$1\"' sh "

unfoldable pub file_size : Text → Result Error Text
file_size path = do p ← shell_quote (utf8 path); ok (file_size_script ++ p)

abbrev pub download_file_script : Text
download_file_script = codes "sh -c 'test -f \"$1\" || exit 66; exec cat -- \"$1\"' sh "

unfoldable pub download_file : Text → Result Error Text
download_file path = do p ← shell_quote (utf8 path); ok (download_file_script ++ p)

abbrev pub upload_file_script : Text
upload_file_script =
    codes
      "sh -c 'umask 077; dest=$1; case \"$dest\" in */) dest=${dest%/}/$2;; *) if [ -d \"$dest\" ]; then dest=$dest/$2; fi;; esac; dir=$(dirname -- \"$dest\") || exit; mkdir -p -- \"$dir\" || exit; tmp=$dest.binport-part.$$; trap '\"'\"'rm -f -- \"$tmp\"'\"'\"' EXIT HUP INT TERM; cat >\"$tmp\" && mv -f -- \"$tmp\" \"$dest\"; status=$?; trap - EXIT; exit $status' sh "

unfoldable pub upload_file : Text → Text → Result Error Text
upload_file path source_name = do
  p ← shell_quote (utf8 path)
  q ← shell_quote (utf8 source_name)
  ok (upload_file_script ++ (p ++ (b' ' ∷ q)))

abbrev pub download_directory_script : Text
download_directory_script =
    codes "sh -c 'test -d \"$1\" || exit 66; cd -- \"$1\" && exec tar -cf - .' sh "

unfoldable pub download_directory : Text → Result Error Text
download_directory path = do p ← shell_quote (utf8 path); ok (download_directory_script ++ p)

abbrev pub upload_directory_script : Text
upload_directory_script =
    codes "sh -c 'umask 077; mkdir -p -- \"$1\" && exec tar -xf - -C \"$1\"' sh "

unfoldable pub upload_directory : Text → Result Error Text
upload_directory path = do p ← shell_quote (utf8 path); ok (upload_directory_script ++ p)

abbrev pub remove_script : Text
remove_script =
    codes
      "sh -c 'path=$1; if [ -d \"$path\" ] && [ ! -L \"$path\" ]; then [ \"$2\" = recursive ] || { printf \"refusing to remove directory without --recursive: %s\\n\" \"$path\" >&2; exit 64; }; if [ \"$3\" = force ]; then exec rm -rf -- \"$path\"; else exec rm -r -- \"$path\"; fi; else if [ \"$3\" = force ]; then exec rm -f -- \"$path\"; else exec rm -- \"$path\"; fi; fi' sh "

unfoldable pub remove : Text → Bool → Bool → Result Error Text
remove path recursive force = do
  p ← shell_quote (utf8 path)
  m ← shell_quote (utf8 (if recursive then codes "recursive" else codes "file"))
  f ← shell_quote (utf8 (if force then codes "force" else codes "normal"))
  ok (remove_script ++ (p ++ (b' ' ∷ (m ++ (b' ' ∷ f)))))

abbrev pub list_directory_script : Text
list_directory_script =
    codes
      "sh -c 'test -d \"$1\" || exit 66; find \"$1\" -type f -printf '\"'\"'%s %P\\n'\"'\"'' sh "

unfoldable pub list_directory : Text → Result Error Text
list_directory path = do p ← shell_quote (utf8 path); ok (list_directory_script ++ p)

abbrev pub list_directory_dirs_script : Text
list_directory_dirs_script =
    codes
      "sh -c 'test -d \"$1\" || exit 66; find \"$1\" -mindepth 1 -type d -printf '\"'\"'%P\\n'\"'\"'' sh "

unfoldable pub list_directory_dirs : Text → Result Error Text
list_directory_dirs path = do p ← shell_quote (utf8 path); ok (list_directory_dirs_script ++ p)

abbrev pub create_directories_script : Text
create_directories_script =
    codes "sh -c 'base=$1; while IFS= read -r dir; do mkdir -p -- \"$base/$dir\" || exit; done' sh "

unfoldable pub create_directories : Text → Result Error Text
create_directories base = do p ← shell_quote (utf8 base); ok (create_directories_script ++ p)

abbrev pub download_file_offset_script0 : Text
download_file_offset_script0 = codes "sh -c 'test -f \"$1\" || exit 66; exec tail -c +"

abbrev pub download_file_offset_script1 : Text
download_file_offset_script1 = codes " -- \"$1\"' sh "

-- `offset + 1` wraps around in a release build.
unfoldable pub download_file_offset : Text → ℕ → Result Error Text
unfolding download_file
download_file_offset path offset = if offset == 0 then download_file path else do
  p ← shell_quote (utf8 path)
  ok (
      download_file_offset_script0
      ++ (show ((offset + 1) % 2 ^ 64) ++ (download_file_offset_script1 ++ p)))

abbrev pub upload_file_append_script : Text
upload_file_append_script =
    codes
      "sh -c 'umask 077; dest=$1; case \"$dest\" in */) dest=${dest%/}/$2;; *) if [ -d \"$dest\" ]; then dest=$dest/$2; fi;; esac; dir=$(dirname -- \"$dest\") || exit; mkdir -p -- \"$dir\" || exit; sync_dir=$3; mkdir -p -- \"$sync_dir\" || exit; partial=$sync_dir/$(basename -- \"$dest\").part; cat >>\"$partial\" && mv -f -- \"$partial\" \"$dest\"; status=$?; exit $status' sh "

unfoldable pub upload_file_append : Text → Text → Text → Result Error Text
upload_file_append path source_name sync_dir = do
  p ← shell_quote (utf8 path)
  q ← shell_quote (utf8 source_name)
  r ← shell_quote (utf8 sync_dir)
  ok (upload_file_append_script ++ (p ++ (b' ' ∷ (q ++ (b' ' ∷ r)))))

abbrev pub check_partials_script : Text
check_partials_script =
    codes
      "sh -c 'test -d \"$1\" || exit 0; find \"$1\" -maxdepth 1 -name \"*.part\" -type f -printf '\"'\"'%s %f\\n'\"'\"'' sh "

unfoldable pub check_partials : Text → Result Error Text
check_partials sync_dir = do p ← shell_quote (utf8 sync_dir); ok (check_partials_script ++ p)

abbrev pub download_chunk_script0 : Text
download_chunk_script0 = codes "sh -c 'test -f \"$1\" || exit 66; exec tail -c +"

abbrev pub download_chunk_script1 : Text
download_chunk_script1 = codes " -- \"$1\" | head -c "

abbrev pub download_chunk_script2 : Text
download_chunk_script2 = codes "' sh "

unfoldable pub download_chunk : Text → ℕ → ℕ → Result Error Text
download_chunk path offset size = do
  p ← shell_quote (utf8 path)
  ok (
      download_chunk_script0
      ++ (show ((offset + 1) % 2 ^ 64)
          ++ (download_chunk_script1 ++ (show size ++ (download_chunk_script2 ++ p)))))

abbrev pub merge_chunks_script : Text
merge_chunks_script =
    codes
      "sh -c 'chunk_dir=$1; dest=$2; dir=$(dirname -- \"$dest\") || exit; mkdir -p -- \"$dir\" || exit; tmp=$dest.binport-merge.$$; trap '\"'\"'rm -f -- \"$tmp\"'\"'\"' EXIT HUP INT TERM; i=0; while [ -f \"$chunk_dir/chunk.$i\" ]; do cat -- \"$chunk_dir/chunk.$i\" >> \"$tmp\" || exit; i=$((i + 1)); done; [ $i -gt 0 ] || { printf \"no chunks found in %s\\n\" \"$chunk_dir\" >&2; exit 1; }; mv -f -- \"$tmp\" \"$dest\" && rm -rf -- \"$chunk_dir\"; status=$?; trap - EXIT; exit $status' sh "

unfoldable pub merge_chunks : Text → Text → Result Error Text
merge_chunks chunk_dir dest = do
  p ← shell_quote (utf8 chunk_dir)
  q ← shell_quote (utf8 dest)
  ok (merge_chunks_script ++ (p ++ (b' ' ∷ q)))

abbrev pub list_chunks_script : Text
list_chunks_script =
    codes
      "sh -c 'test -d \"$1\" || exit 0; find \"$1\" -maxdepth 1 -name \"chunk.*\" -type f -printf '\"'\"'%s %f\\n'\"'\"'' sh "

unfoldable pub list_chunks : Text → Result Error Text
list_chunks chunk_dir = do p ← shell_quote (utf8 chunk_dir); ok (list_chunks_script ++ p)
