-- ===== src/RemoteCommand/Programs.antt =====
-- The scripts that `sh -c` is given, as the shell reads them.
use binport.Text.{Text, codes}

abbrev pub file_size_program : Text
file_size_program = codes "test -f \"$1\" || exit 66; wc -c <\"$1\""

abbrev pub download_file_program : Text
download_file_program = codes "test -f \"$1\" || exit 66; exec cat -- \"$1\""

abbrev pub upload_file_program : Text
upload_file_program =
    codes
      "umask 077; dest=$1; case \"$dest\" in */) dest=${dest%/}/$2;; *) if [ -d \"$dest\" ]; then dest=$dest/$2; fi;; esac; dir=$(dirname -- \"$dest\") || exit; mkdir -p -- \"$dir\" || exit; tmp=$dest.binport-part.$$; trap 'rm -f -- \"$tmp\"' EXIT HUP INT TERM; cat >\"$tmp\" && mv -f -- \"$tmp\" \"$dest\"; status=$?; trap - EXIT; exit $status"

abbrev pub download_directory_program : Text
download_directory_program = codes "test -d \"$1\" || exit 66; cd -- \"$1\" && exec tar -cf - ."

abbrev pub upload_directory_program : Text
upload_directory_program = codes "umask 077; mkdir -p -- \"$1\" && exec tar -xf - -C \"$1\""

abbrev pub remove_program : Text
remove_program =
    codes
      "path=$1; if [ -d \"$path\" ] && [ ! -L \"$path\" ]; then [ \"$2\" = recursive ] || { printf \"refusing to remove directory without --recursive: %s\\n\" \"$path\" >&2; exit 64; }; if [ \"$3\" = force ]; then exec rm -rf -- \"$path\"; else exec rm -r -- \"$path\"; fi; else if [ \"$3\" = force ]; then exec rm -f -- \"$path\"; else exec rm -- \"$path\"; fi; fi"

abbrev pub list_directory_program : Text
list_directory_program = codes "test -d \"$1\" || exit 66; find \"$1\" -type f -printf '%s %P\\n'"

abbrev pub list_directory_dirs_program : Text
list_directory_dirs_program =
    codes "test -d \"$1\" || exit 66; find \"$1\" -mindepth 1 -type d -printf '%P\\n'"

abbrev pub create_directories_program : Text
create_directories_program =
    codes "base=$1; while IFS= read -r dir; do mkdir -p -- \"$base/$dir\" || exit; done"

abbrev pub upload_file_append_program : Text
upload_file_append_program =
    codes
      "umask 077; dest=$1; case \"$dest\" in */) dest=${dest%/}/$2;; *) if [ -d \"$dest\" ]; then dest=$dest/$2; fi;; esac; dir=$(dirname -- \"$dest\") || exit; mkdir -p -- \"$dir\" || exit; sync_dir=$3; mkdir -p -- \"$sync_dir\" || exit; partial=$sync_dir/$(basename -- \"$dest\").part; cat >>\"$partial\" && mv -f -- \"$partial\" \"$dest\"; status=$?; exit $status"

abbrev pub check_partials_program : Text
check_partials_program =
    codes
      "test -d \"$1\" || exit 0; find \"$1\" -maxdepth 1 -name \"*.part\" -type f -printf '%s %f\\n'"

abbrev pub merge_chunks_program : Text
merge_chunks_program =
    codes
      "chunk_dir=$1; dest=$2; dir=$(dirname -- \"$dest\") || exit; mkdir -p -- \"$dir\" || exit; tmp=$dest.binport-merge.$$; trap 'rm -f -- \"$tmp\"' EXIT HUP INT TERM; i=0; while [ -f \"$chunk_dir/chunk.$i\" ]; do cat -- \"$chunk_dir/chunk.$i\" >> \"$tmp\" || exit; i=$((i + 1)); done; [ $i -gt 0 ] || { printf \"no chunks found in %s\\n\" \"$chunk_dir\" >&2; exit 1; }; mv -f -- \"$tmp\" \"$dest\" && rm -rf -- \"$chunk_dir\"; status=$?; trap - EXIT; exit $status"

abbrev pub list_chunks_program : Text
list_chunks_program =
    codes
      "test -d \"$1\" || exit 0; find \"$1\" -maxdepth 1 -name \"chunk.*\" -type f -printf '%s %f\\n'"
