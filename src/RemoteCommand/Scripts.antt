-- ===== src/RemoteCommand/Scripts.antt =====
-- Every path reaches its script as one word with its text unchanged, so no path is read as shell source.
use binport.Base.{Bool, [], ◌∷◌, if◌then◌else◌}
use binport.RemoteCommand.Leads.{
  file_size_script-Leads, download_file_script-Leads, upload_file_script-Leads,
  download_directory_script-Leads, upload_directory_script-Leads, remove_script-Leads,
  list_directory_script-Leads, list_directory_dirs_script-Leads, create_directories_script-Leads,
  upload_file_append_script-Leads, check_partials_script-Leads, merge_chunks_script-Leads,
  list_chunks_script-Leads,
}
use binport.RemoteCommand.Programs.{
  file_size_program, download_file_program, upload_file_program, download_directory_program,
  upload_directory_program, remove_program, list_directory_program, list_directory_dirs_program,
  create_directories_program, upload_file_append_program, check_partials_program,
  merge_chunks_program, list_chunks_program,
}
use binport.RemoteCommand.Words.{sh, one, two, three}
use binport.RemoteCommand.{
  file_size, download_file, upload_file, download_directory, upload_directory, remove,
  list_directory, list_directory_dirs, create_directories, upload_file_append, check_partials,
  merge_chunks, list_chunks, file_size_script, download_file_script, upload_file_script,
  download_directory_script, upload_directory_script, remove_script, list_directory_script,
  list_directory_dirs_script, create_directories_script, upload_file_append_script,
  check_partials_script, merge_chunks_script, list_chunks_script,
}
use binport.Shell.Commands.{Reads}
use binport.Shell.{shell_quote}
use binport.Text.{Text, codes}

file_size-Reads :
    (env : Text → Text) (path : Text)
    → Reads env (file_size path) (sh file_size_program (path ∷ []))
unfolding file_size shell_quote
file_size-Reads env path =
    one env file_size_script file_size_program path (file_size_script-Leads env)

pub download_file-Reads :
    (env : Text → Text) (path : Text)
    → Reads env (download_file path) (sh download_file_program (path ∷ []))
unfolding download_file shell_quote
download_file-Reads env path =
    one env download_file_script download_file_program path (download_file_script-Leads env)

upload_file-Reads :
    (env : Text → Text) (path source_name : Text)
    → Reads env (upload_file path source_name) (sh upload_file_program (path ∷ source_name ∷ []))
unfolding upload_file shell_quote
upload_file-Reads env path source_name =
    two env upload_file_script upload_file_program path source_name (upload_file_script-Leads env)

download_directory-Reads :
    (env : Text → Text) (path : Text)
    → Reads env (download_directory path) (sh download_directory_program (path ∷ []))
unfolding download_directory shell_quote
download_directory-Reads env path =
    one env download_directory_script download_directory_program path
      (download_directory_script-Leads env)

upload_directory-Reads :
    (env : Text → Text) (path : Text)
    → Reads env (upload_directory path) (sh upload_directory_program (path ∷ []))
unfolding upload_directory shell_quote
upload_directory-Reads env path =
    one env upload_directory_script upload_directory_program path
      (upload_directory_script-Leads env)

abbrev pub remove_mode : Bool → Text
remove_mode recursive = if recursive then codes "recursive" else codes "file"

abbrev pub remove_force : Bool → Text
remove_force force = if force then codes "force" else codes "normal"

-- `remove` hands the path to its script as the first argument, whatever characters it holds, then
-- the mode and the force flag that the caller asked for, on each of the four settings.
pub remove-Reads :
    (env : Text → Text) (path : Text) (recursive force : Bool)
    → Reads env
        (remove path recursive force)
        (sh remove_program (path ∷ remove_mode recursive ∷ remove_force force ∷ []))
unfolding remove shell_quote
remove-Reads env path recursive force =
    three env remove_script remove_program path (remove_mode recursive) (remove_force force)
      (remove_script-Leads env)

list_directory-Reads :
    (env : Text → Text) (path : Text)
    → Reads env (list_directory path) (sh list_directory_program (path ∷ []))
unfolding list_directory shell_quote
list_directory-Reads env path =
    one env list_directory_script list_directory_program path (list_directory_script-Leads env)

list_directory_dirs-Reads :
    (env : Text → Text) (path : Text)
    → Reads env (list_directory_dirs path) (sh list_directory_dirs_program (path ∷ []))
unfolding list_directory_dirs shell_quote
list_directory_dirs-Reads env path =
    one env list_directory_dirs_script list_directory_dirs_program path
      (list_directory_dirs_script-Leads env)

create_directories-Reads :
    (env : Text → Text) (base : Text)
    → Reads env (create_directories base) (sh create_directories_program (base ∷ []))
unfolding create_directories shell_quote
create_directories-Reads env base =
    one env create_directories_script create_directories_program base
      (create_directories_script-Leads env)

upload_file_append-Reads :
    (env : Text → Text) (path source_name sync_dir : Text)
    → Reads env
        (upload_file_append path source_name sync_dir)
        (sh upload_file_append_program (path ∷ source_name ∷ sync_dir ∷ []))
unfolding upload_file_append shell_quote
upload_file_append-Reads env path source_name sync_dir =
    three env upload_file_append_script upload_file_append_program path source_name sync_dir
      (upload_file_append_script-Leads env)

check_partials-Reads :
    (env : Text → Text) (sync_dir : Text)
    → Reads env (check_partials sync_dir) (sh check_partials_program (sync_dir ∷ []))
unfolding check_partials shell_quote
check_partials-Reads env sync_dir =
    one env check_partials_script check_partials_program sync_dir (check_partials_script-Leads env)

merge_chunks-Reads :
    (env : Text → Text) (chunk_dir dest : Text)
    → Reads env (merge_chunks chunk_dir dest) (sh merge_chunks_program (chunk_dir ∷ dest ∷ []))
unfolding merge_chunks shell_quote
merge_chunks-Reads env chunk_dir dest =
    two env merge_chunks_script merge_chunks_program chunk_dir dest (merge_chunks_script-Leads env)

list_chunks-Reads :
    (env : Text → Text) (chunk_dir : Text)
    → Reads env (list_chunks chunk_dir) (sh list_chunks_program (chunk_dir ∷ []))
unfolding list_chunks shell_quote
list_chunks-Reads env chunk_dir =
    one env list_chunks_script list_chunks_program chunk_dir (list_chunks_script-Leads env)

-- The whole-file and directory transfers, the appending upload and the merge of chunks: each command
-- is built, and the shell reads in it the constant script of the operation and then the paths of the
-- caller, each as one word with its text unchanged, whatever characters the paths hold.
pub transfers-Reads :
    (env : Text → Text) (path source_name sync_dir chunk_dir dest : Text)
    → Reads env (file_size path) (sh file_size_program (path ∷ []))
      × Reads env (download_file path) (sh download_file_program (path ∷ []))
      × Reads env (upload_file path source_name) (sh upload_file_program (path ∷ source_name ∷ []))
      × Reads env (download_directory path) (sh download_directory_program (path ∷ []))
      × Reads env (upload_directory path) (sh upload_directory_program (path ∷ []))
      × Reads env
          (upload_file_append path source_name sync_dir)
          (sh upload_file_append_program (path ∷ source_name ∷ sync_dir ∷ []))
      × Reads env (merge_chunks chunk_dir dest) (sh merge_chunks_program (chunk_dir ∷ dest ∷ []))
transfers-Reads env path source_name sync_dir chunk_dir dest = (
  file_size-Reads env path,
  download_file-Reads env path,
  upload_file-Reads env path source_name,
  download_directory-Reads env path,
  upload_directory-Reads env path,
  upload_file_append-Reads env path source_name sync_dir,
  merge_chunks-Reads env chunk_dir dest,
)

-- The listings of files, directories, partial files and chunks, and the creation of directories: the
-- shell reads the constant script of the operation and then the directory, whatever characters it holds.
pub listings-Reads :
    (env : Text → Text) (path base sync_dir chunk_dir : Text)
    → Reads env (list_directory path) (sh list_directory_program (path ∷ []))
      × Reads env (list_directory_dirs path) (sh list_directory_dirs_program (path ∷ []))
      × Reads env (create_directories base) (sh create_directories_program (base ∷ []))
      × Reads env (check_partials sync_dir) (sh check_partials_program (sync_dir ∷ []))
      × Reads env (list_chunks chunk_dir) (sh list_chunks_program (chunk_dir ∷ []))
listings-Reads env path base sync_dir chunk_dir = (
  list_directory-Reads env path,
  list_directory_dirs-Reads env path,
  create_directories-Reads env base,
  check_partials-Reads env sync_dir,
  list_chunks-Reads env chunk_dir,
)
