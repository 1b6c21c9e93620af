-- ===== src/RemoteCommand/Leads.antt =====
-- Each constant script leads the shell up to its arguments.
use binport.Base.{[], refl}
use binport.RemoteCommand.Programs.{
  file_size_program, download_file_program, upload_file_program, download_directory_program,
  upload_directory_program, remove_program, list_directory_program, list_directory_dirs_program,
  create_directories_program, upload_file_append_program, check_partials_program,
  merge_chunks_program, list_chunks_program,
}
use binport.RemoteCommand.Words.{sh}
use binport.RemoteCommand.{
  file_size_script, download_file_script, upload_file_script, download_directory_script,
  upload_directory_script, remove_script, list_directory_script, list_directory_dirs_script,
  create_directories_script, upload_file_append_script, check_partials_script, merge_chunks_script,
  list_chunks_script,
}
use binport.Shell.Commands.{Leads}
use binport.Shell.Posix.{run, step_in}
use binport.Text.{Text}

pub file_size_script-Leads :
    (env : Text → Text) → Leads env file_size_script (sh file_size_program [])
unfolding Leads run step_in
file_size_script-Leads env rest = refl

pub download_file_script-Leads :
    (env : Text → Text) → Leads env download_file_script (sh download_file_program [])
unfolding Leads run step_in
download_file_script-Leads env rest = refl

pub upload_file_script-Leads :
    (env : Text → Text) → Leads env upload_file_script (sh upload_file_program [])
unfolding Leads run step_in
upload_file_script-Leads env rest = refl

pub download_directory_script-Leads :
    (env : Text → Text) → Leads env download_directory_script (sh download_directory_program [])
unfolding Leads run step_in
download_directory_script-Leads env rest = refl

pub upload_directory_script-Leads :
    (env : Text → Text) → Leads env upload_directory_script (sh upload_directory_program [])
unfolding Leads run step_in
upload_directory_script-Leads env rest = refl

pub remove_script-Leads : (env : Text → Text) → Leads env remove_script (sh remove_program [])
unfolding Leads run step_in
remove_script-Leads env rest = refl

pub list_directory_script-Leads :
    (env : Text → Text) → Leads env list_directory_script (sh list_directory_program [])
unfolding Leads run step_in
list_directory_script-Leads env rest = refl

pub list_directory_dirs_script-Leads :
    (env : Text → Text) → Leads env list_directory_dirs_script (sh list_directory_dirs_program [])
unfolding Leads run step_in
list_directory_dirs_script-Leads env rest = refl

pub create_directories_script-Leads :
    (env : Text → Text) → Leads env create_directories_script (sh create_directories_program [])
unfolding Leads run step_in
create_directories_script-Leads env rest = refl

pub upload_file_append_script-Leads :
    (env : Text → Text) → Leads env upload_file_append_script (sh upload_file_append_program [])
unfolding Leads run step_in
upload_file_append_script-Leads env rest = refl

pub check_partials_script-Leads :
    (env : Text → Text) → Leads env check_partials_script (sh check_partials_program [])
unfolding Leads run step_in
check_partials_script-Leads env rest = refl

pub merge_chunks_script-Leads :
    (env : Text → Text) → Leads env merge_chunks_script (sh merge_chunks_program [])
unfolding Leads run step_in
merge_chunks_script-Leads env rest = refl

pub list_chunks_script-Leads :
    (env : Text → Text) → Leads env list_chunks_script (sh list_chunks_program [])
unfolding Leads run step_in
list_chunks_script-Leads env rest = refl
