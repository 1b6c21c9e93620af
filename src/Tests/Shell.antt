-- ===== src/Tests/Shell.antt =====
-- The commands of src/lib.rs and src/remote_command.rs at the inputs of their tests.
use binport.Base.{true, false, ◌+◌, ◌%◌, ◌^◌, List, [], ◌∷◌, ◌≡◌, refl, map, none, some, ok, err}
use binport.RemoteCommand.Programs.{
  file_size_program, download_file_program, upload_file_program, download_directory_program,
  upload_directory_program, upload_file_append_program, merge_chunks_program,
  list_directory_program, list_directory_dirs_program, create_directories_program,
  check_partials_program, list_chunks_program, remove_program,
}
use binport.RemoteCommand.Ranges.{
  download_file_offset-Reads, download_chunk-Reads, offset_words, chunk_program,
}
use binport.RemoteCommand.Scripts.{
  remove-Reads, transfers-Reads, listings-Reads, remove_mode, remove_force,
}
use binport.RemoteCommand.Words.{sh}
use binport.RemoteCommand
use binport.Shell.Commands.{Reads}
use binport.Shell.Injection.{
  execute_command-Reads, probe_execute_command-Reads, upload_command-words,
  execute_command-not_utf8, cached_tool, cached_directory, remote_file, file_word, upload_program,
  probe_program,
}
use binport.Shell.Posix.{words}
use binport.Shell.Quoting.{is_safe}
use binport.Shell
use binport.Shell.{
  utf8, not_utf8, argument_not_utf8, execute_command, upload_command, remote_paths,
  probe_execute_command, quoted,
}
use binport.Text.{Text, codes}

abbrev env : Text → Text
env name = codes "/root"

abbrev arguments : List Text
arguments = codes "hello world" ∷ codes "$(touch /tmp/nope)" ∷ codes "it's" ∷ []

abbrev malicious : Text
malicious = codes "/tmp/a;$(touch /tmp/binport-injected)'"

quoted_run : quoted (codes "it's $HOME") ≡ codes "'it'\\''s $HOME'"
unfolding quoted
quoted_run = refl

execute_command_run :
    execute_command (codes "$HOME/.cache/binport/abc/rg") (utf8 (codes "hello world") ∷ [])
    ≡ ok (
        codes
          "sh -c 'tool=$1; shift; exec \"$tool\" \"$@\"' sh \"$HOME/.cache/binport/abc/rg\" 'hello world'")
unfolding execute_command Shell.push_arguments Shell.shell_quote Shell.quote_remote_path
execute_command_run = refl

execute_command-Reads_example :
    Reads env (execute_command (remote_paths (codes "abc") (codes "rg")).1 (map utf8 arguments)) (
      codes "sh"
      ∷ codes "-c"
      ∷ codes "tool=$1; shift; exec \"$tool\" \"$@\""
      ∷ codes "sh"
      ∷ cached_tool env (codes "abc") (codes "rg")
      ∷ arguments)
unfolding is_safe
execute_command-Reads_example =
    execute_command-Reads env (codes "abc") (codes "rg") arguments refl refl

probe_execute_command-Reads_example :
    Reads env
      (probe_execute_command
        (remote_file (some (codes "abc")) (codes "rg"))
        (remote_file none (codes "rg"))
        (map utf8 arguments))
      (codes "sh"
        ∷ codes "-c"
        ∷ probe_program
        ∷ codes "sh"
        ∷ file_word env (some (codes "abc")) (codes "rg")
        ∷ file_word env none (codes "rg")
        ∷ arguments)
unfolding is_safe
probe_execute_command-Reads_example =
    probe_execute_command-Reads env (some (codes "abc")) none (codes "rg") arguments refl tt refl

upload_command-words_example :
    words env (
      upload_command
        (remote_paths (codes "abc") (codes "rg")).0
        (remote_paths (codes "abc") (codes "rg")).1)
    ≡ some (
        codes "sh"
        ∷ codes "-c"
        ∷ upload_program
        ∷ codes "sh"
        ∷ cached_directory env (codes "abc")
        ∷ cached_tool env (codes "abc") (codes "rg")
        ∷ [])
unfolding is_safe
upload_command-words_example = upload_command-words env (codes "abc") (codes "rg") refl refl

execute_command-not_utf8_example :
    execute_command (codes "/opt/rg") (utf8 (codes "a") ∷ not_utf8 (255 ∷ []) ∷ utf8 [] ∷ [])
    ≡ err argument_not_utf8
execute_command-not_utf8_example =
    execute_command-not_utf8 (codes "/opt/rg") (codes "a" ∷ []) (255 ∷ []) (utf8 [] ∷ [])

transfers-Reads_example :
    Reads env (RemoteCommand.file_size malicious) (sh file_size_program (malicious ∷ []))
    × Reads env (RemoteCommand.download_file malicious) (sh download_file_program (malicious ∷ []))
    × Reads env
        (RemoteCommand.upload_file malicious (codes "a;bad"))
        (sh upload_file_program (malicious ∷ (codes "a;bad") ∷ []))
    × Reads env
        (RemoteCommand.download_directory malicious)
        (sh download_directory_program (malicious ∷ []))
    × Reads env
        (RemoteCommand.upload_directory malicious)
        (sh upload_directory_program (malicious ∷ []))
    × Reads env
        (RemoteCommand.upload_file_append malicious (codes "a;bad") malicious)
        (sh upload_file_append_program (malicious ∷ (codes "a;bad") ∷ malicious ∷ []))
    × Reads env
        (RemoteCommand.merge_chunks malicious malicious)
        (sh merge_chunks_program (malicious ∷ malicious ∷ []))
transfers-Reads_example =
    transfers-Reads env malicious (codes "a;bad") malicious malicious malicious

listings-Reads_example :
    Reads env (RemoteCommand.list_directory malicious) (sh list_directory_program (malicious ∷ []))
    × Reads env
        (RemoteCommand.list_directory_dirs malicious)
        (sh list_directory_dirs_program (malicious ∷ []))
    × Reads env
        (RemoteCommand.create_directories malicious)
        (sh create_directories_program (malicious ∷ []))
    × Reads env
        (RemoteCommand.check_partials malicious)
        (sh check_partials_program (malicious ∷ []))
    × Reads env (RemoteCommand.list_chunks malicious) (sh list_chunks_program (malicious ∷ []))
listings-Reads_example = listings-Reads env malicious malicious malicious malicious

remove-Reads_example :
    Reads env
      (RemoteCommand.remove malicious true false)
      (sh remove_program (malicious ∷ remove_mode true ∷ remove_force false ∷ []))
remove-Reads_example = remove-Reads env malicious true false

download_file_offset-Reads_example :
    Reads env (RemoteCommand.download_file_offset malicious 100) (offset_words malicious 100)
download_file_offset-Reads_example = download_file_offset-Reads env malicious 100

download_chunk-Reads_example :
    Reads env
      (RemoteCommand.download_chunk malicious 0 1000)
      (sh (chunk_program ((0 + 1) % 2 ^ 64) 1000) (malicious ∷ []))
download_chunk-Reads_example = download_chunk-Reads env malicious 0 1000
