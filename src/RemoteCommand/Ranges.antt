-- ===== src/RemoteCommand/Ranges.antt =====
-- The commands that read a part of a file, with numbers inside their scripts.
use binport.Base.{
  ℕ, ◌+◌, ◌%◌, ◌^◌, Bool, true, not, List, [], ◌∷◌, ◌++◌, ◌≡◌, refl, ◌∙◌, inl, inr, append-nil,
  append_assoc, all, &&-true, ◌==◌, if◌then◌else◌, arith, all-append, Bool-cases,
}
use binport.RemoteCommand.Scripts.{download_file-Reads}
use binport.RemoteCommand.Programs.{download_file_program}
use binport.RemoteCommand.Words.{sh, words_of}
use binport.RemoteCommand.{
  download_file_offset, download_file_offset_script0, download_file_offset_script1, download_chunk,
  download_chunk_script0, download_chunk_script1, download_chunk_script2,
}
use binport.Shell.Commands.{Reads, ready}
use binport.Shell.Posix.{Mode, Reader, run, start, step_in}
use binport.Shell.Quoting.{run-quoted}
use binport.Shell.{quoted, shell_quote}
use binport.Text.Decimal.{show, show-all}
use binport.Text.{Text, codes, is_ascii_digit}

-- Inside single quotes, behind the text `w`.
abbrev in_single : List Text → Text → Reader
in_single ws w = record { mode = Mode.single; current = w; name = []; read = ws }

-- A character that is no single quote.
abbrev is_literal : ℕ → Bool
is_literal c = not (c == b'\'')

run-literal_char :
    (env : Text → Text) (ws : List Text) (c : ℕ) (w rest : Text)
    → is_literal c ≡ true
    → run env (in_single ws w) (c ∷ rest) ≡ run env (in_single ws (w ++ c ∷ [])) rest
unfolding run step_in
run-literal_char env ws c w rest h = ground arith

run-literal :
    (env : Text → Text) (ws : List Text) (v w rest : Text)
    → all is_literal v ≡ true
    → run env (in_single ws w) (v ++ rest) ≡ run env (in_single ws (w ++ v)) rest
run-literal env ws [] w rest h = rw append-nil
run-literal env ws (c ∷ v) w rest h =
    let (hc, hv) = &&-true (is_literal c) (all is_literal v) h in
    run-literal_char env ws c w (v ++ rest) hc
    ∙ run-literal env ws v (w ++ c ∷ []) rest hv
    ∙ rw append_assoc

all-is_literal : (v : Text) → all is_ascii_digit v ≡ true → all is_literal v ≡ true
unfolding is_ascii_digit
all-is_literal [] h = refl
all-is_literal (c ∷ v) h = ground (arith, all-is_literal v)

abbrev sh_c : List Text
sh_c = codes "sh" ∷ codes "-c" ∷ []

run_open :
    (env : Text → Text) (rest : Text)
    → run env start (codes "sh -c '" ++ rest) ≡ run env (in_single sh_c []) rest
unfolding run step_in
run_open env rest = refl

run_close :
    (env : Text → Text) (w rest : Text)
    → run env (in_single sh_c w) (codes "' sh " ++ rest) ≡ run env (ready (sh w [])) rest
unfolding run step_in
run_close env w rest = refl

-- The script of a command in single quotes.
run_script :
    (env : Text → Text) (program rest : Text)
    → all is_literal program ≡ true
    → run env start (codes "sh -c '" ++ (program ++ (codes "' sh " ++ rest)))
      ≡ run env (ready (sh program [])) rest
run_script env program rest h =
    run_open env _ ∙ run-literal env sh_c program [] _ h ∙ run_close env program rest

-- The scripts, with their numbers in decimal.
abbrev pub offset_program : ℕ → Text
offset_program n =
    codes "test -f \"$1\" || exit 66; exec tail -c +" ++ (show n ++ codes " -- \"$1\"")

abbrev pub chunk_program : ℕ → ℕ → Text
chunk_program n size =
    codes "test -f \"$1\" || exit 66; exec tail -c +"
    ++ (show n ++ (codes " -- \"$1\" | head -c " ++ show size))

show-is_literal : (n : ℕ) → all is_literal (show n) ≡ true
show-is_literal n = all-is_literal (show n) (show-all n)

run_offset :
    (env : Text → Text) (n : ℕ) (rest : Text)
    → run env start
        (download_file_offset_script0 ++ (show n ++ (download_file_offset_script1 ++ rest)))
      ≡ run env (ready (sh (offset_program n) [])) rest
run_offset env n rest = simp append_assoc at (
    run_script env (offset_program n) rest
      (all-append is_literal (show n) (codes " -- \"$1\"") (show-is_literal n) refl))

run_chunk :
    (env : Text → Text) (n size : ℕ) (rest : Text)
    → run env start (
        download_chunk_script0
        ++ (show n ++ (download_chunk_script1 ++ (show size ++ (download_chunk_script2 ++ rest)))))
      ≡ run env (ready (sh (chunk_program n size) [])) rest
run_chunk env n size rest = simp append_assoc at (
    run_script env (chunk_program n size) rest (
      all-append is_literal (show n) (codes " -- \"$1\" | head -c " ++ show size)
        (show-is_literal n) (show-is_literal size)))

-- The words of the command that reads a file from `offset` on.
abbrev pub offset_words : Text → ℕ → List Text
offset_words path offset =
    if offset == 0
    then sh download_file_program (path ∷ [])
    else sh (offset_program ((offset + 1) % 2 ^ 64)) (path ∷ [])

-- The resumed download: from offset 0 it is the whole-file command, and from any other offset the
-- script starts at byte `offset + 1` (modulo 2^64, in decimal). The path is one word of the shell
-- with its text unchanged in both, and never part of the script.
pub download_file_offset-Reads :
    (env : Text → Text) (path : Text) (offset : ℕ)
    → Reads env (download_file_offset path offset) (offset_words path offset)
unfolding download_file_offset shell_quote
download_file_offset-Reads env path offset = elim (Bool-cases (offset == 0)) [
  | inl whole ↦ rw whole (download_file-Reads env path)
  | inr part ↦ rw part (record {
    command = _;
    is_built = refl;
    is_read = words_of env _ (sh (offset_program ((offset + 1) % 2 ^ 64)) []) path (
        rw (← append-nil (quoted path)) (
          run_offset env ((offset + 1) % 2 ^ 64) (quoted path ++ [])
          ∙ run-quoted env path _ [] (inl refl)));
  })
]

-- One chunk of a parallel download: the script reads `size` bytes from byte `offset + 1` (modulo
-- 2^64), both in decimal, and the path is one word of the shell with its text unchanged.
pub download_chunk-Reads :
    (env : Text → Text) (path : Text) (offset size : ℕ)
    → Reads env
        (download_chunk path offset size)
        (sh (chunk_program ((offset + 1) % 2 ^ 64) size) (path ∷ []))
unfolding download_chunk shell_quote
download_chunk-Reads env path offset size = record {
  command = _;
  is_built = refl;
  is_read = words_of env _ (sh (chunk_program ((offset + 1) % 2 ^ 64) size) []) path (
      rw (← append-nil (quoted path)) (
        run_chunk env ((offset + 1) % 2 ^ 64) size (quoted path ++ [])
        ∙ run-quoted env path _ [] (inl refl)));
}
