-- ===== src/Shell/Commands.antt =====
-- What the remote shell makes of the commands of src/lib.rs.
use binport.Base.{
  List, [], ◌∷◌, ◌++◌, map, ◌≡◌, refl, ◌∙◌, ap, inl, append-nil, append_assoc, some, Result, ok,
}
use binport.Shell.Posix.{Mode, Reader, run, words, start, step_in}
use binport.Shell.Quoting.{AtWord, after, run-quoted}
use binport.Shell.{
  utf8, quoted, shell_quote, quote_remote_path, push_arguments, execute_script, Error,
}
use binport.Text.{Text, codes}

-- The command is built, and the shell reads these words in it.
pub record Reads (env : Text → Text) (built : Result Error Text) (ws : List Text) : Type 0 where
  pub command : Text
  pub is_built : built ≡ ok command
  pub is_read : words env command ≡ some ws

-- In the middle of a word, with these words read.
abbrev pub in_word : List Text → Text → Reader
in_word ws w = record { mode = Mode.word; current = w; name = []; read = ws }

pub run-argument :
    (env : Text → Text) (ws : List Text) (w v rest : Text)
    → run env (in_word ws w) ((b' ' ∷ quoted v) ++ rest) ≡ run env (in_word (ws ++ w ∷ []) v) rest
unfolding run step_in
run-argument env ws w v rest =
    run-quoted env v (record { mode = Mode.blank; current = []; name = []; read = ws ++ w ∷ [] })
      rest (inl refl)

-- From any command that the shell has read up to a word `w`, the loop adds a word per argument.
pub push_arguments-Reads :
    (env : Text → Text) (vs ws : List Text) (w command : Text)
    → ((rest : Text) → run env start (command ++ rest) ≡ run env (in_word ws w) rest)
    → Reads env (push_arguments command (map utf8 vs)) (ws ++ w ∷ vs)
unfolding push_arguments words run
push_arguments-Reads env [] ws w command h = record {
  command = command;
  is_built = refl;
  is_read = rw append-nil at (h []);
}
push_arguments-Reads env (v ∷ vs) ws w command h = more (
    push_arguments-Reads env vs (ws ++ w ∷ []) v (command ++ (b' ' ∷ quoted v))
      (λ rest. rw append_assoc (h _ ∙ run-argument env ws w v rest)))
  where
    more :
        Reads env
          (push_arguments (command ++ (b' ' ∷ quoted v)) (map utf8 vs))
          ((ws ++ w ∷ []) ++ v ∷ vs)
        → Reads env (push_arguments command (map utf8 (v ∷ vs))) (ws ++ w ∷ v ∷ vs)
    more r = record {
      command = r.command;
      is_built = unfold shell_quote in r.is_built;
      is_read = r.is_read ∙ ap some (append_assoc ws (w ∷ []) (v ∷ vs));
    }

-- The shell reads the quoted path as `value`.
unfoldable pub Names : (Text → Text) → Text → Text → Type 0
Names env path value =
    (r : Reader) (rest : Text)
    → AtWord r
    → r.name ≡ []
    → run env r (quote_remote_path path ++ rest) ≡ run env (after r value) rest

-- In front of a word, with these words read.
abbrev pub ready : List Text → Reader
ready ws = record { mode = Mode.blank; current = []; name = []; read = ws }

-- The constant text `script` leads the shell past the words `ws`.
unfoldable pub Leads : (Text → Text) → Text → List Text → Type 0
Leads env script ws = (rest : Text) → run env start (script ++ rest) ≡ run env (ready ws) rest

pub run_path :
    (env : Text → Text) (script : Text) (ws : List Text) (path value rest : Text)
    → Leads env script ws
    → Names env path value
    → run env start ((script ++ quote_remote_path path) ++ rest) ≡ run env (in_word ws value) rest
unfolding Leads Names
run_path env script ws path value rest leads names =
    rw append_assoc (leads _ ∙ names (ready ws) rest (inl refl) refl)

run_second_path :
    (env : Text → Text) (ws : List Text) (w path value rest : Text)
    → Names env path value
    → run env (in_word ws w) ((b' ' ∷ quote_remote_path path) ++ rest)
      ≡ run env (in_word (ws ++ w ∷ []) value) rest
unfolding run step_in Names
run_second_path env ws w path value rest names = names (ready (ws ++ w ∷ [])) rest (inl refl) refl

pub run_paths :
    (env : Text → Text) (script : Text) (ws : List Text) (first second v w rest : Text)
    → Leads env script ws
    → Names env first v
    → Names env second w
    → run env start
        ((script ++ (quote_remote_path first ++ (b' ' ∷ quote_remote_path second))) ++ rest)
      ≡ run env (in_word (ws ++ v ∷ []) w) rest
run_paths env script ws first second v w rest leads hv hw =
    rw
      (
        ← append_assoc script (quote_remote_path first) (b' ' ∷ quote_remote_path second),
        append_assoc (script ++ quote_remote_path first) (b' ' ∷ quote_remote_path second) rest,
      )
      (run_path env script ws first v _ leads hv ∙ run_second_path env ws v second w rest hw)

pub execute_script-Leads :
    (env : Text → Text)
    → Leads env execute_script
        (codes "sh" ∷ codes "-c" ∷ codes "tool=$1; shift; exec \"$tool\" \"$@\"" ∷ codes "sh" ∷ [])
unfolding Leads run step_in
execute_script-Leads env rest = refl
