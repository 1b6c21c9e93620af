-- ===== src/RemoteCommand/Words.antt =====
-- A constant script with quoted arguments behind it, as the shell reads it.
use binport.Base.{List, [], ◌∷◌, ◌++◌, ◌≡◌, refl, ◌∙◌, inl, append-nil, some, ok}
use binport.Shell.Commands.{Reads, Leads, in_word, ready, run-argument}
use binport.Shell.Posix.{run, words, start}
use binport.Shell.Quoting.{run-quoted}
use binport.Shell.{quoted}
use binport.Text.{Text, codes}

-- The words that the shell reads in a command: the script for `sh`, and the arguments behind it.
abbrev pub sh : Text → List Text → List Text
sh program arguments = codes "sh" ∷ codes "-c" ∷ program ∷ codes "sh" ∷ arguments

pub run-first :
    (env : Text → Text) (script : Text) (ws : List Text) (a rest : Text)
    → Leads env script ws
    → run env start (script ++ (quoted a ++ rest)) ≡ run env (in_word ws a) rest
unfolding Leads
run-first env script ws a rest leads = leads _ ∙ run-quoted env a (ready ws) rest (inl refl)

-- A command that the shell has read up to its last word.
pub words_of :
    (env : Text → Text) (command : Text) (ws : List Text) (a : Text)
    → run env start command ≡ run env (in_word ws a) []
    → words env command ≡ some (ws ++ a ∷ [])
unfolding words run
words_of env command ws a h = h

module _ (env : Text → Text) (script program : Text) where
  pub one :
      (a : Text)
      → Leads env script (sh program [])
      → Reads env (ok (script ++ quoted a)) (sh program (a ∷ []))
  unfolding words run
  one a leads = record {
    command = _;
    is_built = refl;
    is_read = rw (← append-nil (quoted a)) (run-first env script _ a [] leads);
  }

  pub two :
      (a b : Text)
      → Leads env script (sh program [])
      → Reads env (ok (script ++ (quoted a ++ (b' ' ∷ quoted b)))) (sh program (a ∷ b ∷ []))
  unfolding words run
  two a b leads = record {
    command = _;
    is_built = refl;
    is_read =
        run-first env script _ a (b' ' ∷ quoted b) leads
        ∙ rw append-nil at (run-argument env (sh program []) a b []);
  }

  pub three :
      (a b c : Text)
      → Leads env script (sh program [])
      → Reads env
          (ok (script ++ (quoted a ++ (b' ' ∷ (quoted b ++ (b' ' ∷ quoted c))))))
          (sh program (a ∷ b ∷ c ∷ []))
  unfolding words run
  three a b c leads = record {
    command = _;
    is_built = refl;
    is_read =
        run-first env script _ a _ leads
        ∙ run-argument env _ a b (b' ' ∷ quoted c)
        ∙ rw append-nil at (run-argument env (sh program (a ∷ [])) b c []);
  }
