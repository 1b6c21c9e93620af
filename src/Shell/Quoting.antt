-- ===== src/Shell/Quoting.antt =====
-- A quoted text is read back by the shell as that text, wherever a word may begin or go on.
use binport.Base.{
  ℕ, [], ◌∷◌, ◌++◌, ◌⊎◌, inl, inr, Bool, true, ◌≡◌, refl, ◌∙◌, arith, append-nil, append_assoc,
  ◌||◌, ◌==◌, all, &&-true, none,
}
use binport.Shell.Posix.{Mode, Reader, push, step_in, run}
use binport.Shell.{hide, replace_quotes, quoted, quote_remote_path, quote_suffix}
use binport.Text.{Text, codes, is_ascii_alphanumeric, strip_prefix}

-- A word may begin, or go on, here.
abbrev pub AtWord : Reader → Type 0
AtWord r = (r.mode ≡ Mode.blank) ⊎ (r.mode ≡ Mode.word)

-- The reader behind a piece of the current word.
abbrev pub after : Reader → Text → Reader
after r v = record r { mode = Mode.word; current = r.current ++ v }

run-hide :
    (env : Text → Text) (r : Reader) (c : ℕ) (rest : Text)
    → r.mode ≡ Mode.single
    → run env r (hide c ++ rest) ≡ run env (push r c Mode.single) rest
unfolding run step_in hide
run-hide env r c rest m = ground arith

run-replace_quotes :
    (env : Text → Text) (v : Text) (r : Reader) (rest : Text)
    → r.mode ≡ Mode.single
    → run env r (replace_quotes v ++ (b'\'' ∷ rest)) ≡ run env (after r v) rest
unfolding replace_quotes
run-replace_quotes env [] r rest m = rw append-nil (unfold run step_in in ground arith)
run-replace_quotes env (c ∷ v) r rest m = rw append_assoc (
    run-hide env r c _ m
    ∙ run-replace_quotes env v (push r c Mode.single) rest refl
    ∙ rw append_assoc)

run-open_single :
    (env : Text → Text) (r : Reader) (rest : Text)
    → AtWord r
    → run env r (b'\'' ∷ rest) ≡ run env (record r { mode = Mode.single }) rest
unfolding run step_in
run-open_single env r rest m = ground arith

pub run-quoted :
    (env : Text → Text) (v : Text) (r : Reader) (rest : Text)
    → AtWord r
    → run env r (quoted v ++ rest) ≡ run env (after r v) rest
unfolding quoted
run-quoted env v r rest m = rw append_assoc (
    run-open_single env r _ m
    ∙ run-replace_quotes env v (record r { mode = Mode.single }) rest refl)

-- The characters of a tool's name, a digest and the path between them.
unfoldable pub is_safe : ℕ → Bool
unfolding is_ascii_alphanumeric
is_safe c = is_ascii_alphanumeric c || c == b'-' || c == b'_' || c == b'.' || c == b'/'

run-safe_char :
    (env : Text → Text) (r : Reader) (c : ℕ) (rest : Text)
    → r.mode ≡ Mode.double
    → is_safe c ≡ true
    → run env r (c ∷ rest) ≡ run env (push r c Mode.double) rest
unfolding run step_in is_safe
run-safe_char env r c rest m h = ground arith

run-safe :
    (env : Text → Text) (v : Text) (r : Reader) (rest : Text)
    → r.mode ≡ Mode.double
    → all is_safe v ≡ true
    → run env r (v ++ rest)
      ≡ run env (record r { mode = Mode.double; current = r.current ++ v }) rest
run-safe env [] r rest m h = rw (append-nil, ← m)
run-safe env (c ∷ v) r rest m h =
    let (hc, hv) = &&-true (is_safe c) (all is_safe v) h in
    run-safe_char env r c (v ++ rest) m hc
    ∙ run-safe env v (push r c Mode.double) rest refl hv
    ∙ rw append_assoc

run-home :
    (env : Text → Text) (r : Reader) (rest : Text)
    → AtWord r
    → run env r (codes "\"$HOME/" ++ rest)
      ≡ run env
          (record r {
            mode = Mode.double;
            name = [];
            current = (r.current ++ env (codes "HOME")) ++ codes "/";
          })
          rest
unfolding run step_in
run-home env r rest (inl m) = rw (m, run) refl
run-home env r rest (inr m) = rw (m, run) refl

run-close_double :
    (env : Text → Text) (r : Reader) (rest : Text)
    → r.mode ≡ Mode.double
    → run env r (b'"' ∷ rest) ≡ run env (record r { mode = Mode.word }) rest
unfolding run step_in
run-close_double env r rest m = ground arith

-- A path below `$HOME/` that holds safe characters only.
pub run-remote_home :
    (env : Text → Text) (suffix : Text) (r : Reader) (rest : Text)
    → AtWord r
    → r.name ≡ []
    → all is_safe suffix ≡ true
    → run env r (quote_remote_path (codes "$HOME/" ++ suffix) ++ rest)
      ≡ run env (after r (env (codes "HOME") ++ (b'/' ∷ suffix))) rest
unfolding quote_remote_path
run-remote_home env suffix r rest m n h = rw (append_assoc suffix (codes "\"") rest) (
    run-home env r (suffix ++ (b'"' ∷ rest)) m
    ∙ run-safe env suffix _ (b'"' ∷ rest) refl h
    ∙ run-close_double env _ rest refl
    ∙ rw (n, append_assoc, append_assoc))

-- Any other path is a quoted word.
pub run-remote_path :
    (env : Text → Text) (path : Text) (r : Reader) (rest : Text)
    → AtWord r
    → strip_prefix (codes "$HOME/") path ≡ none
    → run env r (quote_remote_path path ++ rest) ≡ run env (after r path) rest
unfolding quote_remote_path
run-remote_path env path r rest m h = rw (h, quote_suffix) (run-quoted env path r rest m)
