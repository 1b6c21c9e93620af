-- ===== src/Host/Include.antt =====
-- The `Include` line of the main file.
use binport.Base.{ℕ, map, IsIn, ◌⊎◌, true, [], ◌∷◌, ◌++◌, ◌≡◌, Option}
use binport.Host.Store.{ensure_include, or_empty}
use binport.Text.{Text, codes, lines, before, trim, is_whitespace, to_ascii_lowercase}

-- The line, in front of a comment and trimmed, is the keyword, one blank and the path, letter case aside.
pub record IsInclude (raw : Text) : Type 0 where
  pub key : Text
  pub blank : ℕ
  pub value : Text
  pub is_blank : is_whitespace blank ≡ true
  pub same : trim (before b'#' raw) ≡ key ++ blank ∷ value
  pub keyword : map to_ascii_lowercase key ≡ codes "include"
  pub path : map to_ascii_lowercase (trim value) ≡ codes "~/.ssh/binport_config"

-- The file names the managed one already, and stays as it is.
pub record IsKept (main : Option Text) : Type 0 where
  pub raw : Text
  pub there : IsIn raw (lines (or_empty main))
  pub include : IsInclude raw
  pub unchanged : ensure_include main ≡ main

-- The line goes in front of the user's text, whole, with an empty line between them.
abbrev pub Extended : Text → Text → Type 0
Extended source new =
    (source ≡ []) × (new ≡ codes "Include ~/.ssh/binport_config\n")
    ⊎ (new ≡ codes "Include ~/.ssh/binport_config\n\n" ++ source)
