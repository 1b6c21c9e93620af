-- ===== src/Registry/Challenge.antt =====
-- `challenge_parameter` of src/registry.rs: the parameters of a `WWW-Authenticate` header.
use binport.Base.{List, [], ◌∷◌, Option, none, some, ◌==◌, if◌then◌else◌}
use binport.Text.Search.{trim_matches}
use binport.Text.{Text, split, split_once, trim, eq_ignore_ascii_case}

-- One part: the search ends with the value, ends with nothing where there is no `=`, or goes on.
pub data Step : Type 0 where
  ends : Option Text → Step
  goes_on : Step

unfoldable pub parameter : Text → Text → Step
parameter key part = elim (split_once (λ c. c == b'=') (trim part)) [
  | none ↦ ends none
  | some (name, value) ↦
      if eq_ignore_ascii_case name key
      then ends (some (trim_matches b'"' (trim value)))
      else goes_on
]

unfoldable pub find_parameter : Text → List Text → Option Text
find_parameter key [] = none
find_parameter key (part ∷ parts) = elim (parameter key part) [
  | ends value ↦ value
  | goes_on ↦ find_parameter key parts
]

unfoldable pub challenge_parameter : Text → Text → Option Text
challenge_parameter challenge key = elim (split_once (λ c. c == b' ') challenge) [
  | none ↦ none
  | some (scheme, parameters) ↦ find_parameter key (split b',' parameters)
]
