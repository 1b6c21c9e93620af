-- ===== src/Ssh/Groups.antt =====
-- The hosts of a group: `select_hosts_from_config` of src/ssh.rs.
pub mod Sound
use binport.Base.{
  ℕ, Bool, true, false, not, ◌&&◌, ◌||◌, List, [], ◌∷◌, ◌++◌, Option, none, some, ◌==◌, any,
  if◌then◌else◌,
}
use binport.Host.Config.{key_value, is_key}
use binport.Text.{Text, codes, equal, lines, split_whitespace, strip_prefix, starts_with}
use binport.Text.Order.{less}
use binport.Text.Search.{trim_end_matches}

-- `s.strip_suffix(c).unwrap_or(s)`
unfoldable pub without_last : ℕ → Text → Text
without_last c [] = []
without_last c (d ∷ []) = if d == c then [] else d ∷ []
without_last c (d ∷ (e ∷ s)) = d ∷ without_last c (e ∷ s)

unfoldable pub group_prefix : Text → Text
group_prefix group = trim_end_matches b'-' (without_last b'*' group)

-- `alias.contains(['*', '?', '!'])`
abbrev pub is_pattern : Text → Bool
is_pattern alias = any (λ c. c == b'*' || c == b'?' || c == b'!') alias

abbrev pub has_dash : Option Text → Bool
has_dash none = false
has_dash (some suffix) = starts_with (codes "-") suffix

unfoldable pub is_member : Text → Text → Bool
is_member group alias =
    equal group (codes "all")
    || equal alias group
    || has_dash (strip_prefix (group_prefix group) alias)

abbrev pub push_alias : Text → List Text → Text → List Text
push_alias group hosts alias =
    if is_pattern alias
    then hosts
    else if is_member group alias && not (any (λ host. equal host alias) hosts)
    then hosts ++ alias ∷ []
    else hosts

abbrev pub push_aliases : Text → List Text → List Text → List Text
push_aliases group hosts [] = hosts
push_aliases group hosts (alias ∷ aliases) =
    push_aliases group (push_alias group hosts alias) aliases

abbrev pub push_line : Text → List Text → Option (Text × Text) → List Text
push_line group hosts none = hosts
push_line group hosts (some (key, value)) =
    if is_key key "host" then push_aliases group hosts (split_whitespace value) else hosts

abbrev pub push_lines : Text → List Text → List Text → List Text
push_lines group hosts [] = hosts
push_lines group hosts (raw ∷ ls) = push_lines group (push_line group hosts (key_value raw)) ls

-- `hosts.sort()`
abbrev pub place : Text → List Text → List Text
place x [] = x ∷ []
place x (y ∷ ys) = let rest = place x ys in if less y x then y ∷ rest else x ∷ y ∷ ys

abbrev pub sort : List Text → List Text
sort [] = []
sort (x ∷ xs) = place x (sort xs)

unfoldable pub select_hosts_from_config : Text → Text → List Text
select_hosts_from_config source group = sort (push_lines group [] (lines source))
