-- ===== src/Cmd/Paths/Remove.antt =====
-- Where a path that `validate_remove_path` of src/cmd/transfer.rs accepts leads.
use binport.Base.{
  All, not, filter, if◌then◌else◌, ℕ, zero, suc, Bool, false, ◌||◌, List, [], ◌∷◌, ◌++◌, ◌≡◌, refl,
  sym, ◌∙◌, ap, subst, arith, ok, refuse_if-eq-ok, ◌==◌, any, is_empty, append_assoc, append-nil,
  ||-false, ==_iff, Bool-cases, inl, inr,
}
use binport.Cmd.Paths.{validate_remove_path, is_parent, is_named_danger}
use binport.Places.{Place, walk}
use binport.Text.Search.{trim_end_matches, keep_before}
use binport.Text.Split.{split-append}
use binport.Text.{Text, codes, equal, split, starts_with}

-- Whether a component names something, and does not only stay where it is.
abbrev pub is_named : Text → Bool
is_named part = not (is_empty part || equal part (codes "."))

-- Where the path starts: at the root, or in the working directory.
abbrev pub start_of : Place → Text → Place
start_of cwd path = if starts_with (codes "/") path then [] else cwd

walk-filter :
    (parts : List Text) (place : Place)
    → any is_parent parts ≡ false
    → walk place parts ≡ place ++ filter is_named parts
walk-filter [] place plain = sym (append-nil place)
walk-filter (part ∷ parts) place plain =
    let (here, later) = ||-false (is_parent part) (any is_parent parts) plain in
    elim (Bool-cases (is_empty part || equal part (codes "."))) [
      | inl skipped ↦ rw (skipped, filter) (walk-filter parts place later)
      | inr named ↦
          rw (named, here, filter)
            (walk-filter parts (place ++ part ∷ []) later
              ∙ append_assoc place (part ∷ []) (filter is_named parts))
    ]

slashes : ℕ → Text
slashes zero = []
slashes (suc n) = b'/' ∷ slashes n

keep_before-slashes :
    (d : ℕ) (t : Text) (n : ℕ)
    → (k : ℕ) × (d ∷ (t ++ slashes n) ≡ keep_before b'/' d t ++ slashes k)
unfolding slashes
keep_before-slashes d [] n = elim (Bool-cases (d == b'/')) [
  | inl slash ↦ (suc n, rw (slash, (==_iff d b'/').0 slash) refl)
  | inr other ↦ (n, rw other refl)
]
keep_before-slashes d (e ∷ t) n = (n, refl)

-- What `trim_end_matches` takes away.
trimmed : (s : Text) → (n : ℕ) × (s ≡ trim_end_matches b'/' s ++ slashes n)
unfolding trim_end_matches slashes
trimmed [] = (zero, refl)
trimmed (d ∷ s) =
    let (n, same) = trimmed s in
    let (k, more) = keep_before-slashes d (trim_end_matches b'/' s) n in
    (k, ap (λ t. d ∷ t) same ∙ more)

any-append : (p : Text → Bool) (xs ys : List Text) → any p (xs ++ ys) ≡ (any p xs || any p ys)
any-append p [] ys = refl
any-append p (x ∷ xs) ys = ground (arith, any-append p xs ys)

no_parent-slashes : (n : ℕ) → any is_parent (split b'/' (slashes n)) ≡ false
unfolding slashes split
no_parent-slashes zero = refl
no_parent-slashes (suc n) = no_parent-slashes n

parent-slashes :
    (t : Text) (n : ℕ)
    → any is_parent (split b'/' t) ≡ false
    → any is_parent (split b'/' (t ++ slashes n)) ≡ false
unfolding slashes
parent-slashes t zero h = rw (append-nil t) h
parent-slashes t (suc n) h = rw (split-append b'/' t (slashes n)) (
    any-append is_parent (split b'/' t) (split b'/' (slashes n)) ∙ rw (h, no_parent-slashes n) refl)

-- A path that `rm` accepts is not one of these in front of its slashes at the end.
abbrev pub refused_names : List Text
refused_names = [] ∷ codes "." ∷ codes ".." ∷ codes "~" ∷ codes "$HOME" ∷ []

named_danger-refused :
    (s : Text) → is_named_danger s ≡ false → All (λ name. equal s name ≡ false) refused_names
named_danger-refused s h = ground arith

-- A path that `rm` accepts, without the slashes at its end, is not empty and none of ., .., ~ and $HOME;
-- and what it names is found by going down only: from the root, when it is absolute, and else from the
-- working directory, through each of its components but the empty ones and ., in their order.
pub validate_remove_path-descends :
    (path : Text) (cwd : Place)
    → validate_remove_path path ≡ ok tt
    → All (λ name. equal (trim_end_matches b'/' path) name ≡ false) refused_names
      × (walk (start_of cwd path) (split b'/' path)
          ≡ start_of cwd path ++ filter is_named (split b'/' path))
unfolding validate_remove_path
validate_remove_path-descends path cwd h =
    let (named, plain) =
      ||-false (is_named_danger (trim_end_matches b'/' path))
        (any is_parent (split b'/' (trim_end_matches b'/' path))) (refuse_if-eq-ok _ _ h) in
    let (n, same) = trimmed path in
    (
      named_danger-refused (trim_end_matches b'/' path) named,
      walk-filter (split b'/' path) (start_of cwd path) (
          subst (λ s. any is_parent (split b'/' s) ≡ false) (sym same)
            (parent-slashes (trim_end_matches b'/' path) n plain)),
    )
