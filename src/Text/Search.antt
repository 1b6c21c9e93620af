-- ===== src/Text/Search.antt =====
-- The methods of `str` that search from the end or trim given characters.
use binport.Base.{
  ℕ, zero, suc, Bool, false, [], ◌∷◌, ◌++◌, ◌≡◌, refl, arith, Option, none, some, ◌==◌,
  if◌then◌else◌, any,
}
use binport.Text.{Text}

abbrev grow : ℕ → Text × Text → Text × Text
grow c (a, b) = (c ∷ a, b)

-- `s.rsplit_once(c)`: the text in front of the last `c`, and the text behind it.
unfoldable pub rsplit_once : ℕ → Text → Option (Text × Text)
rsplit_once c [] = none
rsplit_once c (d ∷ s) = elim (rsplit_once c s) [
  | some parts ↦ some (grow d parts)
  | none ↦ if d == c then some ([], s) else none
]

abbrev pub has : ℕ → Text → Bool
has c = any (λ d. d == c)

-- The first `n` characters.
unfoldable pub take : ℕ → Text → Text
take zero s = []
take (suc n) [] = []
take (suc n) (c ∷ s) = c ∷ take n s

-- `s.trim_matches(c)`
unfoldable pub trim_start_matches : ℕ → Text → Text
trim_start_matches c [] = []
trim_start_matches c (d ∷ s) = if d == c then trim_start_matches c s else d ∷ s

abbrev pub keep_before : ℕ → ℕ → Text → Text
keep_before c d [] = if d == c then [] else d ∷ []
keep_before c d (e ∷ s) = d ∷ e ∷ s

unfoldable pub trim_end_matches : ℕ → Text → Text
trim_end_matches c [] = []
trim_end_matches c (d ∷ s) = keep_before c d (trim_end_matches c s)

unfoldable pub trim_matches : ℕ → Text → Text
unfolding trim_start_matches trim_end_matches
trim_matches c s = trim_end_matches c (trim_start_matches c s)

pub rsplit_once-none : (c : ℕ) (s : Text) → has c s ≡ false → rsplit_once c s ≡ none
unfolding rsplit_once
rsplit_once-none c [] h = refl
rsplit_once-none c (d ∷ s) h = ground (arith, rsplit_once-none c s)

pub rsplit_once-last :
    (c : ℕ) (a b : Text) → has c b ≡ false → rsplit_once c (a ++ c ∷ b) ≡ some (a, b)
unfolding rsplit_once
rsplit_once-last c [] b h = ground (arith, rsplit_once-none c b h)
rsplit_once-last c (d ∷ a) b h = rw (rsplit_once-last c a b h) refl
