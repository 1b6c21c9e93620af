-- ===== src/Text/Split.antt =====
-- Laws of `split`.
use binport.Base.{
  ℕ, true, false, not, List, [], ◌∷◌, ◌++◌, ◌≡◌, refl, is_empty, ap, arith, all, ◌==◌, All,
  Bool-cases, inl, inr,
}
use binport.Text.{Text, split, onto_head}

onto_head-append :
    (d : ℕ) (xs ys : List Text)
    → is_empty xs ≡ false
    → onto_head d (xs ++ ys) ≡ onto_head d xs ++ ys
onto_head-append d [] ys h = cc
onto_head-append d (x ∷ xs) ys h = refl

is_empty-onto_head : (d : ℕ) (xs : List Text) → is_empty (onto_head d xs) ≡ false
is_empty-onto_head d [] = refl
is_empty-onto_head d (x ∷ xs) = refl

is_empty-split : (c : ℕ) (s : Text) → is_empty (split c s) ≡ false
unfolding split
is_empty-split c [] = refl
is_empty-split c (d ∷ s) = ground (arith, is_empty-onto_head d (split c s))

pub split-append : (c : ℕ) (a b : Text) → split c (a ++ c ∷ b) ≡ split c a ++ split c b
unfolding split
split-append c [] b = ground arith
split-append c (d ∷ a) b = elim (Bool-cases (d == c)) [
  | inl here ↦ rw here (ap (λ l. [] ∷ l) (split-append c a b))
  | inr other ↦
      rw (other, split-append c a b)
        (onto_head-append d (split c a) (split c b) (is_empty-split c a))
]

pub split-whole : (c : ℕ) (s : Text) → all (λ d. not (d == c)) s ≡ true → split c s ≡ s ∷ []
unfolding split
split-whole c [] h = refl
split-whole c (d ∷ s) h = ground (arith, split-whole c s)

-- No part has the character in it.
abbrev pub IsFree : ℕ → Text → Type 0
IsFree c s = all (λ d. not (d == c)) s ≡ true

onto_head-IsFree :
    (c d : ℕ) (parts : List Text)
    → (d == c) ≡ false
    → All (IsFree c) parts
    → All (IsFree c) (onto_head d parts)
onto_head-IsFree c d [] h k = (rw h refl, tt)
onto_head-IsFree c d (p ∷ parts) h (k, ks) = (rw (h, k) refl, ks)

pub split-IsFree : (c : ℕ) (s : Text) → All (IsFree c) (split c s)
unfolding split
split-IsFree c [] = (refl, tt)
split-IsFree c (d ∷ s) = elim (Bool-cases (d == c)) [
  | inl here ↦ rw here (refl, split-IsFree c s)
  | inr other ↦ rw other (onto_head-IsFree c d (split c s) other (split-IsFree c s))
]
