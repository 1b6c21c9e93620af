-- ===== src/Base/Lists.antt =====
-- Lists measured by native numbers, and the predicates on lists that the components share.
use Prim.Native.Nat.{ℕ, suc, ◌+◌}
use mathlib.Core.Path.{◌≡◌, refl, ap}
use mathlib.Core.Logic.{inl, inr}
use binport.Base.Tests.{Bool-cases, if◌then◌else◌}
use mathlib.Core.Bool.{Bool, true, false, ◌&&◌, ◌||◌}
use mathlib.Core.List.{List, [], ◌∷◌, ◌++◌}
use mathlib.Core.Option.{Option, none, some}
use native.Mathlib.Omega.{arith}

module _ {ℓ} {A : Type ℓ} where
  abbrev pub length : List A → ℕ
  length [] = 0
  length (x ∷ xs) = suc (length xs)

  pub length-append : (xs ys : List A) → length (xs ++ ys) ≡ length xs + length ys
  length-append [] ys = omega arith
  length-append (x ∷ xs) ys = omega (arith, length-append xs ys)

  -- `Iterator::all` and `Iterator::any`.
  abbrev pub all : (A → Bool) → List A → Bool
  all p [] = true
  all p (x ∷ xs) = p x && all p xs

  abbrev pub any : (A → Bool) → List A → Bool
  any p [] = false
  any p (x ∷ xs) = p x || any p xs

  pub all-append :
      (p : A → Bool) (xs ys : List A) → all p xs ≡ true → all p ys ≡ true → all p (xs ++ ys) ≡ true
  all-append p [] ys hx hy = hy
  all-append p (x ∷ xs) ys hx hy = ground (arith, all-append p xs ys)

  -- `Iterator::find`.
  abbrev pub find : (A → Bool) → List A → Option A
  find p [] = none
  find p (x ∷ xs) = elim (p x) [ true ↦ some x | false ↦ find p xs ]

  abbrev pub is_empty : List A → Bool
  is_empty [] = true
  is_empty (x ∷ xs) = false

module _ {ℓ κ} {A : Type ℓ} (P : A → Type κ) where
  abbrev pub All : List A → Type κ
  All [] = Unit
  All (x ∷ xs) = P x × All xs

  pub All-append : (xs ys : List A) → All xs → All ys → All (xs ++ ys)
  All-append [] ys _ hy = hy
  All-append (x ∷ xs) ys (px, hx) hy = (px, All-append xs ys hx hy)

pub All-map {ℓ κ μ} :
    {A : Type ℓ} {P : A → Type κ} {Q : A → Type μ}
    → ((x : A) → P x → Q x)
    → (xs : List A) → All P xs
    → All Q xs
All-map f [] _ = tt
All-map f (x ∷ xs) (p, ps) = (f x p, All-map f xs ps)

-- Two predicates that hold everywhere give a third one.
pub All-zip {ℓ κ μ ν} :
    {A : Type ℓ} {P : A → Type κ} {Q : A → Type μ} {R : A → Type ν}
    → ((x : A) → P x → Q x → R x)
    → (xs : List A) → All P xs
    → All Q xs
    → All R xs
All-zip f [] _ _ = tt
All-zip f (x ∷ xs) (p, ps) (q, qs) = (f x p q, All-zip f xs ps qs)

-- What is in a list can be found there.
pub find-All {ℓ κ} :
    {A : Type ℓ} (P : A → Type κ) (q : A → Bool) (xs : List A)
    → All P xs
    → any q xs ≡ true
    → (x : A) × (find q xs ≡ some x) × P x × (q x ≡ true)
find-All P q [] _ h = cc
find-All P q (x ∷ xs) (px, ps) h = elim (Bool-cases (q x)) [
  | inl here ↦ (x, rw (here, find) refl, px, here)
  | inr not_here ↦ rw (not_here, find) (find-All P q xs ps (rw not_here at h))
]

-- The elements that pass a test.
abbrev pub filter {ℓ} : {A : Type ℓ} → (A → Bool) → List A → List A
filter p [] = []
filter p (x ∷ xs) = if p x then x ∷ filter p xs else filter p xs

-- The element stands somewhere in the list.
pub record IsIn {ℓ} {A : Type ℓ} (x : A) (xs : List A) : Type ℓ where
  pub before : List A
  pub after : List A
  pub same : xs ≡ before ++ x ∷ after

pub IsIn-first {ℓ} : {A : Type ℓ} (x : A) (xs : List A) → IsIn x (x ∷ xs)
IsIn-first x xs = record { before = []; after = xs; same = refl }

pub IsIn-later {ℓ} : {A : Type ℓ} {x : A} {xs : List A} (y : A) → IsIn x xs → IsIn x (y ∷ xs)
IsIn-later y h = record { before = y ∷ h.before; after = h.after; same = ap (λ l. y ∷ l) h.same }

-- What holds of each element of a list is shown from where it stands.
pub All-IsIn {ℓ π} :
    {A : Type ℓ} {P : A → Type π} (xs : List A) → ((x : A) → IsIn x xs → P x) → All P xs
All-IsIn [] h = tt
All-IsIn (x ∷ xs) h = (h x (IsIn-first x xs), All-IsIn xs (λ y there. h y (IsIn-later x there)))

pub any-IsIn {ℓ} :
    {A : Type ℓ} (p : A → Bool) (xs : List A) → any p xs ≡ true → (x : A) × IsIn x xs × (p x ≡ true)
any-IsIn p [] h = cc
any-IsIn p (x ∷ xs) h = elim (Bool-cases (p x)) [
  | inl fits ↦ (x, IsIn-first x xs, fits)
  | inr other ↦
      let (y, there, fits) = any-IsIn p xs (rw other at h) in (y, IsIn-later x there, fits)
]
