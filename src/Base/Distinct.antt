-- ===== src/Base/Distinct.antt =====
-- Lists whose elements differ under a Boolean test, as a set keeps them.
use mathlib.Core.Path.{◌≡◌, refl, ◌∙◌}
use mathlib.Core.Bool.{Bool, false, ◌||◌}
use mathlib.Core.List.{List, [], ◌∷◌, ◌++◌}
use native.Mathlib.Omega.{arith}
use binport.Base.Lists.{any}

module _ {ℓ} {A : Type ℓ} (same : A → A → Bool) where
  abbrev pub IsDistinct : List A → Type 0
  IsDistinct [] = Unit
  IsDistinct (x ∷ xs) = (any (same x) xs ≡ false) × IsDistinct xs

  any-snoc : (x y : A) (xs : List A) → any (same x) (xs ++ y ∷ []) ≡ (same x y || any (same x) xs)
  any-snoc x y [] = refl
  any-snoc x y (z ∷ xs) = ground (arith, any-snoc x y xs)

  pub snoc-IsDistinct :
      (comm : (x y : A) → same x y ≡ same y x) (xs : List A) (y : A)
      → IsDistinct xs
      → any (same y) xs ≡ false
      → IsDistinct (xs ++ y ∷ [])
  snoc-IsDistinct comm [] y h new = (refl, tt)
  snoc-IsDistinct comm (x ∷ xs) y (fresh, h) new =
      (any-snoc x y xs ∙ ground (arith, comm x y), snoc-IsDistinct comm xs y h (ground arith))
