-- ===== src/Text/Order.antt =====
-- The order of `String`: lexicographic. On valid UTF-8 the order of the bytes is that of the
-- characters.
use binport.Base.{Bool, true, false, ◌&&◌, ◌||◌, [], ◌∷◌, ◌≡◌, refl, ◌↔◌, arith, ltb, ◌==◌}
use binport.Text.{Text, equal}

unfoldable pub less : Text → Text → Bool
less [] [] = false
less [] (y ∷ ys) = true
less (x ∷ xs) [] = false
less (x ∷ xs) (y ∷ ys) = let rest = less xs ys in ltb x y || x == y && rest

pub equal_iff : (a b : Text) → (equal a b ≡ true) ↔ (a ≡ b)
equal_iff [] [] = ground arith
equal_iff [] (y ∷ ys) = ground arith
equal_iff (x ∷ xs) [] = ground arith
equal_iff (x ∷ xs) (y ∷ ys) = ground (arith, equal_iff xs ys)

pub equal_refl : (a : Text) → equal a a ≡ true
equal_refl a = (equal_iff a a).1 refl

pub equal_comm : (a b : Text) → equal a b ≡ equal b a
equal_comm [] [] = refl
equal_comm [] (y ∷ ys) = refl
equal_comm (x ∷ xs) [] = refl
equal_comm (x ∷ xs) (y ∷ ys) = ground (arith, equal_comm xs ys)

pub less_irrefl : (a : Text) → less a a ≡ false
unfolding less
less_irrefl [] = refl
less_irrefl (x ∷ xs) = ground (arith, less_irrefl xs)

pub less_trans : (a b c : Text) → less a b ≡ true → less b c ≡ true → less a c ≡ true
unfolding less
less_trans [] [] c h k = cc
less_trans [] (y ∷ ys) [] h k = cc
less_trans [] (y ∷ ys) (z ∷ zs) h k = refl
less_trans (x ∷ xs) [] c h k = cc
less_trans (x ∷ xs) (y ∷ ys) [] h k = cc
less_trans (x ∷ xs) (y ∷ ys) (z ∷ zs) h k = ground (arith, less_trans xs ys zs)

-- Of two different texts one is less.
pub less-total : (a b : Text) → equal a b ≡ false → less a b ≡ false → less b a ≡ true
unfolding less
less-total [] [] h k = cc
less-total [] (y ∷ ys) h k = cc
less-total (x ∷ xs) [] h k = refl
less-total (x ∷ xs) (y ∷ ys) h k = ground (arith, less-total xs ys)
