-- ===== src/Text/Decimal.antt =====
-- The decimal print of an unsigned integer (`{}` of `format!`), and `str::parse` at an unsigned type
-- with the greatest value `max`.
use mathlib.Core.List.{concat-ne-nil}
use binport.Base.{
  ℕ, zero, suc, ◌+◌, ◌-◌, ◌*◌, ◌/◌, ◌%◌, ◌≤◌, ◌<◌, true, not, ◌||◌, [], ◌∷◌, ◌++◌, Option, none,
  some, ◌≡◌, ◌≢◌, refl, ◌∙◌, arith, ltb, ◌==◌, if◌then◌else◌, append_assoc, append-nil, all,
  Bool-cases, inl, inr, all-append,
}
use binport.Text.{Text, is_ascii_digit}

-- The digits of `n`; each round divides by ten, so `n + 1` rounds are enough.
digits : ℕ → ℕ → Text
digits zero n = []
digits (suc fuel) n =
    let front = digits fuel (n / 10) in
    if ltb n 10 then (b'0' + n) ∷ [] else front ++ (b'0' + n % 10) ∷ []

unfoldable pub show : ℕ → Text
unfolding digits
show n = digits (suc n) n

-- Behind the digits that have spelled `n`: a value above `max` and any other character are refused.
scan : ℕ → ℕ → Text → Option ℕ
scan max n [] = some n
scan max n (c ∷ s) =
    let rest = scan max (n * 10 + (c - b'0')) s in
    if not (is_ascii_digit c) || ltb max (n * 10 + (c - b'0')) then none else rest

-- One leading `+` is accepted in front of digits.
unfoldable pub parse : ℕ → Text → Option ℕ
unfolding scan is_ascii_digit
parse max [] = none
parse max (c ∷ []) = scan max 0 (c ∷ [])
parse max (c ∷ d ∷ s) = scan max 0 (if c == b'+' then d ∷ s else c ∷ d ∷ s)

scan-digits :
    (max fuel n : ℕ) (rest : Text)
    → n < fuel
    → n ≤ max
    → scan max 0 (digits fuel n ++ rest) ≡ scan max n rest
unfolding scan digits is_ascii_digit
scan-digits max zero n rest h k = absurd (omega arith)
scan-digits max (suc fuel) n rest h k = elim (Bool-cases (ltb n 10)) [
  | inl small ↦ rw small (ground arith)
  | inr more ↦
      rw (more, append_assoc)
        (scan-digits max fuel (n / 10) _ (ground arith) (omega arith) ∙ ground arith)
]

digits-all : (fuel n : ℕ) → all is_ascii_digit (digits fuel n) ≡ true
unfolding digits is_ascii_digit
digits-all zero n = refl
digits-all (suc fuel) n = elim (Bool-cases (ltb n 10)) [
  | inl small ↦ rw small (ground arith)
  | inr more ↦ rw more (
      all-append is_ascii_digit (digits fuel (n / 10)) ((b'0' + n % 10) ∷ [])
        (digits-all fuel (n / 10)) (ground arith))
]

pub show-all : (n : ℕ) → all is_ascii_digit (show n) ≡ true
unfolding show
show-all n = digits-all (suc n) n

digits-ne-nil : (fuel n : ℕ) → digits (suc fuel) n ≢ []
unfolding digits
digits-ne-nil fuel n = ground (arith, concat-ne-nil (b'0' + n % 10) (digits fuel (n / 10)))

pub show-ne-nil : (n : ℕ) → show n ≢ []
unfolding show
show-ne-nil n = digits-ne-nil n n

-- A text of digits is scanned from its first character.
parse-all : (max : ℕ) (s : Text) → s ≢ [] → all is_ascii_digit s ≡ true → parse max s ≡ scan max 0 s
unfolding parse
parse-all max [] h k = absurd (h refl)
parse-all max (c ∷ []) h k = refl
parse-all max (c ∷ d ∷ s) h k = ground arith

-- Every number up to `max` is read back from its print.
pub parse-show : (max n : ℕ) → n ≤ max → parse max (show n) ≡ some n
unfolding show scan
parse-show max n h =
    parse-all max (show n) (show-ne-nil n) (show-all n)
    ∙ rw append-nil at (scan-digits max (suc n) n [] (omega arith) h)

scan-le : (s : Text) (max n r : ℕ) → n ≤ max → scan max n s ≡ some r → r ≤ max
unfolding scan
scan-le [] max n r h e = ground arith
scan-le (c ∷ s) max n r h e = ground (arith, scan-le s max (n * 10 + (c - b'0')) r)

-- What is read never exceeds the greatest value of its type.
pub parse-le : (s : Text) (max r : ℕ) → parse max s ≡ some r → r ≤ max
unfolding parse
parse-le [] max r e = cc
parse-le (c ∷ []) max r e = scan-le (c ∷ []) max 0 r (omega arith) e
parse-le (c ∷ d ∷ s) max r e =
    scan-le (if c == b'+' then d ∷ s else c ∷ d ∷ s) max 0 r (omega arith) e
