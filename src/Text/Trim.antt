-- ===== src/Text/Trim.antt =====
-- `trim` leaves no blank at either end.
use binport.Base.{ℕ, false, [], ◌∷◌, ◌≡◌, refl, Bool-cases, inl, inr, arith}
use binport.Text.Laws.{IsTrimmed}
use binport.Text.{Text, trim, trim_start, trim_end, put_before, is_whitespace}

trim_end-put_before :
    (c : ℕ) (r : Text) → trim_end r ≡ r → trim_end (put_before c r) ≡ put_before c r
unfolding put_before trim_end
trim_end-put_before c [] h = ground arith
trim_end-put_before c (d ∷ r) h = ground arith

trim_end-trim_end : (s : Text) → trim_end (trim_end s) ≡ trim_end s
unfolding trim_end
trim_end-trim_end [] = refl
trim_end-trim_end (c ∷ s) = trim_end-put_before c (trim_end s) (trim_end-trim_end s)

trim_start-put_before :
    (c : ℕ) (r : Text) → is_whitespace c ≡ false → trim_start (put_before c r) ≡ put_before c r
unfolding put_before trim_start
trim_start-put_before c [] h = ground arith
trim_start-put_before c (d ∷ r) h = ground arith

trim_start-trim : (s : Text) → trim_start (trim_end (trim_start s)) ≡ trim_end (trim_start s)
unfolding trim_start
trim_start-trim [] = unfold trim_end in refl
trim_start-trim (c ∷ s) = elim (Bool-cases (is_whitespace c)) [
  | inl blank ↦ rw blank (trim_start-trim s)
  | inr other ↦ rw other (unfold trim_end in trim_start-put_before c (trim_end s) other)
]

pub IsTrimmed-trim : (s : Text) → IsTrimmed (trim s)
unfolding trim
IsTrimmed-trim s = record {
  at_start = trim_start-trim s;
  at_end = trim_end-trim_end (trim_start s);
}
