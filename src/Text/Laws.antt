-- ===== src/Text/Laws.antt =====
-- How the text methods read a line that was written as blanks, a key, one space and a value.
use mathlib.Core.List.{cons-ne-nil}
use binport.Base.{
  Bool-cases, Option-cases, some, inl, inr, ℕ, Bool, true, not, ◌&&◌, [], ◌∷◌, ◌++◌, ◌≡◌, ◌≢◌, refl,
  ◌∙◌, ap, arith, all, &&-true, some, ◌==◌,
}
use binport.Text.{
  Text, lines, before, trim, trim_start, trim_end, put_before, split_once, is_whitespace,
  is_ascii_digit, is_ascii_alphanumeric,
}

-- A character that neither ends a line nor starts a comment.
abbrev pub is_inline : ℕ → Bool
is_inline c = not (c == 10) && not (c == 13) && not (c == b'#')

pub lines_cons : (s rest : Text) → all is_inline s ≡ true → lines (s ++ 10 ∷ rest) ≡ s ∷ lines rest
unfolding lines
lines_cons [] rest h = refl
lines_cons (c ∷ s) rest h = ground (arith, lines_cons s rest)

pub before_self : (s : Text) → all is_inline s ≡ true → before b'#' s ≡ s
unfolding before
before_self [] h = refl
before_self (c ∷ s) h = ground (arith, before_self s)

-- No blank at either end.
pub record IsTrimmed (v : Text) : Type 0 where
  pub at_start : trim_start v ≡ v
  pub at_end : trim_end v ≡ v

pub trim-IsTrimmed : {v : Text} → IsTrimmed v → trim v ≡ v
unfolding trim
trim-IsTrimmed t = ap trim_end t.at_start ∙ t.at_end

put_before-ne_nil : (c : ℕ) (s : Text) → s ≢ [] → put_before c s ≡ c ∷ s
unfolding put_before
put_before-ne_nil c [] h = absurd (h refl)
put_before-ne_nil c (d ∷ s) h = refl

append-ne-nil : (s v : Text) → v ≢ [] → s ++ v ≢ []
append-ne-nil [] v h = h
append-ne-nil (c ∷ s) v h = cons-ne-nil c (s ++ v)

pub trim_end-append : (s v : Text) → v ≢ [] → trim_end v ≡ v → trim_end (s ++ v) ≡ s ++ v
unfolding trim_end
trim_end-append [] v h e = e
trim_end-append (c ∷ s) v h e =
    rw (trim_end-append s v h e) (put_before-ne_nil c (s ++ v) (append-ne-nil s v h))

-- Spaces in front of a key go, and nothing else.
pub trim_start-spaces :
    (indent s : Text) → all (λ c. c == b' ') indent ≡ true → trim_start (indent ++ s) ≡ trim_start s
unfolding trim_start is_whitespace
trim_start-spaces [] s h = refl
trim_start-spaces (c ∷ indent) s h = ground (arith, trim_start-spaces indent s)

-- A key is of letters and digits.
pub trim_start-key :
    (key s : Text)
    → key ≢ []
    → all is_ascii_alphanumeric key ≡ true
    → trim_start (key ++ s) ≡ key ++ s
unfolding trim_start is_whitespace is_ascii_alphanumeric
trim_start-key [] s h k = absurd (h refl)
trim_start-key (c ∷ key) s h k = ground arith

pub split_once-key :
    (key v : Text)
    → all is_ascii_alphanumeric key ≡ true
    → split_once is_whitespace (key ++ b' ' ∷ v) ≡ some (key, v)
unfolding split_once is_whitespace is_ascii_alphanumeric
split_once-key [] v h = refl
split_once-key (c ∷ key) v h =
    let (hc, hk) = &&-true (is_ascii_alphanumeric c) (all is_ascii_alphanumeric key) h in
    rw (split_once-key key v hk) (ground arith)

-- A text of digits holds no blank.
digits-trim_start : (s : Text) → all is_ascii_digit s ≡ true → trim_start s ≡ s
unfolding trim_start is_whitespace is_ascii_digit
digits-trim_start [] h = refl
digits-trim_start (c ∷ s) h = ground arith

digits-trim_end : (s : Text) → all is_ascii_digit s ≡ true → trim_end s ≡ s
unfolding trim_end put_before is_whitespace is_ascii_digit
digits-trim_end [] h = refl
digits-trim_end (c ∷ []) h = ground arith
digits-trim_end (c ∷ d ∷ s) h = ground (arith, digits-trim_end (d ∷ s))

pub digits-IsTrimmed : (s : Text) → all is_ascii_digit s ≡ true → IsTrimmed s
digits-IsTrimmed s h = record { at_start = digits-trim_start s h; at_end = digits-trim_end s h }

pub digits-is_inline : (s : Text) → all is_ascii_digit s ≡ true → all is_inline s ≡ true
unfolding is_ascii_digit
digits-is_inline [] h = refl
digits-is_inline (c ∷ s) h = ground (arith, digits-is_inline s)

pub alphanumeric-is_inline :
    (s : Text) → all is_ascii_alphanumeric s ≡ true → all is_inline s ≡ true
unfolding is_ascii_alphanumeric
alphanumeric-is_inline [] h = refl
alphanumeric-is_inline (c ∷ s) h = ground (arith, alphanumeric-is_inline s)

-- What `split_once` cuts.
pub split_once-joined :
    (line : Text) {a b : Text}
    → split_once is_whitespace line ≡ some (a, b)
    → (c : ℕ) × (is_whitespace c ≡ true) × (line ≡ a ++ c ∷ b)
unfolding split_once
split_once-joined [] h = cc
split_once-joined (d ∷ line) h = elim (Bool-cases (is_whitespace d)) [
  | inl blank ↦ (let cut = rw blank at h in (d, blank, cc))
  | inr other ↦ elim (Option-cases (split_once is_whitespace line)) [
    | inl whole ↦ (let wrong = rw (other, whole) at h in cc)
    | inr ((a', b'), later) ↦
        let cut = rw (other, later) at h in
        let (c, blank, same) = split_once-joined line later in (c, blank, cc)
  ]
]
