-- ===== src/Hop/Checksum.antt =====
-- The look-up in a file of checksums: `checksum_for` of src/hop.rs.
use binport.Base.{
  true, ◌||◌, List, [], ◌∷◌, ◌≡◌, arith, Option, none, some, Result, ok, ◌>>=◌, ◌>>◌, ◌==◌,
  refuse_if, ok_or, if◌then◌else◌, all, ap, refl, ◌∙◌, ◌++◌, ℕ, IsIn, IsIn-first, IsIn-later,
  Bool-cases, not, Option-cases, inl, inr, passed, >>=-eq-ok, ok_or-eq-ok, ok-injective, subst,
}
use binport.Catalog.{is_sha256}
use binport.Text.{Text, equal, lines, split_once, is_whitespace}
use binport.Text.Laws.{split_once-joined}
use binport.Text.Order.{equal_iff}

pub data Error : Type 0 where
  no_valid_entry : Text → Error

-- `remainder.trim_start_matches([' ', '*'])`
unfoldable pub trim_marks : Text → Text
trim_marks [] = []
trim_marks (c ∷ s) = if c == b' ' || c == b'*' then trim_marks s else c ∷ s

-- The checksum of a line that is one of the file.
unfoldable pub checksum_of : Text → Text → Option Text
unfolding trim_marks
checksum_of filename line = elim (split_once is_whitespace line) [
  | none ↦ none
  | some (checksum, remainder) ↦
      if equal (trim_marks remainder) filename then some checksum else none
]

-- `find_map`
unfoldable pub first_checksum : Text → List Text → Option Text
first_checksum filename [] = none
first_checksum filename (line ∷ rest) = elim (checksum_of filename line) [
  | none ↦ first_checksum filename rest
  | some checksum ↦ some checksum
]

unfoldable pub checksum_for : Text → Text → Result Error Text
checksum_for source filename = do
  checksum ← ok_or (first_checksum filename (lines source)) (no_valid_entry filename)
  refuse_if (not (is_sha256 checksum)) (no_valid_entry filename)
  ok checksum

-- The line is the checksum, one blank, spaces and asterisks, and the file's name.
pub record Gives (filename checksum line : Text) : Type 0 where
  pub blank : ℕ
  pub marks : Text
  pub is_blank : is_whitespace blank ≡ true
  pub are_marks : all (λ c. c == b' ' || c == b'*') marks ≡ true
  pub same : line ≡ checksum ++ blank ∷ (marks ++ filename)

-- What `trim_marks` takes away.
marked :
    (s : Text)
    → (marks : Text) × (all (λ c. c == b' ' || c == b'*') marks ≡ true)
      × (s ≡ marks ++ trim_marks s)
unfolding trim_marks
marked [] = ([], refl, refl)
marked (c ∷ s) =
    let (marks, fine, same) = marked s in
    elim (Bool-cases (c == b' ' || c == b'*')) [
      | inl mark ↦ rw mark (c ∷ marks, rw (mark, fine) refl, ap (λ t. c ∷ t) same)
      | inr other ↦ rw other ([], refl, refl)
    ]

checksum_of-Gives :
    (filename line checksum : Text)
    → checksum_of filename line ≡ some checksum
    → Gives filename checksum line
unfolding checksum_of
checksum_of-Gives filename line checksum h = elim (Option-cases (split_once is_whitespace line)) [
  | inl whole ↦ (let wrong = rw (whole, checksum_of) at h in cc)
  | inr ((a, b), cut) ↦ elim (Bool-cases (equal (trim_marks b) filename)) [
    | inl named ↦
        let (c, blank, joined) = split_once-joined line cut in
        let (marks, fine, same) = marked b in
        let found = rw (cut, named, checksum_of) at h in
        let ends = (equal_iff (trim_marks b) filename).0 named in
        record { blank = c; marks = marks; is_blank = blank; are_marks = fine; same = cc }
    | inr other ↦ (let wrong = rw (cut, other, checksum_of) at h in cc)
  ]
]

first_checksum-Gives :
    (filename : Text) (ls : List Text) (checksum : Text)
    → first_checksum filename ls ≡ some checksum
    → (line : Text) × IsIn line ls × Gives filename checksum line
unfolding first_checksum
first_checksum-Gives filename [] checksum h = cc
first_checksum-Gives filename (line ∷ rest) checksum h =
    elim (Option-cases (checksum_of filename line)) [
      | inl missing ↦
          let (l, there, gives) =
            first_checksum-Gives filename rest checksum (rw (missing, first_checksum) at h) in
          (l, IsIn-later line there, gives)
      | inr (c, here) ↦ (
        line,
        IsIn-first line rest,
        checksum_of-Gives filename line checksum (here ∙ (rw (here, first_checksum) at h)),
      )
    ]

-- A checksum that is found has 64 hexadecimal digits, and a line of the source is this checksum, one
-- blank, spaces and asterisks, and the file's name, and nothing else.
pub checksum_for-Gives :
    (source filename checksum : Text)
    → checksum_for source filename ≡ ok checksum
    → (is_sha256 checksum ≡ true)
      × ((line : Text) × IsIn line (lines source) × Gives filename checksum line)
unfolding checksum_for
checksum_for-Gives source filename checksum h =
    let (c, first, h1) =
      >>=-eq-ok (ok_or (first_checksum filename (lines source)) (no_valid_entry filename)) _ h in
    let (hashed, h2) = passed (not (is_sha256 c)) (no_valid_entry filename) _ h1 in
    let there = ok_or-eq-ok (first_checksum filename (lines source)) _ first in
    let same = ok-injective h2 in
    subst
      (λ x.
        (is_sha256 x ≡ true) × ((line : Text) × IsIn line (lines source) × Gives filename x line))
      same (ground arith, first_checksum-Gives filename (lines source) c there)
