-- ===== src/Auth/Names.antt =====
-- The names of the managed keys of src/auth.rs.
use binport.Base.{
  ℕ, zero, suc, ◌≤◌, true, false, [], ◌∷◌, ◌++◌, ◌≡◌, refl, arith, map, all, all-append, is_empty,
  length, length-append, ◌==◌, if_intro, &&-true,
}
use binport.Auth.{readable_char, or_host, managed_key_name}
use binport.Oci.Unpack.Escape.{IsComponent}
use binport.Shell.ToolName.{is_name_char}
use binport.Text.Search.{take, trim_matches, trim_start_matches, trim_end_matches, keep_before}
use binport.Text.{Text, codes, equal, is_ascii_alphanumeric}

-- Characters of names, and at most so many of them.
record IsName (n : ℕ) (s : Text) : Type 0 where
  fine : all is_name_char s ≡ true
  short : length s ≤ n

readable-fine : (s : Text) → all is_name_char (map readable_char s) ≡ true
unfolding is_ascii_alphanumeric
readable-fine [] = refl
readable-fine (c ∷ s) = ground (arith, readable-fine s)

take-IsName : (n : ℕ) (s : Text) → all is_name_char s ≡ true → IsName n (take n s)
unfolding take
take-IsName zero s h = record { fine = refl; short = omega arith }
take-IsName (suc n) [] h = record { fine = refl; short = omega arith }
take-IsName (suc n) (c ∷ s) h =
    let (here, later) = &&-true (is_name_char c) (all is_name_char s) h in
    let rest = take-IsName n s later in
    record { fine = rw (here, rest.fine) refl; short = omega (arith, rest.short) }

trim_start-IsName : (n : ℕ) (c : ℕ) (s : Text) → IsName n s → IsName n (trim_start_matches c s)
unfolding trim_start_matches
trim_start-IsName n c [] h = h
trim_start-IsName n c (d ∷ s) h =
    let (here, later) = &&-true (is_name_char d) (all is_name_char s) h.fine in
    if_intro (IsName n) (d == c)
      (trim_start-IsName n c s (record { fine = later; short = omega (arith, h.short) })) h

keep_before-IsName :
    (n c d : ℕ) (t : Text) → is_name_char d ≡ true → IsName n t → IsName (suc n) (keep_before c d t)
keep_before-IsName n c d [] h k =
    if_intro (IsName (suc n)) (d == c) (record { fine = refl; short = omega arith })
      (record { fine = rw h refl; short = omega arith })
keep_before-IsName n c d (e ∷ t) h k = record {
  fine = rw (h, k.fine) refl;
  short = omega (arith, k.short);
}

trim_end-IsName : (n c : ℕ) (s : Text) → IsName n s → IsName n (trim_end_matches c s)
unfolding trim_end_matches
trim_end-IsName n c [] h = h
trim_end-IsName zero c (d ∷ s) h = absurd (omega (arith, h.short))
trim_end-IsName (suc n) c (d ∷ s) h =
    let (here, later) = &&-true (is_name_char d) (all is_name_char s) h.fine in
    keep_before-IsName n c d (trim_end_matches c s) here
      (trim_end-IsName n c s (record { fine = later; short = omega (arith, h.short) }))

or_host-IsName : (s : Text) → IsName 48 s → IsName 48 (or_host s) × (is_empty (or_host s) ≡ false)
unfolding is_ascii_alphanumeric
or_host-IsName [] h = (record { fine = refl; short = omega arith }, refl)
or_host-IsName (c ∷ s) h = (h, refl)

dashed-no_dots :
    (s t : Text)
    → is_empty s ≡ false
    → (is_empty (s ++ b'-' ∷ t) ≡ false)
      × (equal (s ++ b'-' ∷ t) (codes ".") ≡ false)
      × (equal (s ++ b'-' ∷ t) (codes "..") ≡ false)
dashed-no_dots [] t h = cc
dashed-no_dots (c ∷ []) t h = (refl, ground arith, ground arith)
dashed-no_dots (c ∷ (d ∷ [])) t h = (refl, ground arith, ground arith)
dashed-no_dots (c ∷ (d ∷ (e ∷ s))) t h = (refl, ground arith, ground arith)

dashed-fine : (s : Text) → all is_name_char s ≡ true → all is_name_char (codes "-" ++ s) ≡ true
unfolding is_ascii_alphanumeric
dashed-fine s h = h

-- Whatever the host's name is, the name of its key is one component of at most 61 characters of
-- letters, digits, dashes, underscores and dots, and neither . nor .., when the hash is written with such
-- characters.
pub managed_key_name-IsComponent :
    (hash : Text → Text) (host : Text)
    → all is_name_char (hash host) ≡ true
    → IsComponent (managed_key_name hash host) × (length (managed_key_name hash host) ≤ 61)
unfolding managed_key_name trim_matches
managed_key_name-IsComponent hash host hex =
    let readable = or_host (trim_matches b'.' (take 48 (map readable_char host))) in
    let (named, there) = or_host-IsName _ (
      trim_end-IsName 48 b'.' _
        (trim_start-IsName 48 b'.' _ (take-IsName 48 _ (readable-fine host)))) in
    let digest = take-IsName 12 (hash host) hex in
    let (some_char, no_dot, no_dots) = dashed-no_dots readable (take 12 (hash host)) there in
    (
      record {
        fine =
            all-append is_name_char readable (codes "-" ++ take 12 (hash host)) named.fine
              (dashed-fine (take 12 (hash host)) digest.fine);
        some_char = some_char;
        no_dot = no_dot;
        no_dots = no_dots;
      },
      omega (
        arith,
        named.short,
        digest.short,
        length-append readable (codes "-" ++ take 12 (hash host)),
      ),
    )
