-- ===== src/Binfile/Errors.antt =====
-- Where an error of `parse` of src/binfile.rs stands.
use binport.Base.{
  ok, refl, ◌++◌, ℕ, suc, ◌+◌, not, ◌&&◌, List, [], ◌∷◌, ◌≡◌, sym, ap, arith, Option, none, some,
  err, length, is_empty, Bool-cases, inl, inr, ◌⊎◌, >>=-eq-err, err-injective, ok_or-eq-err,
  refuse_if-eq-err, ok_or, map, refuse_if,
}
use binport.Binfile.{
  to_ascii_uppercase, Binfile, Error, no_value, unsupported_target, empty_tool_name, malformed_copy,
  unknown_directive, no_entries, content, name_version, read_target, push_tool, read_tool,
  push_copy, read_copy, read_directive, read_line, read_lines, empty, parse,
}
use binport.Catalog.Platform
use binport.Text.{Text, codes, equal, trim, lines, split_once, split_whitespace, is_whitespace}

-- The number of the line in a message, when it names one.
abbrev pub line_of : Error → Option ℕ
line_of (no_value line) = some line
line_of (unsupported_target line value) = some line
line_of (empty_tool_name line) = some line
line_of (malformed_copy line) = some line
line_of (unknown_directive line directive) = some line
line_of no_entries = none

read_target-line :
    (index : ℕ) (value : Text) (file : Binfile) {e : Error}
    → read_target index value file ≡ err e
    → line_of e ≡ some (suc index)
unfolding read_target
read_target-line index value file h =
    elim (>>=-eq-err
      (ok_or (Platform.parse (trim value)) (unsupported_target (suc index) (trim value))) _ h) [
        | inl here ↦ ap line_of (ok_or-eq-err (Platform.parse (trim value)) _ here)
        | inr (platform, parsed, later) ↦ cc
      ]

push_tool-line :
    (index : ℕ) (name : Text) (version : Option Text) (file : Binfile) {e : Error}
    → push_tool index (name, version) file ≡ err e
    → line_of e ≡ some (suc index)
push_tool-line index name version file h =
    elim (>>=-eq-err (refuse_if (is_empty name) (empty_tool_name (suc index))) _ h) [
      | inl here ↦ ap line_of (refuse_if-eq-err (is_empty name) _ here)
      | inr (unit, passes, later) ↦ cc
    ]

push_copy-line :
    (index : ℕ) (parts : List Text) (file : Binfile) {e : Error}
    → push_copy index parts file ≡ err e
    → line_of e ≡ some (suc index)
push_copy-line index (source ∷ name ∷ flag ∷ target ∷ []) file h =
    elim (>>=-eq-err (refuse_if (not (equal flag (codes "--target"))) (malformed_copy (suc index)))
      _ h) [
        | inl here ↦ ap line_of (refuse_if-eq-err (not (equal flag (codes "--target"))) _ here)
        | inr (unit, flagged, h1) ↦
            elim (>>=-eq-err (ok_or (Platform.parse target) (unsupported_target (suc index) target))
              _ h1) [
                | inl here ↦ ap line_of (ok_or-eq-err (Platform.parse target) _ here)
                | inr (platform, parsed, later) ↦ cc
              ]
      ]
push_copy-line index [] file h = ap line_of (sym (err-injective h))
push_copy-line index (a ∷ []) file h = ap line_of (sym (err-injective h))
push_copy-line index (a ∷ b ∷ []) file h = ap line_of (sym (err-injective h))
push_copy-line index (a ∷ b ∷ c ∷ []) file h = ap line_of (sym (err-injective h))
push_copy-line index (a ∷ b ∷ c ∷ d ∷ e ∷ rest) file h = ap line_of (sym (err-injective h))

read_directive-line :
    (index : ℕ) (parts : Text × Text) (file : Binfile) {e : Error}
    → read_directive index parts file ≡ err e
    → line_of e ≡ some (suc index)
unfolding read_directive read_tool read_copy
read_directive-line index (directive, value) file h =
    let upper = map to_ascii_uppercase directive in
    elim (Bool-cases (equal upper (codes "TARGET"))) [
      | inl target ↦ read_target-line index value file (rw target at h)
      | inr no_target ↦ elim (Bool-cases (equal upper (codes "TOOL"))) [
        | inl tool ↦
            let (name, version) = name_version (trim value) in
            push_tool-line index name version file (rw (no_target, tool) at h)
        | inr no_tool ↦ elim (Bool-cases (equal upper (codes "COPY"))) [
          | inl copy ↦
              push_copy-line index (split_whitespace value) file
                (rw (no_target, no_tool, copy) at h)
          | inr no_copy ↦ (ap line_of (sym (err-injective (rw (no_target, no_tool, no_copy) at h))))
        ]
      ]
    ]

read_line-line :
    (index : ℕ) (raw : Text) (file : Binfile) {e : Error}
    → read_line index raw file ≡ err e
    → line_of e ≡ some (suc index)
unfolding read_line
read_line-line index raw file h = elim (Bool-cases (is_empty (content raw))) [
  | inl blank ↦ (let wrong = rw blank at h in cc)
  | inr text ↦
      elim (>>=-eq-err (ok_or (split_once is_whitespace (content raw)) (no_value (suc index))) _
        (rw text at h)) [
          | inl here ↦ ap line_of (ok_or-eq-err (split_once is_whitespace (content raw)) _ here)
          | inr (parts, cut, later) ↦ read_directive-line index parts file later
        ]
]

-- The line that cannot be read: the lines in front of it are read, and the error is the one that its
-- own directive gives, with its number, counted from `first`.
pub record IsRefused (first : ℕ) (ls : List Text) (file : Binfile) (e : Error) : Type 0 where
  pub before : List Text
  pub line : Text
  pub after : List Text
  pub so_far : Binfile
  pub same : ls ≡ before ++ line ∷ after
  pub read : read_lines first before file ≡ ok so_far
  pub refused : read_line (first + length before) line so_far ≡ err e
  pub named : line_of e ≡ some (suc (first + length before))

later-IsRefused :
    (index : ℕ) (raw : Text) (rest : List Text) (file next : Binfile) {e : Error}
    → read_line index raw file ≡ ok next
    → IsRefused (suc index) rest next e
    → IsRefused index (raw ∷ rest) file e
unfolding read_lines
later-IsRefused index raw rest file next {e} first r =
    let shifted : index + length (raw ∷ r.before) ≡ suc index + length r.before = omega arith in
    record {
      before = raw ∷ r.before;
      line = r.line;
      after = r.after;
      so_far = r.so_far;
      same = ap (λ l. raw ∷ l) r.same;
      read = rw first r.read;
      refused = rw shifted r.refused;
      named = rw shifted r.named;
    }

read_lines-IsRefused :
    (index : ℕ) (ls : List Text) (file : Binfile) {e : Error}
    → read_lines index ls file ≡ err e
    → IsRefused index ls file e
unfolding read_lines
read_lines-IsRefused index [] file h = cc
read_lines-IsRefused index (raw ∷ rest) file {e} h =
    elim (>>=-eq-err (read_line index raw file) _ h) [
      | inl here ↦
          let whole : index + 0 ≡ index = omega arith in
          record {
            before = [];
            line = raw;
            after = rest;
            so_far = file;
            same = refl;
            read = refl;
            refused = rw whole here;
            named = rw whole (read_line-line index raw file here);
          }
      | inr (next, first, later) ↦
          later-IsRefused index raw rest file next first
            (read_lines-IsRefused (suc index) rest next later)
    ]

-- When `parse` refuses a Binfile, it says that there are no entries, or its error is that of one line
-- of the text, names this line by its number, counted from 1, and all lines in front of it are read.
pub parse-IsRefused :
    (source : Text) (e : Error)
    → parse source ≡ err e
    → (e ≡ no_entries) ⊎ IsRefused 0 (lines source) empty e
unfolding parse
parse-IsRefused source e h = elim (>>=-eq-err (read_lines 0 (lines source) empty) _ h) [
  | inl here ↦ inr (read_lines-IsRefused 0 (lines source) empty here)
  | inr (file, read, later) ↦
      elim (>>=-eq-err (refuse_if (is_empty file.tools && is_empty file.copies) no_entries) _
        later) [
          | inl none_there ↦
              inl (refuse_if-eq-err (is_empty file.tools && is_empty file.copies) _ none_there)
          | inr (unit, passes, last) ↦ cc
        ]
]
