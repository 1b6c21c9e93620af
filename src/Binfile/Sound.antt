-- ===== src/Binfile/Sound.antt =====
-- What a Binfile that `parse` of src/binfile.rs accepts holds, and where its errors are.
use binport.Base.{
  IsDistinct, snoc-IsDistinct, ℕ, suc, false, ◌&&◌, List, [], ◌∷◌, ◌≡◌, refl, subst, Option, ok,
  All, All-append, is_empty, Bool-cases, inl, inr, >>=-eq-ok, passed, ok-injective, ok_or, map, map,
}
use binport.Binfile.{
  to_ascii_uppercase, Binfile, ToolSpec, no_value, unsupported_target, empty_tool_name,
  malformed_copy, no_entries, content, contains, name_version, read_target, push_tool, read_tool,
  push_copy, read_copy, read_directive, read_line, read_lines, or_default, empty, parse,
}
use binport.Catalog.Platform.{Platform, same, same_comm}
use binport.Catalog.Platform
use binport.Text.{Text, codes, equal, trim, lines, split_once, split_whitespace, is_whitespace}

-- What holds of the entries between two lines.
record Inv (file : Binfile) : Type 0 where
  distinct : IsDistinct same file.platforms
  named : All (λ (t : ToolSpec). is_empty t.name ≡ false) file.tools

read_target-Inv :
    (index : ℕ) (value : Text) (file : Binfile) {file' : Binfile}
    → Inv file
    → read_target index value file ≡ ok file'
    → Inv file'
unfolding read_target
read_target-Inv index value file inv h =
    let (platform, parsed, same_file) =
      >>=-eq-ok (ok_or (Platform.parse (trim value)) (unsupported_target (suc index) (trim value)))
        _ h in
    subst Inv (ok-injective same_file) (elim (Bool-cases (contains platform file.platforms)) [
      | inl there ↦ rw there inv
      | inr new ↦ rw new (record {
        distinct = snoc-IsDistinct same same_comm file.platforms platform inv.distinct new;
        named = inv.named;
      })
    ])

push_tool-Inv :
    (index : ℕ) (name : Text) (version : Option Text) (file : Binfile) {file' : Binfile}
    → Inv file
    → push_tool index (name, version) file ≡ ok file'
    → Inv file'
push_tool-Inv index name version file inv h =
    let (named, same_file) = passed (is_empty name) (empty_tool_name (suc index)) _ h in
    subst Inv (ok-injective same_file)
      (record { distinct = inv.distinct; named = All-append _ file.tools _ inv.named (named, tt) })

push_copy-Inv :
    (index : ℕ) (parts : List Text) (file : Binfile) {file' : Binfile}
    → Inv file
    → push_copy index parts file ≡ ok file'
    → Inv file'
push_copy-Inv index (source ∷ name ∷ flag ∷ target ∷ []) file inv h =
    let (flagged, h1) = passed _ (malformed_copy (suc index)) _ h in
    let (platform, parsed, same_file) =
      >>=-eq-ok (ok_or (Platform.parse target) (unsupported_target (suc index) target)) _ h1 in
    subst Inv (ok-injective same_file) (record { distinct = inv.distinct; named = inv.named })
push_copy-Inv index [] file inv h = cc
push_copy-Inv index (a ∷ []) file inv h = cc
push_copy-Inv index (a ∷ b ∷ []) file inv h = cc
push_copy-Inv index (a ∷ b ∷ c ∷ []) file inv h = cc
push_copy-Inv index (a ∷ b ∷ c ∷ d ∷ e ∷ rest) file inv h = cc

read_directive-Inv :
    (index : ℕ) (parts : Text × Text) (file : Binfile) {file' : Binfile}
    → Inv file
    → read_directive index parts file ≡ ok file'
    → Inv file'
unfolding read_directive read_tool read_copy
read_directive-Inv index (directive, value) file inv h =
    let upper = map to_ascii_uppercase directive in
    elim (Bool-cases (equal upper (codes "TARGET"))) [
      | inl target ↦ read_target-Inv index value file inv (rw target at h)
      | inr no_target ↦ elim (Bool-cases (equal upper (codes "TOOL"))) [
        | inl tool ↦
            let (name, version) = name_version (trim value) in
            push_tool-Inv index name version file inv (rw (no_target, tool) at h)
        | inr no_tool ↦ elim (Bool-cases (equal upper (codes "COPY"))) [
          | inl copy ↦
              push_copy-Inv index (split_whitespace value) file inv
                (rw (no_target, no_tool, copy) at h)
          | inr no_copy ↦ (let wrong = rw (no_target, no_tool, no_copy) at h in cc)
        ]
      ]
    ]

read_line-Inv :
    (index : ℕ) (raw : Text) (file : Binfile) {file' : Binfile}
    → Inv file
    → read_line index raw file ≡ ok file'
    → Inv file'
unfolding read_line
read_line-Inv index raw file inv h = elim (Bool-cases (is_empty (content raw))) [
  | inl blank ↦ subst Inv (ok-injective (rw blank at h)) inv
  | inr text ↦
      let (parts, cut, h1) =
        >>=-eq-ok (ok_or (split_once is_whitespace (content raw)) (no_value (suc index))) _
          (rw text at h) in
      read_directive-Inv index parts file inv h1
]

read_lines-Inv :
    (index : ℕ) (ls : List Text) (file : Binfile) {file' : Binfile}
    → Inv file
    → read_lines index ls file ≡ ok file'
    → Inv file'
unfolding read_lines
read_lines-Inv index [] file inv h = subst Inv (ok-injective h) inv
read_lines-Inv index (raw ∷ rest) file inv h =
    let (next, first, h1) = >>=-eq-ok (read_line index raw file) _ h in
    read_lines-Inv (suc index) rest next (read_line-Inv index raw file inv first) h1

pub record IsSound (file : Binfile) : Type 0 where
  pub targeted : is_empty file.platforms ≡ false
  pub distinct : IsDistinct same file.platforms
  pub named : All (λ (t : ToolSpec). is_empty t.name ≡ false) file.tools
  pub inhabited : (is_empty file.tools && is_empty file.copies) ≡ false

or_default-IsDistinct :
    (platforms : List Platform)
    → IsDistinct same platforms
    → (is_empty (or_default platforms) ≡ false) × IsDistinct same (or_default platforms)
or_default-IsDistinct [] h = (refl, (refl, tt))
or_default-IsDistinct (p ∷ platforms) h = (refl, h)

-- A Binfile that `parse` accepts, whatever its text, targets at least one platform and each once,
-- has a tool or a copy at least, and no tool without a name.
pub parse-IsSound : (source : Text) (file : Binfile) → parse source ≡ ok file → IsSound file
unfolding parse
parse-IsSound source file h =
    let (read, lines_read, h1) = >>=-eq-ok (read_lines 0 (lines source) empty) _ h in
    let (inhabited, same_file) = passed _ no_entries _ h1 in
    let inv =
      read_lines-Inv 0 (lines source) empty (record { distinct = tt; named = tt }) lines_read in
    let (targeted, distinct) = or_default-IsDistinct read.platforms inv.distinct in
    subst IsSound (ok-injective same_file) (record {
      targeted = targeted;
      distinct = distinct;
      named = inv.named;
      inhabited = inhabited;
    })
