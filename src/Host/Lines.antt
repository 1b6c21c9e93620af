-- ===== src/Host/Lines.antt =====
-- How `parse` reads one line that `render` wrote.
use mathlib.Core.List.{cons-ne-nil}
use binport.Base.{
  ℕ, true, false, List, [], ◌∷◌, ◌++◌, ◌≡◌, ◌≢◌, refl, ◌∙◌, arith, all, all-append, append_assoc,
  Option, some, none, ◌==◌, ok, ◌>>=◌, String, ◌≤◌,
}
use binport.Host.Config.{
  key_value, Parser, read_directive, read_lines, set_field, line, option_line, option_port, u16_max,
}
use binport.Host.{HostEntry}
use binport.Text.Decimal.{show, parse, show-all, show-ne-nil, parse-show}
use binport.Text.Laws.{
  is_inline, lines_cons, before_self, IsTrimmed, trim-IsTrimmed, trim_end-append, trim_start-spaces,
  trim_start-key, split_once-key, digits-IsTrimmed, digits-is_inline, alphanumeric-is_inline,
}
use binport.Text.{Text, codes, lines, trim, trim_end, is_ascii_alphanumeric, eq_ignore_ascii_case}

-- A value that can stand on a line of its own behind a key.
pub record IsValue (v : Text) : Type 0 where
  pub ne_nil : v ≢ []
  pub trimmed : IsTrimmed v
  pub inline : all is_inline v ≡ true

-- The constant text in front of a value: blanks, a key of letters and digits, and a space.
pub record IsDirective (prefix : String) (key : Text) : Type 0 where
  pub indent : Text
  pub spelled : codes prefix ≡ indent ++ (key ++ codes " ")
  pub spaces : all (λ c. c == b' ') indent ≡ true
  pub ne_nil : key ≢ []
  pub letters : all is_ascii_alphanumeric key ≡ true

spaces-is_inline : (s : Text) → all (λ c. c == b' ') s ≡ true → all is_inline s ≡ true
spaces-is_inline [] h = refl
spaces-is_inline (c ∷ s) h = ground (arith, spaces-is_inline s)

module _ (indent key v : Text) (spaces : all (λ c. c == b' ') indent ≡ true) (ne_nil : key ≢ [])
    (letters : all is_ascii_alphanumeric key ≡ true) (value : IsValue v) where
  pub line-is_inline : all is_inline (indent ++ (key ++ (b' ' ∷ v))) ≡ true
  line-is_inline =
      all-append is_inline indent _ (spaces-is_inline indent spaces)
        (all-append is_inline key (b' ' ∷ v) (alphanumeric-is_inline key letters) value.inline)

  key-trim_end : trim_end (key ++ (b' ' ∷ v)) ≡ key ++ (b' ' ∷ v)
  key-trim_end =
      trim_end-append key (b' ' ∷ v) (cons-ne-nil (b' ') v)
        (trim_end-append (b' ' ∷ []) v value.ne_nil value.trimmed.at_end)

  pub key_value-line : key_value (indent ++ (key ++ (b' ' ∷ v))) ≡ some (key, v)
  unfolding key_value
  key_value-line = rw (before_self _ line-is_inline) (
      unfold trim in
      rw
        (
          trim_start-spaces indent (key ++ (b' ' ∷ v)) spaces,
          trim_start-key key (b' ' ∷ v) ne_nil letters,
          key-trim_end,
        )
        (split_once-key key v letters))

pub respell :
    (prefix : String) (key v rest : Text) (d : IsDirective prefix key)
    → line prefix v ++ rest ≡ (d.indent ++ (key ++ (b' ' ∷ v))) ++ (10 ∷ rest)
respell prefix key v rest d = rw d.spelled (simp append_assoc)

-- A line is read as its key and value, and the parser goes on behind it.
pub read_lines-line :
    (prefix : String) (key v rest : Text) (p : Parser)
    → IsDirective prefix key
    → IsValue v
    → read_lines p (lines (line prefix v ++ rest))
      ≡ (read_directive p (some (key, v)) >>= λ q. read_lines q (lines rest))
unfolding read_lines
read_lines-line prefix key v rest p d value =
    rw
      (
        respell prefix key v rest d,
        lines_cons _ rest (line-is_inline d.indent key v d.spaces d.ne_nil d.letters value),
      )
      (rw (key_value-line d.indent key v d.spaces d.ne_nil d.letters value))

-- Inside the block of `entry`, behind the entries `out`.
abbrev pub within : List HostEntry → HostEntry → Parser
within out entry = record { entries = out; current = some entry }

-- A directive that sets a field.
pub read_lines-field :
    (prefix : String) (key v rest : Text) (out : List HostEntry) (entry entry' : HostEntry)
    → IsDirective prefix key
    → IsValue v
    → eq_ignore_ascii_case key (codes "host") ≡ false
    → set_field entry key v ≡ ok entry'
    → read_lines (within out entry) (lines (line prefix v ++ rest))
      ≡ read_lines (within out entry') (lines rest)
read_lines-field prefix key v rest out entry entry' d value other sets =
    read_lines-line prefix key v rest (within out entry) d value
    ∙ unfold read_directive in rw (other, trim-IsTrimmed value.trimmed, sets)

-- An optional value, if it is there, fits on a line.
abbrev pub OnSome {ℓ} : {A : Type ℓ} → (A → Type 0) → Option A → Type 0
OnSome P none = Unit
OnSome P (some v) = P v

-- An optional directive: `put` sets the field, which is `none` before.
pub read_lines-option :
    (prefix : String) (key rest : Text) (out : List HostEntry) (put : Option Text → HostEntry)
    (o : Option Text)
    → IsDirective prefix key
    → OnSome IsValue o
    → eq_ignore_ascii_case key (codes "host") ≡ false
    → ((v : Text) → set_field (put none) key v ≡ ok (put (some v)))
    → read_lines (within out (put none)) (lines (option_line prefix o ++ rest))
      ≡ read_lines (within out (put o)) (lines rest)
read_lines-option prefix key rest out put none d value other sets = refl
read_lines-option prefix key rest out put (some v) d value other sets =
    read_lines-field prefix key v rest out (put none) (put (some v)) d value other (sets v)

pub show-IsValue : (n : ℕ) → IsValue (show n)
show-IsValue n = record {
  ne_nil = show-ne-nil n;
  trimmed = digits-IsTrimmed (show n) (show-all n);
  inline = digits-is_inline (show n) (show-all n);
}

pub read_lines-option_port :
    (prefix : String) (key rest : Text) (out : List HostEntry) (put : Option ℕ → HostEntry)
    (o : Option ℕ)
    → IsDirective prefix key
    → OnSome (λ port. port ≤ u16_max) o
    → eq_ignore_ascii_case key (codes "host") ≡ false
    → ((v : Text) (port : ℕ)
        → parse u16_max v ≡ some port
        → set_field (put none) key v ≡ ok (put (some port)))
    → read_lines (within out (put none)) (lines (option_port prefix o ++ rest))
      ≡ read_lines (within out (put o)) (lines rest)
read_lines-option_port prefix key rest out put none d fits other sets = refl
read_lines-option_port prefix key rest out put (some port) d fits other sets =
    read_lines-field prefix key (show port) rest out (put none) (put (some port)) d
      (show-IsValue port) other (sets (show port) port (parse-show u16_max port fits))
