-- ===== src/Host/RoundTrip.antt =====
-- `parse` reads back what `render` writes.
use binport.Base.{
  Bool, true, false, ◌||◌, List, [], ◌∷◌, ◌++◌, ◌≡◌, ◌≢◌, refl, ◌∙◌, ap, arith, all, any, All,
  append_assoc, append-nil, Option, some, none, Result, ok, >>-eq-ok, refuse_if-eq-ok, ◌≤◌,
  is_empty,
}
use binport.Host.Block.{IsWritable, read_entry}
use binport.Host.Checks.{validate_entry-Checks}
use binport.Host.Config.{
  Parser, read_directive, read_lines, u16_max, render_entries, render, flush, header, key_value,
  parse,
}
use binport.Host.Lines.{IsValue, OnSome, within}
use binport.Host.{
  HostEntry, Error, is_refused, validate_token, validate_config_value, validate_entry, if_some,
  validate_jump, validate_strategy, validate_preset,
}
use binport.Text.Laws.{is_inline, IsTrimmed}
use binport.Text.{Text, lines}

not_refused-inline : (v : Text) → any is_refused v ≡ false → all is_inline v ≡ true
unfolding is_refused
not_refused-inline [] h = refl
not_refused-inline (c ∷ v) h = ground (arith, not_refused-inline v)

is_empty-false : (v : Text) → is_empty v ≡ false → v ≢ []
is_empty-false [] h = cc
is_empty-false (c ∷ v) h = cc

value_of :
    (v : Text) (b : Bool) → (is_empty v || any is_refused v || b) ≡ false → IsTrimmed v → IsValue v
value_of v b h t = record {
  ne_nil = is_empty-false v (ground arith);
  trimmed = t;
  inline = not_refused-inline v (ground arith);
}

-- A value that passes its check fits on a line, if it is trimmed.
validate_token-IsValue : (label v : Text) → validate_token label v ≡ ok tt → IsTrimmed v → IsValue v
unfolding validate_token
validate_token-IsValue label v h t = value_of v _ (refuse_if-eq-ok _ _ h) t

validate_config_value-IsValue :
    (label v : Text) → validate_config_value label v ≡ ok tt → IsTrimmed v → IsValue v
unfolding validate_config_value
validate_config_value-IsValue label v h t = record {
  ne_nil = is_empty-false v (ground (arith, refuse_if-eq-ok _ _ h));
  trimmed = t;
  inline = not_refused-inline v (ground (arith, refuse_if-eq-ok _ _ h));
}

-- The ports are 16-bit numbers and no text of the entry has a Unicode blank at either end.
pub record IsTidy (e : HostEntry) : Type 0 where
  pub name : IsTrimmed e.name
  pub hostname : IsTrimmed e.hostname
  pub user : IsTrimmed e.user
  pub port : e.port ≤ u16_max
  pub proxy_jump : OnSome IsTrimmed e.proxy_jump
  pub strategy : OnSome IsTrimmed e.strategy
  pub bastion_proxy : OnSome IsTrimmed e.bastion_proxy
  pub bastion_user : OnSome IsTrimmed e.bastion_user
  pub bastion_account : OnSome IsTrimmed e.bastion_account
  pub bastion_port : OnSome (λ port. port ≤ u16_max) e.bastion_port
  pub bastion_preset : OnSome IsTrimmed e.bastion_preset
  pub bastion_format : OnSome IsTrimmed e.bastion_format

-- An optional value whose check begins with `validate_token`.
if_some-IsValue :
    (check : Text → Result Error (Unit {0})) (o : Option Text)
    → ((v : Text) → check v ≡ ok tt → IsTrimmed v → IsValue v)
    → if_some check o ≡ ok tt
    → OnSome IsTrimmed o
    → OnSome IsValue o
if_some-IsValue check none each h t = tt
if_some-IsValue check (some v) each h t = each v h t

validate_jump-IsValue : (name v : Text) → validate_jump name v ≡ ok tt → IsTrimmed v → IsValue v
unfolding validate_jump
validate_jump-IsValue name v h = validate_token-IsValue _ v (>>-eq-ok _ _ h).0

validate_strategy-IsValue :
    (jump : Option Text) (v : Text) → validate_strategy jump v ≡ ok tt → IsTrimmed v → IsValue v
unfolding validate_strategy
validate_strategy-IsValue jump v h = validate_token-IsValue _ v (>>-eq-ok _ _ h).0

validate_preset-IsValue :
    (format : Option Text) (v : Text) → validate_preset format v ≡ ok tt → IsTrimmed v → IsValue v
unfolding validate_preset
validate_preset-IsValue format v h = validate_token-IsValue _ v (>>-eq-ok _ _ h).0

pub validate_entry-IsWritable : (e : HostEntry) → validate_entry e ≡ ok tt → IsTidy e → IsWritable e
validate_entry-IsWritable e h t =
    let checks = validate_entry-Checks e h in
    record {
      name = validate_token-IsValue _ e.name checks.name t.name;
      hostname = validate_token-IsValue _ e.hostname checks.hostname t.hostname;
      user = validate_token-IsValue _ e.user checks.user t.user;
      port = t.port;
      proxy_jump =
          if_some-IsValue _ e.proxy_jump (validate_jump-IsValue e.name) checks.proxy_jump
            t.proxy_jump;
      strategy =
          if_some-IsValue _ e.strategy (validate_strategy-IsValue e.proxy_jump) checks.strategy
            t.strategy;
      bastion_proxy =
          if_some-IsValue _ e.bastion_proxy (validate_token-IsValue _) checks.bastion_proxy
            t.bastion_proxy;
      bastion_user =
          if_some-IsValue _ e.bastion_user (validate_token-IsValue _) checks.bastion_user
            t.bastion_user;
      bastion_account =
          if_some-IsValue _ e.bastion_account (validate_token-IsValue _) checks.bastion_account
            t.bastion_account;
      bastion_port = t.bastion_port;
      bastion_preset =
          if_some-IsValue _ e.bastion_preset (validate_preset-IsValue e.bastion_format)
            checks.bastion_preset t.bastion_preset;
      bastion_format =
          if_some-IsValue _ e.bastion_format (validate_config_value-IsValue _) checks.bastion_format
            t.bastion_format;
    }

-- What the parser needs of each entry that it is to read back.
abbrev pub IsStored : HostEntry → Type 0
IsStored e = (validate_entry e ≡ ok tt) × IsTidy e

flush_valid :
    (e : HostEntry) (out : List HostEntry)
    → validate_entry e ≡ ok tt
    → flush out (some e) ≡ ok (out ++ e ∷ [])
unfolding flush
flush_valid e out valid = rw valid

read_lines-render_entries :
    (es out : List HostEntry) (p : Parser)
    → All IsStored es
    → flush p.entries p.current ≡ ok out
    → read_lines p (lines (render_entries es)) ≡ ok (out ++ es)
unfolding render_entries read_lines lines
read_lines-render_entries [] out p h f = rw (f, append-nil)
read_lines-render_entries (e ∷ es) out p ((valid, tidy), h) f =
    read_entry e out (validate_entry-IsWritable e valid tidy) p (render_entries es) f
    ∙ read_lines-render_entries es (out ++ e ∷ []) (within out e) h (flush_valid e out valid)
    ∙ ap ok (append_assoc out (e ∷ []) es)

read_lines-header :
    (rest : Text)
    → read_lines (record { entries = []; current = none }) (lines (header ++ rest))
      ≡ read_lines (record { entries = []; current = none }) (lines rest)
unfolding read_lines lines read_directive key_value
read_lines-header rest = refl

-- Every list of valid entries whose ports fit in 16 bits and whose texts have no Unicode blank at
-- either end is read back, in order and field by field, from the file that `render` writes for it.
pub parse-render : (es : List HostEntry) → All IsStored es → parse (render es) ≡ ok es
unfolding parse render flush
parse-render es h = read_lines-header (render_entries es) ∙ read_lines-render_entries es [] _ h refl
