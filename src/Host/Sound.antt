-- ===== src/Host/Sound.antt =====
-- What `parse` returns is valid and tidy, so it can be written and read back.
use binport.Base.{
  List, [], ◌∷◌, ◌≡◌, refl, arith, All, All-append, Option, some, none, ok, >>=-eq-ok, >>-eq-ok,
  subst, Option-cases, Bool-cases, ok-injective, inl, inr,
}
use binport.Host.Config.{
  Parser, read_directive, read_lines, set_field, flush, u16_max, new_entry, key_value, parse,
  set_current, is_key,
}
use binport.Host.Lines.{OnSome}
use binport.Host.RoundTrip.{IsTidy, IsStored}
use binport.Host.{HostEntry, validate_entry}
use binport.Text.Decimal
use binport.Text.Laws.{IsTrimmed}
use binport.Text.Trim.{IsTrimmed-trim}
use binport.Text.{Text, trim, lines, trim_start, trim_end}

set_field-IsTidy :
    (e : HostEntry) (key v : Text) {e' : HostEntry}
    → IsTidy e
    → IsTrimmed v
    → set_field e key v ≡ ok e'
    → IsTidy e'
unfolding set_field
set_field-IsTidy e key v t h s = elim (Option-cases (Decimal.parse u16_max v)) [
  | inl wrong ↦ ground arith
  | inr (port, read) ↦ ground (arith, Decimal.parse-le v u16_max port read)
]

new_entry-IsTidy : (v : Text) → IsTrimmed v → IsTidy (new_entry v)
unfolding trim_start trim_end
new_entry-IsTidy v h = record {
  name = h;
  hostname = record { at_start = refl; at_end = refl };
  user = record { at_start = refl; at_end = refl };
  port = omega arith;
  proxy_jump = tt;
  strategy = tt;
  bastion_proxy = tt;
  bastion_user = tt;
  bastion_account = tt;
  bastion_port = tt;
  bastion_preset = tt;
  bastion_format = tt;
}

-- What holds of the parser between two lines.
record Inv (p : Parser) : Type 0 where
  stored : All IsStored p.entries
  opened : OnSome IsTidy p.current

flush-IsStored :
    (entries : List HostEntry) (current : Option HostEntry) {out : List HostEntry}
    → All IsStored entries
    → OnSome IsTidy current
    → flush entries current ≡ ok out
    → All IsStored out
unfolding flush
flush-IsStored entries none h t e = subst (All IsStored) (cc) h
flush-IsStored entries (some entry) h t e =
    let (valid, same) = >>-eq-ok (validate_entry entry) _ e in
    subst (All IsStored) (cc) (All-append IsStored entries (entry ∷ []) h ((valid, t), tt))

set_current-Inv :
    (entries : List HostEntry) (key v : Text) (current : Option HostEntry) {q : Parser}
    → All IsStored entries
    → OnSome IsTidy current
    → IsTrimmed v
    → set_current entries key v current ≡ ok q
    → Inv q
set_current-Inv entries key v none h t tv e =
    subst Inv (ok-injective e) (record { stored = h; opened = tt })
set_current-Inv entries key v (some entry) h t tv e =
    let (entry', sets, same) = >>=-eq-ok (set_field entry key v) _ e in
    subst Inv (ok-injective same)
      (record { stored = h; opened = set_field-IsTidy entry key v t tv sets })

read_directive-Inv :
    (p : Parser) (d : Option (Text × Text)) {q : Parser} → Inv p → read_directive p d ≡ ok q → Inv q
unfolding read_directive
read_directive-Inv p none i e = subst Inv (ok-injective e) i
read_directive-Inv p (some (key, v)) i e = elim (Bool-cases (is_key key "host")) [
  | inl host ↦
      let (out, flushed, same) = >>=-eq-ok (flush p.entries p.current) _ (rw host at e) in
      subst Inv (ok-injective same) (record {
        stored = flush-IsStored p.entries p.current i.stored i.opened flushed;
        opened = new_entry-IsTidy (trim v) (IsTrimmed-trim v);
      })
  | inr other ↦
      set_current-Inv p.entries key (trim v) p.current i.stored i.opened (IsTrimmed-trim v)
        (rw other at e)
]

read_lines-IsStored :
    (ls : List Text) (p : Parser) {out : List HostEntry}
    → Inv p
    → read_lines p ls ≡ ok out
    → All IsStored out
unfolding read_lines
read_lines-IsStored [] p i e = flush-IsStored p.entries p.current i.stored i.opened e
read_lines-IsStored (raw ∷ ls) p i e =
    let (q, reads, later) = >>=-eq-ok (read_directive p (key_value raw)) _ e in
    read_lines-IsStored ls q (read_directive-Inv p (key_value raw) i reads) later

-- Whatever file `parse` accepts, each entry that it returns passes `validate_entry`, has ports of 16
-- bits, and has no Unicode blank at either end of a text.
pub parse-IsStored : (source : Text) {es : List HostEntry} → parse source ≡ ok es → All IsStored es
unfolding parse
parse-IsStored source = read_lines-IsStored (lines source) _ (record { stored = tt; opened = tt })
