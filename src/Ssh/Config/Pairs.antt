-- ===== src/Ssh/Config/Pairs.antt =====
-- The keys and values of a configuration file, and those of the file that src/host.rs writes.
use binport.Base.{
  ℕ, List, [], ◌∷◌, ◌++◌, ◌≡◌, refl, ◌∙◌, ap, Option, none, some, append_assoc, String, All,
}
use binport.Host.Block.{IsWritable}
use binport.Host.Config.{
  key_value, line, option_line, option_port, render_entry, render_entries, render,
}
use binport.Host.Directives
use binport.Host.Lines.{
  IsValue, IsDirective, OnSome, respell, line-is_inline, key_value-line, show-IsValue,
}
use binport.Host.{HostEntry}
use binport.Ssh.Config.{Reader, read_pair, read_line, read_lines}
use binport.Text.Decimal
use binport.Text.Laws.{lines_cons, trim-IsTrimmed}
use binport.Text.{Text, codes, lines, trim}

abbrev pub Pairs : Type 0
Pairs = List (Text × Text)

abbrev put : Option (Text × Text) → Pairs → Pairs
put none ps = ps
put (some (key, value)) ps = (key, trim value) ∷ ps

abbrev pub pairs : List Text → Pairs
pairs [] = []
pairs (raw ∷ ls) = put (key_value raw) (pairs ls)

abbrev pub read_pairs : Text → Reader → Pairs → Reader
read_pairs alias r [] = r
read_pairs alias r ((key, value) ∷ ps) = read_pairs alias (read_pair alias r key value) ps

read_pairs-put :
    (alias : Text) (r : Reader) (o : Option (Text × Text)) (ps : Pairs)
    → read_pairs alias (read_line alias r o) ps ≡ read_pairs alias r (put o ps)
read_pairs-put alias r none ps = refl
read_pairs-put alias r (some (key, value)) ps = refl

pub read_lines-pairs :
    (alias : Text) (r : Reader) (ls : List Text)
    → read_lines alias r ls ≡ read_pairs alias r (pairs ls)
read_lines-pairs alias r [] = refl
read_lines-pairs alias r (raw ∷ ls) =
    read_lines-pairs alias (read_line alias r (key_value raw)) ls
    ∙ read_pairs-put alias r (key_value raw) (pairs ls)

pub read_pairs-append :
    (alias : Text) (r : Reader) (ps qs : Pairs)
    → read_pairs alias r (ps ++ qs) ≡ read_pairs alias (read_pairs alias r ps) qs
read_pairs-append alias r [] qs = refl
read_pairs-append alias r ((k, v) ∷ ps) qs = read_pairs-append alias (read_pair alias r k v) ps qs

-- The piece of text `a` has the pairs `ps`, whatever follows.
record Reads (a : Text) (ps : Pairs) : Type 0 where
  holds : (s : Text) → pairs (lines (a ++ s)) ≡ ps ++ pairs (lines s)

Reads-append : {a b : Text} {ps qs : Pairs} → Reads a ps → Reads b qs → Reads (a ++ b) (ps ++ qs)
Reads-append {a} {b} {ps} {qs} h k = record {
  holds = λ s.
      rw (append_assoc a b s, append_assoc ps qs (pairs (lines s)))
        (h.holds (b ++ s) ∙ ap (λ l. ps ++ l) (k.holds s));
}

Reads-line :
    {prefix : String} {key : Text} (v : Text)
    → IsDirective prefix key
    → IsValue v
    → Reads (line prefix v) ((key, v) ∷ [])
Reads-line {prefix} {key} v d value = record {
  holds = λ s.
      rw
        (
          respell prefix key v s d,
          lines_cons _ s (line-is_inline d.indent key v d.spaces d.ne_nil d.letters value),
          pairs,
        )
        (rw
          (
            key_value-line d.indent key v d.spaces d.ne_nil d.letters value,
            trim-IsTrimmed value.trimmed,
          )
          refl);
}

abbrev pub option_pair : String → Option Text → Pairs
option_pair key none = []
option_pair key (some v) = (codes key, v) ∷ []

abbrev pub port_pair : String → Option ℕ → Pairs
port_pair key none = []
port_pair key (some port) = (codes key, Decimal.show port) ∷ []

Reads-option_pair :
    {prefix : String} (key : String) (o : Option Text)
    → IsDirective prefix (codes key)
    → OnSome IsValue o
    → Reads (option_line prefix o) (option_pair key o)
Reads-option_pair key none d value = record { holds = λ s. refl }
Reads-option_pair key (some v) d value = Reads-line v d value

Reads-port_pair :
    {prefix : String} (key : String) (o : Option ℕ)
    → IsDirective prefix (codes key)
    → Reads (option_port prefix o) (port_pair key o)
Reads-port_pair key none d = record { holds = λ s. refl }
Reads-port_pair key (some port) d = Reads-line (Decimal.show port) d (show-IsValue port)

-- The lines of one entry.
abbrev pub entry_pairs : HostEntry → Pairs
entry_pairs e =
    ((codes "Host", e.name) ∷ [])
    ++ (((codes "HostName", e.hostname) ∷ [])
        ++ (((codes "User", e.user) ∷ [])
            ++ (((codes "Port", Decimal.show e.port) ∷ [])
                ++ (option_pair "ProxyJump" e.proxy_jump
                    ++ (option_pair "BinportStrategy" e.strategy
                        ++ (option_pair "BastionProxy" e.bastion_proxy
                            ++ (option_pair "BastionUser" e.bastion_user
                                ++ (option_pair "BastionAccount" e.bastion_account
                                    ++ (port_pair "BastionPort" e.bastion_port
                                        ++ (option_pair "BastionPreset" e.bastion_preset
                                            ++ (option_pair "BastionFormat" e.bastion_format
                                                ++ [])))))))))))

Reads-blank : Reads (codes "\n") []
unfolding lines key_value
Reads-blank = record { holds = λ s. refl }

Reads-render_entry : (e : HostEntry) → IsWritable e → Reads (render_entry e) (entry_pairs e)
unfolding render_entry
Reads-render_entry e w = Reads-append (Reads-line e.name Directives.host_directive w.name) (
    Reads-append (Reads-line e.hostname Directives.hostname w.hostname) (
      Reads-append (Reads-line e.user Directives.user w.user) (
        Reads-append (Reads-line (Decimal.show e.port) Directives.port (show-IsValue e.port)) (
          Reads-append
            (Reads-option_pair "ProxyJump" e.proxy_jump Directives.proxyjump w.proxy_jump)
            (Reads-append
              (Reads-option_pair "BinportStrategy" e.strategy Directives.binportstrategy w.strategy)
              (Reads-append
                (Reads-option_pair "BastionProxy" e.bastion_proxy Directives.bastionproxy
                  w.bastion_proxy)
                (Reads-append
                  (Reads-option_pair "BastionUser" e.bastion_user Directives.bastionuser
                    w.bastion_user)
                  (Reads-append
                    (Reads-option_pair "BastionAccount" e.bastion_account Directives.bastionaccount
                      w.bastion_account)
                    (Reads-append
                      (Reads-port_pair "BastionPort" e.bastion_port Directives.bastionport)
                      (Reads-append
                        (Reads-option_pair "BastionPreset" e.bastion_preset Directives.bastionpreset
                          w.bastion_preset)
                        (Reads-append
                          (Reads-option_pair "BastionFormat" e.bastion_format
                            Directives.bastionformat w.bastion_format)
                          Reads-blank)))))))))))

abbrev pub all_pairs : List HostEntry → Pairs
all_pairs [] = []
all_pairs (e ∷ es) = entry_pairs e ++ all_pairs es

abbrev pub AllWritable : List HostEntry → Type 0
AllWritable = All IsWritable

pairs-render_entries :
    (es : List HostEntry) → AllWritable es → pairs (lines (render_entries es)) ≡ all_pairs es
unfolding render_entries lines
pairs-render_entries [] w = refl
pairs-render_entries (e ∷ es) (w, ws) =
    (Reads-render_entry e w).holds (render_entries es)
    ∙ ap (λ l. entry_pairs e ++ l) (pairs-render_entries es ws)

abbrev pub header_pair : Text × Text
header_pair = (
  codes "IgnoreUnknown",
  codes
      "BastionProxy,BastionUser,BastionAccount,BastionPort,BastionPreset,BastionFormat,BinportStrategy",
)

pub pairs-render :
    (es : List HostEntry) → AllWritable es → pairs (lines (render es)) ≡ header_pair ∷ all_pairs es
unfolding render lines key_value
pairs-render es w = ap (λ l. header_pair ∷ l) (pairs-render_entries es w)
