-- ===== src/Ssh/Config/Scan.antt =====
-- What `apply_ssh_config` of src/ssh.rs finds in the lines of one entry.
use binport.Base.{
  ℕ, Bool, true, false, [], ◌∷◌, ◌++◌, ◌≡◌, refl, sym, ◌∙◌, ap, Option, none, some, String, ◌≤◌,
  if◌then◌else◌, not, all, all-append, &&-true, not-true,
}
use binport.Host.Config.{u16_max, is_key}
use binport.Host.Lines.{OnSome}
use binport.Host.{HostEntry}
use binport.Ssh.Config.Pairs.{
  Pairs, read_pairs, read_pairs-append, option_pair, port_pair, entry_pairs,
}
use binport.Ssh.Config.{Found, Reader, first, set_found, read_pair, names}
use binport.Text.Decimal
use binport.Text.Decimal.{parse-show}
use binport.Text.{Text, codes, eq_ignore_ascii_case}

-- Inside a block that fits.
abbrev on : Found → Reader
on f = record { active = true; found = f }

-- What the entry adds to what was found.
abbrev pub add_entry : Found → HostEntry → Found
add_entry f e = record {
  hostname = first f.hostname (some e.hostname);
  user = first f.user (some e.user);
  port = first f.port (some e.port);
  identity = f.identity;
  proxy_jump = first f.proxy_jump e.proxy_jump;
  bastion_host = first f.bastion_host e.bastion_proxy;
  bastion_user = first f.bastion_user e.bastion_user;
  bastion_account = first f.bastion_account e.bastion_account;
  bastion_port = first f.bastion_port e.bastion_port;
  bastion_format = first f.bastion_format e.bastion_format;
  bastion_preset = first f.bastion_preset e.bastion_preset;
}

first-none : {A : Type 0} (o : Option A) → first o none ≡ o
first-none none = refl
first-none (some a) = refl

-- A piece of a block, read in a block that fits.
record Scans (alias : Text) (ps : Pairs) (f g : Found) : Type 0 where
  holds : read_pairs alias (on f) ps ≡ on g

Scans-append :
    {alias : Text} {ps qs : Pairs} {f g h : Found}
    → Scans alias ps f g
    → Scans alias qs g h
    → Scans alias (ps ++ qs) f h
Scans-append {alias} {ps} {qs} {f} s t = record {
  holds = read_pairs-append alias (on f) ps qs ∙ ap (λ r. read_pairs alias r qs) s.holds ∙ t.holds;
}

Scans-pair :
    (alias : Text) (key : String) (v : Text) (f : Found)
    → eq_ignore_ascii_case (codes key) (codes "host") ≡ false
    → Scans alias ((codes key, v) ∷ []) f (set_found f (codes key) v)
unfolding read_pair
Scans-pair alias key v f other = record { holds = rw other refl }

Scans-option_pair :
    (alias : Text) (key : String) (o : Option Text) (f : Found) (set : Option Text → Found)
    → eq_ignore_ascii_case (codes key) (codes "host") ≡ false
    → set none ≡ f
    → ((v : Text) → set_found f (codes key) v ≡ set (some v))
    → Scans alias (option_pair key o) f (set o)
unfolding read_pair
Scans-option_pair alias key none f set other same sets = record { holds = ap on (sym same) }
Scans-option_pair alias key (some v) f set other same sets = record {
  holds = rw other (ap on (sets v));
}

Scans-port_pair :
    (alias : Text) (key : String) (o : Option ℕ) (f : Found) (set : Option ℕ → Found)
    → eq_ignore_ascii_case (codes key) (codes "host") ≡ false
    → OnSome (λ port. port ≤ u16_max) o
    → set none ≡ f
    → ((v : Text) → set_found f (codes key) v ≡ set (Decimal.parse u16_max v))
    → Scans alias (port_pair key o) f (set o)
unfolding read_pair
Scans-port_pair alias key none f set other fits same sets = record { holds = ap on (sym same) }
Scans-port_pair alias key (some port) f set other fits same sets = record {
  holds = rw other (ap on (sets (Decimal.show port) ∙ ap set (parse-show u16_max port fits)));
}

abbrev with_port : HostEntry → Found → Found
with_port e f = record f {
  hostname = first f.hostname (some e.hostname);
  user = first f.user (some e.user);
  port = first f.port (some e.port);
}

abbrev with_proxy_jump : HostEntry → Found → Found
with_proxy_jump e f = record (with_port e f) { proxy_jump = first f.proxy_jump e.proxy_jump }

abbrev with_bastion_host : HostEntry → Found → Found
with_bastion_host e f = record (with_proxy_jump e f) {
  bastion_host = first f.bastion_host e.bastion_proxy;
}

abbrev with_bastion_user : HostEntry → Found → Found
with_bastion_user e f = record (with_bastion_host e f) {
  bastion_user = first f.bastion_user e.bastion_user;
}

abbrev with_bastion_account : HostEntry → Found → Found
with_bastion_account e f = record (with_bastion_user e f) {
  bastion_account = first f.bastion_account e.bastion_account;
}

abbrev with_bastion_port : HostEntry → Found → Found
with_bastion_port e f = record (with_bastion_account e f) {
  bastion_port = first f.bastion_port e.bastion_port;
}

abbrev with_bastion_preset : HostEntry → Found → Found
with_bastion_preset e f = record (with_bastion_port e f) {
  bastion_preset = first f.bastion_preset e.bastion_preset;
}

abbrev with_bastion_format : HostEntry → Found → Found
with_bastion_format e f = record (with_bastion_preset e f) {
  bastion_format = first f.bastion_format e.bastion_format;
}

-- The lines of an entry below its name.
abbrev block_pairs : HostEntry → Pairs
block_pairs e =
    (((codes "HostName", e.hostname) ∷ [])
      ++ (((codes "User", e.user) ∷ []) ++ ((codes "Port", Decimal.show e.port) ∷ [])))
    ++ (option_pair "ProxyJump" e.proxy_jump
        ++ (option_pair "BinportStrategy" e.strategy
            ++ (option_pair "BastionProxy" e.bastion_proxy
                ++ (option_pair "BastionUser" e.bastion_user
                    ++ (option_pair "BastionAccount" e.bastion_account
                        ++ (port_pair "BastionPort" e.bastion_port
                            ++ (option_pair "BastionPreset" e.bastion_preset
                                ++ (option_pair "BastionFormat" e.bastion_format ++ []))))))))

module _ (alias : Text) (e : HostEntry) (f : Found) where
  scan_host :
      e.port ≤ u16_max
      → Scans alias
          (((codes "HostName", e.hostname) ∷ [])
            ++ (((codes "User", e.user) ∷ []) ++ ((codes "Port", Decimal.show e.port) ∷ [])))
          f
          (with_port e f)
  unfolding set_found read_pair eq_ignore_ascii_case
  scan_host fits = record { holds = rw (parse-show u16_max e.port fits) refl }

  scan_proxy_jump :
      Scans alias (option_pair "ProxyJump" e.proxy_jump) (with_port e f) (with_proxy_jump e f)
  unfolding set_found eq_ignore_ascii_case
  scan_proxy_jump =
      Scans-option_pair alias "ProxyJump" e.proxy_jump (with_port e f)
        (λ o. record (with_port e f) { proxy_jump = first f.proxy_jump o }) refl
        (ap (λ o. record (with_port e f) { proxy_jump = o }) (first-none f.proxy_jump)) (λ v. refl)

  scan_strategy :
      Scans alias
        (option_pair "BinportStrategy" e.strategy)
        (with_proxy_jump e f)
        (with_proxy_jump e f)
  unfolding set_found eq_ignore_ascii_case
  scan_strategy =
      Scans-option_pair alias "BinportStrategy" e.strategy (with_proxy_jump e f)
        (λ o. with_proxy_jump e f) refl refl (λ v. refl)

  scan_bastion_proxy :
      Scans alias
        (option_pair "BastionProxy" e.bastion_proxy)
        (with_proxy_jump e f)
        (with_bastion_host e f)
  unfolding set_found eq_ignore_ascii_case
  scan_bastion_proxy =
      Scans-option_pair alias "BastionProxy" e.bastion_proxy (with_proxy_jump e f)
        (λ o. record (with_proxy_jump e f) { bastion_host = first f.bastion_host o }) refl
        (ap (λ o. record (with_proxy_jump e f) { bastion_host = o }) (first-none f.bastion_host))
        (λ v. refl)

  scan_bastion_user :
      Scans alias
        (option_pair "BastionUser" e.bastion_user)
        (with_bastion_host e f)
        (with_bastion_user e f)
  unfolding set_found eq_ignore_ascii_case
  scan_bastion_user =
      Scans-option_pair alias "BastionUser" e.bastion_user (with_bastion_host e f)
        (λ o. record (with_bastion_host e f) { bastion_user = first f.bastion_user o }) refl
        (ap (λ o. record (with_bastion_host e f) { bastion_user = o }) (first-none f.bastion_user))
        (λ v. refl)

  scan_bastion_account :
      Scans alias
        (option_pair "BastionAccount" e.bastion_account)
        (with_bastion_user e f)
        (with_bastion_account e f)
  unfolding set_found eq_ignore_ascii_case
  scan_bastion_account =
      Scans-option_pair alias "BastionAccount" e.bastion_account (with_bastion_user e f)
        (λ o. record (with_bastion_user e f) { bastion_account = first f.bastion_account o }) refl
        (ap (λ o. record (with_bastion_user e f) { bastion_account = o })
          (first-none f.bastion_account))
        (λ v. refl)

  scan_bastion_port :
      OnSome (λ port. port ≤ u16_max) e.bastion_port
      → Scans alias
          (port_pair "BastionPort" e.bastion_port)
          (with_bastion_account e f)
          (with_bastion_port e f)
  unfolding set_found eq_ignore_ascii_case
  scan_bastion_port fits =
      Scans-port_pair alias "BastionPort" e.bastion_port (with_bastion_account e f)
        (λ o. record (with_bastion_account e f) { bastion_port = first f.bastion_port o }) refl fits
        (ap (λ o. record (with_bastion_account e f) { bastion_port = o })
          (first-none f.bastion_port))
        (λ v. refl)

  scan_bastion_preset :
      Scans alias
        (option_pair "BastionPreset" e.bastion_preset)
        (with_bastion_port e f)
        (with_bastion_preset e f)
  unfolding set_found eq_ignore_ascii_case
  scan_bastion_preset =
      Scans-option_pair alias "BastionPreset" e.bastion_preset (with_bastion_port e f)
        (λ o. record (with_bastion_port e f) { bastion_preset = first f.bastion_preset o }) refl
        (ap (λ o. record (with_bastion_port e f) { bastion_preset = o })
          (first-none f.bastion_preset))
        (λ v. refl)

  scan_bastion_format :
      Scans alias
        (option_pair "BastionFormat" e.bastion_format)
        (with_bastion_preset e f)
        (with_bastion_format e f)
  unfolding set_found eq_ignore_ascii_case
  scan_bastion_format =
      Scans-option_pair alias "BastionFormat" e.bastion_format (with_bastion_preset e f)
        (λ o. record (with_bastion_preset e f) { bastion_format = first f.bastion_format o }) refl
        (ap (λ o. record (with_bastion_preset e f) { bastion_format = o })
          (first-none f.bastion_format))
        (λ v. refl)

  scan_block :
      e.port ≤ u16_max
      → OnSome (λ port. port ≤ u16_max) e.bastion_port
      → Scans alias (block_pairs e) f (add_entry f e)
  scan_block fits fits' = Scans-append (scan_host fits) (
      Scans-append scan_proxy_jump (
        Scans-append scan_strategy (
          Scans-append scan_bastion_proxy (
            Scans-append scan_bastion_user (
              Scans-append scan_bastion_account (
                Scans-append (scan_bastion_port fits') (
                  Scans-append scan_bastion_preset
                    (Scans-append scan_bastion_format (record { holds = refl })))))))))

abbrev is_other : Text × Text → Bool
is_other pair = not (is_key pair.0 "host")

-- Lines of a block that does not fit.
skip_other :
    (alias : Text) (f : Found) (ps : Pairs)
    → all is_other ps ≡ true
    → read_pairs alias (record { active = false; found = f }) ps
      ≡ record { active = false; found = f }
unfolding read_pair
skip_other alias f [] h = refl
skip_other alias f ((k, v) ∷ ps) h =
    let (here, later) = &&-true (is_other (k, v)) (all is_other ps) h in
    rw (not-true (is_key k "host") here) (skip_other alias f ps later)

others_option :
    (key : String) (o : Option Text)
    → is_key (codes key) "host" ≡ false
    → all is_other (option_pair key o) ≡ true
others_option key none h = refl
others_option key (some v) h = rw h refl

others_port :
    (key : String) (o : Option ℕ)
    → is_key (codes key) "host" ≡ false
    → all is_other (port_pair key o) ≡ true
others_port key none h = refl
others_port key (some v) h = rw h refl

others_block : (e : HostEntry) → all is_other (block_pairs e) ≡ true
unfolding eq_ignore_ascii_case
others_block e =
    all-append is_other (option_pair "ProxyJump" e.proxy_jump) _
      (others_option "ProxyJump" e.proxy_jump refl)
      (all-append is_other (option_pair "BinportStrategy" e.strategy) _
        (others_option "BinportStrategy" e.strategy refl)
        (all-append is_other (option_pair "BastionProxy" e.bastion_proxy) _
          (others_option "BastionProxy" e.bastion_proxy refl)
          (all-append is_other (option_pair "BastionUser" e.bastion_user) _
            (others_option "BastionUser" e.bastion_user refl)
            (all-append is_other (option_pair "BastionAccount" e.bastion_account) _
              (others_option "BastionAccount" e.bastion_account refl)
              (all-append is_other (port_pair "BastionPort" e.bastion_port) _
                (others_port "BastionPort" e.bastion_port refl)
                (all-append is_other (option_pair "BastionPreset" e.bastion_preset) _
                  (others_option "BastionPreset" e.bastion_preset refl)
                  (all-append is_other (option_pair "BastionFormat" e.bastion_format) _
                    (others_option "BastionFormat" e.bastion_format refl) refl)))))))

read_block :
    (alias : Text) (b : Bool) (f : Found) (e : HostEntry)
    → e.port ≤ u16_max
    → OnSome (λ port. port ≤ u16_max) e.bastion_port
    → read_pairs alias (record { active = b; found = f }) (block_pairs e)
      ≡ record { active = b; found = if b then add_entry f e else f }
read_block alias true f e fits fits' = (scan_block alias e f fits fits').holds
read_block alias false f e fits fits' = skip_other alias f (block_pairs e) (others_block e)

-- The lines of one entry, its name included.
pub read_pairs-entry :
    (alias : Text) (r : Reader) (e : HostEntry)
    → e.port ≤ u16_max
    → OnSome (λ port. port ≤ u16_max) e.bastion_port
    → read_pairs alias r (entry_pairs e) ≡ record {
      active = names alias e.name;
      found = if names alias e.name then add_entry r.found e else r.found;
    }
unfolding read_pair eq_ignore_ascii_case
read_pairs-entry alias r e fits fits' = read_block alias (names alias e.name) r.found e fits fits'
