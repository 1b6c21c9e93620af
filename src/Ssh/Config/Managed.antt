-- ===== src/Ssh/Config/Managed.antt =====
-- What `apply_ssh_config` of src/ssh.rs makes of the file that src/host.rs manages.
use binport.Base.{
  Bool, true, false, List, [], ◌∷◌, ◌≡◌, refl, ◌∙◌, ap, subst, arith, Option, none, some, ok, All,
  All-map, if◌then◌else◌, Bool-cases, inl, inr, is_empty, find,
}
use binport.Host.Block.{IsWritable}
use binport.Host.Checks.{validate_entry-Checks}
use binport.Host.Config.{render}
use binport.Host.Lines.{OnSome, IsValue}
use binport.Host.Registry.Laws.{lookup-Above}
use binport.Host.Registry.{lookup, IsSorted}
use binport.Host.RoundTrip.{IsStored, validate_entry-IsWritable}
use binport.Host.{HostEntry, validate_entry, validate_token}
use binport.Ssh.Config.Pairs.{
  read_pairs, read_pairs-append, read_lines-pairs, all_pairs, entry_pairs, pairs-render,
}
use binport.Ssh.Config.Scan.{add_entry, read_pairs-entry}
use binport.Ssh.Config.{
  Found, Reader, names, read_pair, apply_ssh_config, settled, start, nothing_found, or_keep,
  or_empty, bastion, keep_or_set, jump_of, default_format,
}
use binport.Ssh.{Destination, BastionProxy}
use binport.Text.Order.{equal_iff}
use binport.Text.{Text, codes, equal, lines, split_whitespace, eq_ignore_ascii_case}

-- The name is one word, also for a reader that splits at every Unicode blank.
abbrev pub IsWord : HostEntry → Type 0
IsWord e = split_whitespace e.name ≡ e.name ∷ []

not_star : (e : HostEntry) → validate_entry e ≡ ok tt → equal e.name (codes "*") ≡ false
unfolding validate_token
not_star e valid = elim (Bool-cases (equal e.name (codes "*"))) [
  | inl star ↦
      let named = (equal_iff e.name (codes "*")).0 star in
      let refused =
        subst (λ n. validate_token (codes "host name") n ≡ ok tt) named
          (validate_entry-Checks e valid).name in
      cc
  | inr other ↦ other
]

names-word :
    (alias : Text) (e : HostEntry)
    → validate_entry e ≡ ok tt
    → IsWord e
    → names alias e.name ≡ equal e.name alias
unfolding names
names-word alias e valid word = rw (word, not_star e valid) (ground arith)

-- What was found for the entry that the alias has, if it has one.
abbrev add_found : Found → Option HostEntry → Found
add_found f none = f
add_found f (some e) = add_entry f e

read_pairs-all :
    (alias : Text) (es : List HostEntry) (r : Reader)
    → All IsStored es
    → All IsWord es
    → IsSorted es
    → (read_pairs alias r (all_pairs es)).found ≡ add_found r.found (lookup alias es)
read_pairs-all alias [] r stored words sorted = refl
read_pairs-all alias (e ∷ es) r ((valid, tidy), stored) (word, words) (above, sorted) =
    ap (λ (q : Reader). q.found)
      (read_pairs-append alias r (entry_pairs e) (all_pairs es)
        ∙ ap (λ q. read_pairs alias q (all_pairs es))
            (read_pairs-entry alias r e tidy.port tidy.bastion_port))
    ∙ elim (Bool-cases (equal e.name alias)) [
      | inl here ↦
          let named = names-word alias e valid word ∙ here in
          let none_left =
            subst (λ n. lookup n es ≡ none) ((equal_iff e.name alias).0 here)
              (lookup-Above e.name es above) in
          read_pairs-all alias es _ stored words sorted ∙ rw (named, here, none_left, find) refl
      | inr other ↦
          let named = names-word alias e valid word ∙ other in
          read_pairs-all alias es _ stored words sorted ∙ rw (named, other, find) refl
    ]

-- What the managed file makes of a destination: the entry's own values, field by field. The user that
-- was asked for stays, and so do the keys.
abbrev pub bastion_for : HostEntry → Option BastionProxy → Option BastionProxy
bastion_for e old = elim e.bastion_proxy [
  | none ↦ old
  | some host ↦ some (record {
    host = host;
    port = or_keep 22 e.bastion_port;
    user = or_empty e.bastion_user;
    account = or_empty e.bastion_account;
    preset = e.bastion_preset;
    format = or_keep default_format e.bastion_format;
  })
]

abbrev pub reached : Bool → Option HostEntry → Destination → Destination
reached allow_user none d = d
reached allow_user (some e) d = record d {
  hostname = e.hostname;
  port = e.port;
  user = if allow_user then e.user else d.user;
  proxy_jump = keep_or_set d.proxy_jump (jump_of e.proxy_jump);
  bastion_proxy = bastion_for e d.bastion_proxy;
}

settled-nothing :
    (home : Option Text) (allow_user : Bool) (d : Destination)
    → settled home allow_user nothing_found d ≡ d
unfolding settled
settled-nothing home true d = refl
settled-nothing home false d = refl

not_empty : (v : Text) → IsValue v → is_empty v ≡ false
not_empty [] value = absurd (value.ne_nil refl)
not_empty (c ∷ v) value = refl

bastion-entry :
    (host format : Option Text) (e : HostEntry) (old : Option BastionProxy)
    → OnSome IsValue host
    → OnSome IsValue format
    → bastion
        (add_entry nothing_found (record e { bastion_proxy = host; bastion_format = format }))
        old
      ≡ bastion_for (record e { bastion_proxy = host; bastion_format = format }) old
bastion-entry none format e old vh vf = refl
bastion-entry (some host) none e old vh vf = rw (not_empty host vh) refl
bastion-entry (some host) (some format) e old vh vf =
    rw (not_empty host vh, not_empty format vf) refl

settled-entry :
    (home : Option Text) (allow_user : Bool) (e : HostEntry) (d : Destination)
    → IsWritable e
    → settled home allow_user (add_entry nothing_found e) d ≡ reached allow_user (some e) d
unfolding settled
settled-entry home allow_user e d w =
    ap (λ b. record (reached allow_user (some e) d) { bastion_proxy = b })
      (bastion-entry e.bastion_proxy e.bastion_format e d.bastion_proxy w.bastion_proxy
        w.bastion_format)

settled-found :
    (home : Option Text) (allow_user : Bool) (alias : Text) (es : List HostEntry) (d : Destination)
    → All IsWritable es
    → settled home allow_user (add_found nothing_found (lookup alias es)) d
      ≡ reached allow_user (lookup alias es) d
settled-found home allow_user alias [] d w = settled-nothing home allow_user d
settled-found home allow_user alias (e ∷ es) d (w, ws) = elim (Bool-cases (equal e.name alias)) [
  | inl here ↦ rw (here, find) (settled-entry home allow_user e d w)
  | inr other ↦ rw (other, find) (settled-found home allow_user alias es d ws)
]

-- When the managed file holds the entries `es`, in the order of their names, each of them valid, with 16-bit
-- ports, no Unicode blank at the ends of its texts and none inside its name, a destination is changed by the one entry that has the alias as its name, field by field: its
-- hostname, its port, its user unless one was asked for, its jump host and its bastion. Without such an
-- entry the destination stays as it is.
pub apply_ssh_config-render :
    (home : Option Text) (es : List HostEntry) (alias : Text) (allow_user : Bool) (d : Destination)
    → All IsStored es
    → All IsWord es
    → IsSorted es
    → apply_ssh_config home (render es) alias allow_user d ≡ reached allow_user (lookup alias es) d
unfolding apply_ssh_config read_pair eq_ignore_ascii_case
apply_ssh_config-render home es alias allow_user d stored words sorted =
    let writable = All-map (λ e (s : IsStored e). validate_entry-IsWritable e s.0 s.1) es stored in
    ap (λ f. settled home allow_user f d)
      (ap (λ (q : Reader). q.found)
          (read_lines-pairs alias start (lines (render es))
            ∙ ap (read_pairs alias start) (pairs-render es writable))
        ∙ read_pairs-all alias es start stored words sorted)
    ∙ settled-found home allow_user alias es d writable
