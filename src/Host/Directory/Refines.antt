-- ===== src/Host/Directory/Refines.antt =====
-- The host commands of src/host.rs implement the directory.
use binport.Base.{
  Bool, true, false, not, ◌&&◌, List, [], ◌∷◌, ◌≡◌, refl, ◌∙◌, ap, arith, All, Option, none, some,
  Result, ok, err, ◌>>=◌, ◌>>◌, refuse_if, ok-injective, if◌then◌else◌, Bool-cases, inl, inr,
}
use binport.Host.Config
use binport.Host.Directory.{
  Command, add_host, remove_host, settle, changed, perform, Directory, is_some, obey, run,
}
use binport.Host.Lookup.{Holds, find-lookup, find-add, find-remove}
use binport.Host.Registry.Laws.{collect_sorted, lookup-insert, lookup-erase}
use binport.Host.Registry.{insert, erase, contains_key, lookup}
use binport.Host.RoundTrip.{IsTidy}
use binport.Host.Store
use binport.Host.Store.{
  SshDir, contains_alias, ensure_include, with_include, included, or_empty, list, find, add, remove,
}
use binport.Host.{HostEntry, Error, validate_entry, validate_token, already_exists, in_main_config}
use binport.Text.{Text, codes, equal, lines}

abbrev pub IsTidyCommand : Command → Type 0
IsTidyCommand (add_host e force) = IsTidy e
IsTidyCommand (remove_host name) = Unit

-- The files show the directory `m`, and the user's own file names the hosts in `reserved`.
pub record Shows (reserved : Text → Bool) (dir : SshDir) (m : Directory) : Type 0 where
  pub entries : List HostEntry
  pub holds : Holds dir entries
  pub found : (n : Text) → lookup n entries ≡ m n
  pub main : (n : Text) → contains_alias (or_empty dir.main) n ≡ reserved n

contains_key-lookup :
    (name : Text) (es : List HostEntry) → contains_key name es ≡ is_some (lookup name es)
unfolding contains_key
contains_key-lookup name [] = refl
contains_key-lookup name (e ∷ es) = ground (arith, contains_key-lookup name es)

lengthened :
    (n source : Text)
    → included source ≡ false
    → contains_alias (with_include source) n ≡ contains_alias source n
unfolding contains_alias with_include lines included
lengthened n [] h = refl
lengthened n (c ∷ source) h = rw (h, with_include) refl

with_include-contains :
    (n source : Text) → contains_alias (with_include source) n ≡ contains_alias source n
unfolding with_include
with_include-contains n source = elim (Bool-cases (included source)) [
  | inl there ↦ rw (there, with_include) refl
  | inr absent ↦ lengthened n source absent
]

main-contains :
    (n : Text) (main : Option Text)
    → contains_alias (or_empty (ensure_include main)) n ≡ contains_alias (or_empty main) n
unfolding ensure_include
main-contains n main = elim (Bool-cases (included (or_empty main))) [
  | inl there ↦ rw (there, ensure_include) refl
  | inr absent ↦ rw (absent, ensure_include) (with_include-contains n (or_empty main))
]

-- Three checks in front of a result.
abbrev checked :
    {S : Type 0}
    → Result Error (Unit {0})
    → Result Error (Unit {0})
    → Result Error (Unit {0})
    → S × Bool
    → Result Error (S × Bool)
checked a b c out = do a; b; c; ok out

-- What a chain of checks gives on the two sides.
settle-checked :
    {S M : Type 0} (R : S → M → Type 0) (a b c : Result Error (Unit {0})) (s s' : S) (m m' : M)
    (done : Bool)
    → R s m
    → (checked a b c (s', done) ≡ ok (s', done) → R s' m')
    → ((settle (checked a b c (s', done)) s).0 ≡ (settle (checked a b c (m', done)) m).0)
      × R (settle (checked a b c (s', done)) s).1 (settle (checked a b c (m', done)) m).1
settle-checked R (err e) b c s s' m m' done old new = (refl, old)
settle-checked R (ok u) (err e) c s s' m m' done old new = (refl, old)
settle-checked R (ok u) (ok v) (err e) s s' m m' done old new = (refl, old)
settle-checked R (ok u) (ok v) (ok w) s s' m m' done old new = (refl, new refl)

changed-eq-ok :
    {S : Type 0} (r : Result Error S) {s : S} {done : Bool} → changed r ≡ ok (s, done) → r ≡ ok s
changed-eq-ok (ok s) h = cc
changed-eq-ok (err e) h = cc

abbrev added : HostEntry → SshDir → List HostEntry → SshDir
added e dir es = record {
  main = ensure_include dir.main;
  managed = some (Config.render (insert e es));
}

changed_ok :
    {S : Type 0} (s : S) (r : Result Error (Unit {0})) → changed (r >> ok s) ≡ (r >> ok (s, true))
changed_ok s (ok u) = refl
changed_ok s (err e) = refl

changed-checked :
    {S T : Type 0} (a b : Result Error (Unit {0})) (l : Result Error T) (t : T)
    (c : T → Result Error (Unit {0})) (f : T → S)
    → l ≡ ok t
    → changed (a >> (b >> (l >>= λ x. c x >> ok (f x)))) ≡ checked a b (c t) (f t, true)
changed-checked (err e) b l t c f h = refl
changed-checked (ok u) (err e) l t c f h = refl
changed-checked (ok u) (ok v) l t c f h = rw h (changed_ok (f t) (c t))

remove_chain :
    (name : Text) (main managed : Option Text) (es : List HostEntry)
    → Holds (record { main = main; managed = managed }) es
    → remove name (record { main = main; managed = managed })
      ≡ checked
          (validate_token (codes "host name") name)
          (ok tt)
          (ok tt)
          (Store.remove_from name (record { main = main; managed = managed }) es)
unfolding remove list contains_key
remove_chain name main none es h = rw (← ok-injective h.listed) refl
remove_chain name main (some source) es h = rw (h.listed, collect_sorted es h.sorted) refl

module _ (reserved : Text → Bool) (dir : SshDir) (m : Directory)
    (shows : Shows reserved dir m) where
  contains_key-shown : (name : Text) → contains_key name shows.entries ≡ is_some (m name)
  contains_key-shown name = contains_key-lookup name shows.entries ∙ ap is_some (shows.found name)

  add_chain :
      (e : HostEntry) (force : Bool)
      → changed (add e force dir)
        ≡ checked
            (validate_entry e)
            (refuse_if (reserved e.name) (in_main_config e.name))
            (refuse_if (is_some (m e.name) && not force) (already_exists e.name))
            (added e dir shows.entries, true)
  unfolding add
  add_chain e force =
      changed-checked (validate_entry e) _ (list dir) shows.entries _ _ shows.holds.listed
      ∙ rw
          (
            collect_sorted shows.entries shows.holds.sorted,
            contains_key-shown e.name,
            shows.main e.name,
          )
          refl

  find_shown : (n : Text) → find n dir ≡ ok (m n)
  find_shown n = find-lookup n dir shows.entries shows.holds ∙ ap ok (shows.found n)

  added-Shows :
      (e : HostEntry) (force : Bool)
      → IsTidy e
      → add e force dir ≡ ok (added e dir shows.entries)
      → Shows reserved (added e dir shows.entries) (λ n. if equal e.name n then some e else m n)
  added-Shows e force tidy h = record {
    entries = insert e shows.entries;
    holds = (find-add e force dir _ shows.entries [] shows.holds tidy h).0;
    found = λ n. lookup-insert e n shows.entries ∙ rw (shows.found n) refl;
    main = λ n. main-contains n dir.main ∙ shows.main n;
  }

  perform-add :
      (e : HostEntry) (force : Bool)
      → IsTidy e
      → ((perform (add_host e force) dir).0 ≡ (obey reserved (add_host e force) m).0)
        × Shows reserved (perform (add_host e force) dir).1 (obey reserved (add_host e force) m).1
  perform-add e force tidy = rw (add_chain e force) (
      settle-checked (Shows reserved) (validate_entry e) _ _ dir (added e dir shows.entries) m _
        true shows
        (λ h. added-Shows e force tidy (changed-eq-ok (add e force dir) (add_chain e force ∙ h))))

  remove_from-shown :
      (name : Text)
      → Store.remove_from name dir shows.entries
        ≡ ((Store.remove_from name dir shows.entries).0, is_some (m name))
  remove_from-shown name = elim (Bool-cases (contains_key name shows.entries)) [
    | inl there ↦ rw (there, ← contains_key-shown name) (rw there refl)
    | inr absent ↦ rw (absent, ← contains_key-shown name) (rw absent refl)
  ]

  remove_from-main : (name : Text) → (Store.remove_from name dir shows.entries).0.main ≡ dir.main
  remove_from-main name = elim (Bool-cases (contains_key name shows.entries)) [
    | inl there ↦ rw there refl
    | inr absent ↦ rw absent refl
  ]

  remove_shown :
      (name : Text)
      → remove name dir
        ≡ checked
            (validate_token (codes "host name") name)
            (ok tt)
            (ok tt)
            ((Store.remove_from name dir shows.entries).0, is_some (m name))
  remove_shown name =
      remove_chain name dir.main dir.managed shows.entries shows.holds
      ∙ ap (checked (validate_token (codes "host name") name) (ok tt) (ok tt))
          (remove_from-shown name)

  removed-Shows :
      (name : Text)
      → remove name dir ≡ ok ((Store.remove_from name dir shows.entries).0, is_some (m name))
      → Shows reserved
          (Store.remove_from name dir shows.entries).0
          (λ n. if equal name n then none else m n)
  removed-Shows name h = record {
    entries = erase name shows.entries;
    holds = (find-remove name dir _ _ shows.entries [] shows.holds h).0;
    found = λ n. lookup-erase name n shows.entries shows.holds.sorted ∙ rw (shows.found n) refl;
    main = λ n. ap (λ t. contains_alias (or_empty t) n) (remove_from-main name) ∙ shows.main n;
  }

  perform-remove :
      (name : Text)
      → ((perform (remove_host name) dir).0 ≡ (obey reserved (remove_host name) m).0)
        × Shows reserved (perform (remove_host name) dir).1 (obey reserved (remove_host name) m).1
  perform-remove name = rw (remove_shown name) (
      settle-checked (Shows reserved) (validate_token (codes "host name") name) (ok tt) (ok tt) dir
        (Store.remove_from name dir shows.entries).0 m _ (is_some (m name)) shows
        (λ h. removed-Shows name (remove_shown name ∙ h)))

perform-obey :
    (reserved : Text → Bool) (dir : SshDir) (m : Directory) (c : Command)
    → Shows reserved dir m
    → IsTidyCommand c
    → ((perform c dir).0 ≡ (obey reserved c m).0)
      × Shows reserved (perform c dir).1 (obey reserved c m).1
perform-obey reserved dir m (add_host e force) shows tidy =
    perform-add reserved dir m shows e force tidy
perform-obey reserved dir m (remove_host name) shows tidy = perform-remove reserved dir m shows name

run-Shows :
    (reserved : Text → Bool) (commands : List Command) (dir : SshDir) (m : Directory)
    → Shows reserved dir m
    → All IsTidyCommand commands
    → ((run perform commands dir).0 ≡ (run (obey reserved) commands m).0)
      × Shows reserved (run perform commands dir).1 (run (obey reserved) commands m).1
run-Shows reserved [] dir m shows tidy = (refl, shows)
run-Shows reserved (c ∷ commands) dir m shows (t, tidy) =
    let (same, next) = perform-obey reserved dir m c shows t in
    let (later, end) = run-Shows reserved commands _ _ next tidy in ((cc), end)

-- From files that the program wrote, with the entries `es` and the aliases of the user's own file, a
-- sequence of `add` and `remove` commands, whose entries have 16-bit ports and no Unicode blank at the
-- ends of their texts, gives the results and errors of the same commands on a directory, a function
-- from names to entries that starts as the look-up in `es`; `find` then returns what the directory has.
pub run-refines :
    (commands : List Command) (dir : SshDir) (es : List HostEntry) (n : Text)
    → Holds dir es
    → All IsTidyCommand commands
    → ((run perform commands dir).0
        ≡ (run (obey (contains_alias (or_empty dir.main))) commands (λ n. lookup n es)).0)
      × (find n (run perform commands dir).1
          ≡ ok
              ((run (obey (contains_alias (or_empty dir.main))) commands (λ n'. lookup n' es)).1 n))
run-refines commands dir es n holds tidy =
    let start : Shows (contains_alias (or_empty dir.main)) dir (λ n. lookup n es) = record {
      entries = es;
      holds = holds;
      found = λ n. refl;
      main = λ n. refl;
    } in
    let (same, end) = run-Shows _ commands dir (λ n. lookup n es) start tidy in
    (same, find_shown _ _ _ end n)
