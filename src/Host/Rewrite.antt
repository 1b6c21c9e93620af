-- ===== src/Host/Rewrite.antt =====
-- What `add` of src/host.rs makes of a managed file that was edited by hand, with its blocks in any order.
use binport.Base.{
  Bool, not, ◌&&◌, List, [], ◌∷◌, ◌≡◌, refl, sym, ◌∙◌, arith, Option, none, some, ok, >>-eq-ok,
  ok-injective, if◌then◌else◌, refuse_if, subst,
}
use binport.Host.Config.{render}
use binport.Host.Lookup.{Holds, list-IsStored, written, find-lookup}
use binport.Host.Registry.Laws.{lookup-insert, insert-All, collect-All, collect-IsSorted}
use binport.Host.Registry.{insert, insert_all, collect, contains_key, lookup, insert-IsSorted}
use binport.Host.RoundTrip.{IsTidy, IsStored}
use binport.Host.Store.{SshDir, or_empty, contains_alias, ensure_include, list, find, add}
use binport.Host.{HostEntry, validate_entry, already_exists}
use binport.Text.{Text, equal}

abbrev pub or_else : Option HostEntry → Option HostEntry → Option HostEntry
or_else none other = other
or_else (some e) other = some e

-- The last entry of a name.
abbrev pub last_named : Text → List HostEntry → Option HostEntry
last_named n [] = none
last_named n (e ∷ es) = or_else (last_named n es) (if equal e.name n then some e else none)

lookup-insert_all :
    (n : Text) (m es : List HostEntry)
    → lookup n (insert_all m es) ≡ or_else (last_named n es) (lookup n m)
unfolding insert_all
lookup-insert_all n m [] = refl
lookup-insert_all n m (e ∷ es) =
    lookup-insert_all n (insert e m) es ∙ rw (lookup-insert e n m) (kept (last_named n es))
  where
    kept :
        (last : Option HostEntry)
        → or_else last (if equal e.name n then some e else lookup n m)
          ≡ or_else (or_else last (if equal e.name n then some e else none)) (lookup n m)
    kept (some x) = refl
    kept none = ground arith

lookup-collect : (n : Text) (es : List HostEntry) → lookup n (collect es) ≡ last_named n es
unfolding collect
lookup-collect n es = lookup-insert_all n [] es ∙ whole (last_named n es)
  where
    whole : (last : Option HostEntry) → or_else last none ≡ last
    whole none = refl
    whole (some e) = refl

add-state :
    (e : HostEntry) (force : Bool) (dir dir' : SshDir) (es : List HostEntry)
    → list dir ≡ ok es
    → add e force dir ≡ ok dir'
    → (validate_entry e ≡ ok tt)
      × (dir' ≡ record {
        main = ensure_include dir.main;
        managed = some (render (insert e (collect es)));
      })
unfolding add
add-state e force dir dir' es listed a =
    let (valid, a1) = >>-eq-ok (validate_entry e) _ a in
    let (fresh, a2) = >>-eq-ok (refuse_if (contains_alias (or_empty dir.main) e.name) _) _ a1 in
    let (allowed, a3) =
      >>-eq-ok (refuse_if (contains_key e.name (collect es) && not force) (already_exists e.name)) _
        (rw listed at a2) in
    (valid, sym (ok-injective a3))

-- After a successful `add` of an entry with 16-bit ports and no Unicode blank at the ends of its
-- texts, to any managed file that `parse` accepts, with blocks in any order and names that stand twice, the
-- new file is one that the program wrote; `find` returns the entry under its name, and for every other
-- name the entry of the last block of this name in the old file, or nothing when it has none.
pub find-add_edited :
    (e : HostEntry) (force : Bool) (dir dir' : SshDir) (es : List HostEntry) (n : Text)
    → list dir ≡ ok es
    → IsTidy e
    → add e force dir ≡ ok dir'
    → Holds dir' (insert e (collect es))
      × (find n dir' ≡ ok (if equal e.name n then some e else last_named n es))
find-add_edited e force dir dir' es n listed tidy a =
    let (valid, state) = add-state e force dir dir' es listed a in
    let stored =
      insert-All IsStored e (collect es) (valid, tidy)
        (collect-All IsStored es (list-IsStored dir.managed dir.main listed)) in
    let holds : Holds dir' (insert e (collect es)) =
      subst (λ d. Holds d (insert e (collect es))) (sym state)
        (written (ensure_include dir.main) (insert e (collect es)) stored
          (insert-IsSorted e (collect es) (collect-IsSorted es))) in
    (
      holds,
      rw
          (
            find-lookup n dir' (insert e (collect es)) holds,
            lookup-insert e n (collect es),
            lookup-collect n es,
          )
          refl,
    )
