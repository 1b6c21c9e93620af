-- ===== src/Host/Lookup.antt =====
-- What `find` returns behind `add` and `remove`, across the rendered and parsed file.
use binport.Base.{
  Bool, not, ◌&&◌, List, ◌≡◌, sym, ◌∙◌, ap, arith, All, Option, none, some, ok, >>-eq-ok,
  ok-injective, if◌then◌else◌, refuse_if, subst, Bool-cases, inl, inr,
}
use binport.Host.Config.{render}
use binport.Host.Registry.Laws.{
  lookup-insert, lookup-erase, erase-IsSorted, insert-All, erase-All, collect_sorted, erase_absent,
}
use binport.Host.Registry.{insert, contains_key, erase, lookup, IsSorted, insert-IsSorted}
use binport.Host.RoundTrip.{IsTidy, IsStored, parse-render}
use binport.Host.Sound.{parse-IsStored}
use binport.Host.Store.{
  SshDir, or_empty, contains_alias, ensure_include, list, find, add, remove, remove_from,
}
use binport.Host.{HostEntry, validate_entry, already_exists, validate_token}
use binport.Text.{Text, codes, equal}

-- The managed file is one that the program wrote: it holds `es`, in the order of their names.
pub record Holds (dir : SshDir) (es : List HostEntry) : Type 0 where
  pub listed : list dir ≡ ok es
  pub sorted : IsSorted es

pub list-IsStored :
    (managed main : Option Text) {es : List HostEntry}
    → list (record { main = main; managed = managed }) ≡ ok es
    → All IsStored es
unfolding list
list-IsStored none main h = subst (All IsStored) (ok-injective h) tt
list-IsStored (some source) main h = parse-IsStored source h

pub written :
    (main : Option Text) (es : List HostEntry)
    → All IsStored es
    → IsSorted es
    → Holds (record { main = main; managed = some (render es) }) es
unfolding list
written main es h s = record { listed = parse-render es h; sorted = s }

pub find-lookup :
    (name : Text) (dir : SshDir) (es : List HostEntry)
    → Holds dir es
    → find name dir ≡ ok (lookup name es)
unfolding find
find-lookup name dir es h = rw h.listed

-- What a successful `add` leaves.
record Added (e : HostEntry) (dir : SshDir) (es : List HostEntry) (dir' : SshDir) : Type 0 where
  valid : validate_entry e ≡ ok tt
  state : dir' ≡ record { main = ensure_include dir.main; managed = some (render (insert e es)) }

add-Added :
    (e : HostEntry) (force : Bool) (dir dir' : SshDir) (es : List HostEntry)
    → Holds dir es
    → add e force dir ≡ ok dir'
    → Added e dir es dir'
unfolding add
add-Added e force dir dir' es h a =
    let (valid, a1) = >>-eq-ok (validate_entry e) _ a in
    let (fresh, a2) = >>-eq-ok (refuse_if (contains_alias (or_empty dir.main) e.name) _) _ a1 in
    let (allowed, a3) =
      >>-eq-ok (refuse_if (contains_key e.name es && not force) (already_exists e.name)) _
        (rw (h.listed, collect_sorted es h.sorted) at a2) in
    record { valid = valid; state = sym (ok-injective a3) }

-- After a successful `add` of an entry with 16-bit ports and no Unicode blank at the ends of its
-- texts, to a managed file that the program wrote, the new file is again one that the program wrote,
-- `find` returns the entry, whole, under its name, and for every other name what it returned before.
pub find-add :
    (e : HostEntry) (force : Bool) (dir dir' : SshDir) (es : List HostEntry) (n : Text)
    → Holds dir es
    → IsTidy e
    → add e force dir ≡ ok dir'
    → Holds dir' (insert e es)
      × (find n dir' ≡ (if equal e.name n then ok (some e) else find n dir))
find-add e force dir dir' es n h t a =
    let added = add-Added e force dir dir' es h a in
    let stored =
      insert-All IsStored e es (added.valid, t) (list-IsStored dir.managed dir.main h.listed) in
    let holds : Holds dir' (insert e es) =
      subst (λ d. Holds d (insert e es)) (sym added.state)
        (written (ensure_include dir.main) (insert e es) stored (insert-IsSorted e es h.sorted)) in
    (
      holds,
      rw (find-lookup n dir' (insert e es) holds, find-lookup n dir es h, lookup-insert e n es)
          (ground arith),
    )

remove-remove_from :
    (name : Text) (managed main : Option Text) (es : List HostEntry) {r : SshDir × Bool}
    → Holds (record { main = main; managed = managed }) es
    → remove name (record { main = main; managed = managed }) ≡ ok r
    → r ≡ remove_from name (record { main = main; managed = managed }) es
unfolding remove list contains_key
remove-remove_from name none main es h e =
    let same = ok-injective (>>-eq-ok (validate_token (codes "host name") name) _ e).1 in
    rw (← ok-injective h.listed) (sym same)
remove-remove_from name (some source) main es h e =
    let later = (>>-eq-ok (validate_token (codes "host name") name) _ e).1 in
    sym (ok-injective (rw (h.listed, collect_sorted es h.sorted) at later))

remove_from-Holds :
    (name : Text) (dir : SshDir) (es : List HostEntry)
    → Holds dir es
    → Holds (remove_from name dir es).0 (erase name es)
remove_from-Holds name dir es h = elim (Bool-cases (contains_key name es)) [
  | inl there ↦ rw there (
      written dir.main (erase name es)
        (erase-All IsStored name es (list-IsStored dir.managed dir.main h.listed))
        (erase-IsSorted name es h.sorted))
  | inr absent ↦ rw (absent, erase_absent name es absent) h
]

remove_from-flag :
    (name : Text) (dir : SshDir) (es : List HostEntry)
    → (remove_from name dir es).1 ≡ contains_key name es
remove_from-flag name dir es = elim (Bool-cases (contains_key name es)) [
  | inl there ↦ rw there
  | inr absent ↦ rw absent
]

pub find-remove :
    (name : Text) (dir dir' : SshDir) (removed : Bool) (es : List HostEntry) (n : Text)
    → Holds dir es
    → remove name dir ≡ ok (dir', removed)
    → Holds dir' (erase name es)
      × (find n dir' ≡ (if equal name n then ok none else find n dir))
      × (removed ≡ contains_key name es)
find-remove name dir dir' removed es n h r =
    let same = remove-remove_from name dir.managed dir.main es h r in
    let holds : Holds dir' (erase name es) =
      subst (λ (p : SshDir × Bool). Holds p.0 (erase name es)) (sym same)
        (remove_from-Holds name dir es h) in
    (
      holds,
      rw
          (
            find-lookup n dir' (erase name es) holds,
            find-lookup n dir es h,
            lookup-erase name n es h.sorted,
          )
          (ground arith),
      ap (λ (p : SshDir × Bool). p.1) same ∙ remove_from-flag name dir es,
    )
