-- ===== src/Host/Registry.antt =====
-- The map of entries by name that `add` and `remove` of src/host.rs build: a `BTreeMap`, as the list
-- of its values in the order of their keys. The key of an entry is its name.
pub mod Laws
use binport.Base.{
  Bool, true, false, not, ◌||◌, List, [], ◌∷◌, ◌++◌, ◌≡◌, refl, ◌∙◌, ap, arith, All, any, find,
  Option, none, some, if◌then◌else◌, append_assoc,
}
use binport.Host.{HostEntry}
use binport.Text.Order.{less, equal_iff, equal_refl, less_irrefl, less_trans, less-total}
use binport.Text.{Text, equal}

-- `entries.insert(entry.name.clone(), entry)`
unfoldable pub insert : HostEntry → List HostEntry → List HostEntry
insert e [] = e ∷ []
insert e (x ∷ xs) =
    let rest = insert e xs in
    if less e.name x.name then e ∷ x ∷ xs else if equal e.name x.name then e ∷ xs else x ∷ rest

unfoldable pub insert_all : List HostEntry → List HostEntry → List HostEntry
insert_all m [] = m
insert_all m (e ∷ es) = insert_all (insert e m) es

-- `.map(|entry| (entry.name.clone(), entry)).collect::<BTreeMap<_, _>>()`
unfoldable pub collect : List HostEntry → List HostEntry
unfolding insert_all
collect es = insert_all [] es

abbrev pub has_name : Text → HostEntry → Bool
has_name name e = equal e.name name

unfoldable pub contains_key : Text → List HostEntry → Bool
contains_key name m = any (has_name name) m

-- `entries.remove(name)`
unfoldable pub erase : Text → List HostEntry → List HostEntry
erase name [] = []
erase name (x ∷ xs) = let rest = erase name xs in if equal x.name name then xs else x ∷ rest

-- `.into_iter().find(|entry| entry.name == name)`
abbrev pub lookup : Text → List HostEntry → Option HostEntry
lookup name = find (has_name name)

abbrev pub Above : Text → List HostEntry → Type 0
Above name = All (λ x. less name x.name ≡ true)

-- The names are in strictly increasing order.
abbrev pub IsSorted : List HostEntry → Type 0
IsSorted [] = Unit
IsSorted (x ∷ xs) = Above x.name xs × IsSorted xs

Above-trans : (a b : Text) (xs : List HostEntry) → less a b ≡ true → Above b xs → Above a xs
Above-trans a b [] h k = tt
Above-trans a b (x ∷ xs) h (k, ks) = (less_trans a b x.name h k, Above-trans a b xs h ks)

Above-insert :
    (a : Text) (e : HostEntry) (xs : List HostEntry)
    → less a e.name ≡ true
    → Above a xs
    → Above a (insert e xs)
unfolding insert
Above-insert a e [] h k = (h, tt)
Above-insert a e (x ∷ xs) h (k, ks) = ground (arith, Above-insert a e xs h ks)

pub insert-IsSorted : (e : HostEntry) (xs : List HostEntry) → IsSorted xs → IsSorted (insert e xs)
unfolding insert
insert-IsSorted e [] h = (tt, tt)
insert-IsSorted e (x ∷ xs) (above, h) = ground (
  arith,
  insert-IsSorted e xs h,
  Above-trans e.name x.name xs,
  Above-insert x.name e xs,
  less-total e.name x.name,
  equal_iff e.name x.name,
)
