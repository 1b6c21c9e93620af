-- ===== src/Places.antt =====
-- A tree of files, as the program sees it through `std::fs`: a place is the list of the components of
-- an absolute path, with `.`, `..` and empty components resolved. There are no symbolic links, no
-- directory stands where a file is written, and a directory is there when a file is below it.
use binport.Base.{
  Bool, true, false, ◌&&◌, ◌||◌, List, [], ◌∷◌, ◌++◌, ◌≡◌, refl, arith, ◌↔◌, Option, none, some,
  if◌then◌else◌, is_empty, any,
}
use binport.Json.{Bytes}
use binport.Text.{Text, codes, equal, split}
use binport.Text.Order.{equal_iff}

abbrev pub Place : Type 0
Place = List Text

abbrev pub same_place : Place → Place → Bool
same_place [] [] = true
same_place [] (b ∷ q) = false
same_place (a ∷ p) [] = false
same_place (a ∷ p) (b ∷ q) = equal a b && same_place p q

abbrev pub parent : Place → Place
parent [] = []
parent (a ∷ []) = []
parent (a ∷ (b ∷ p)) = a ∷ parent (b ∷ p)

-- One component further: nothing, `.`, `..` or a name.
abbrev pub enter : Place → Text → Place
enter place part =
    if is_empty part || equal part (codes ".")
    then place
    else if equal part (codes "..")
    then parent place
    else place ++ part ∷ []

abbrev pub walk : Place → List Text → Place
walk place [] = place
walk place (part ∷ parts) = walk (enter place part) parts

-- `place.join(path)`: an absolute path starts anew.
unfoldable pub join : Place → Text → Place
join place [] = place
join place (c ∷ path) =
    walk (if equal (c ∷ []) (codes "/") then [] else place) (split b'/' (c ∷ path))

-- Where a place stands below another one.
abbrev pub below : Place → Place → Option Place
below [] place = some place
below (a ∷ base) [] = none
below (a ∷ base) (b ∷ place) = if equal a b then below base place else none

abbrev pub is_below : Place → Place → Bool
is_below base place = elim (below base place) [ none ↦ false | some rest ↦ true ]

abbrev pub Tree : Type 0
Tree = List (Place × Bytes)

unfoldable pub read_at : Place → Tree → Option Bytes
read_at place [] = none
read_at place ((p, bytes) ∷ tree) =
    let rest = read_at place tree in if same_place p place then some bytes else rest

abbrev pub write_at : Place → Bytes → Tree → Tree
write_at place bytes tree = (place, bytes) ∷ tree

-- `path.is_file()` and `path.exists()`
abbrev pub is_file : Place → Tree → Bool
is_file place tree = elim (read_at place tree) [ none ↦ false | some bytes ↦ true ]

abbrev pub exists : Place → Tree → Bool
exists place tree = any (λ (entry : Place × Bytes). is_below place entry.0) tree

-- `fs::remove_dir_all` and `fs::remove_file`: all that is at the place or below it.
unfoldable pub remove_all : Place → Tree → Tree
remove_all place [] = []
remove_all place ((p, bytes) ∷ tree) =
    let rest = remove_all place tree in if is_below place p then rest else (p, bytes) ∷ rest

abbrev moved : Place → Place → Place → Place
moved from to p = elim (below from p) [ none ↦ p | some rest ↦ to ++ rest ]

-- `fs::rename` to a place where nothing is
unfoldable pub rename : Place → Place → Tree → Tree
rename from to [] = []
rename from to ((p, bytes) ∷ tree) = (moved from to p, bytes) ∷ rename from to tree

pub same_place_iff : (p q : Place) → (same_place p q ≡ true) ↔ (p ≡ q)
same_place_iff [] [] = ground arith
same_place_iff [] (b ∷ q) = ground arith
same_place_iff (a ∷ p) [] = ground arith
same_place_iff (a ∷ p) (b ∷ q) = ground (arith, equal_iff a b, same_place_iff p q)

pub read_at-write_at :
    (place : Place) (bytes : Bytes) (tree : Tree)
    → read_at place (write_at place bytes tree) ≡ some bytes
unfolding read_at
read_at-write_at place bytes tree = ground (arith, same_place_iff place place)

pub walk-append : (p : Place) (xs ys : List Text) → walk p (xs ++ ys) ≡ walk (walk p xs) ys
walk-append p [] ys = refl
walk-append p (x ∷ xs) ys = walk-append (enter p x) xs ys
