-- ===== src/Files.antt =====
-- A directory of files by name, as the programs reads and writes it: the last file that was written
-- under a name is the one that is read.
use binport.Base.{
  Bool, true, false, List, [], ◌∷◌, ◌≡◌, refl, arith, Option, none, some, if◌then◌else◌,
}
use binport.Json.{Bytes}
use binport.Text.{Text, equal}
use binport.Text.Order.{equal_iff}

abbrev pub Files : Type 0
Files = List (Text × Bytes)

unfoldable pub read : Text → Files → Option Bytes
read name [] = none
read name ((n, bytes) ∷ files) =
    let rest = read name files in if equal n name then some bytes else rest

abbrev pub write : Text → Bytes → Files → Files
write name bytes files = (name, bytes) ∷ files

unfoldable pub remove : Text → Files → Files
remove name [] = []
remove name ((n, bytes) ∷ files) =
    let rest = remove name files in if equal n name then rest else (n, bytes) ∷ rest

abbrev pub is_file : Text → Files → Bool
is_file name files = elim (read name files) [ none ↦ false | some bytes ↦ true ]

pub read-write :
    (name n : Text) (bytes : Bytes) (files : Files)
    → read name (write n bytes files) ≡ (if equal n name then some bytes else read name files)
unfolding read
read-write name n bytes files = refl

pub read-remove :
    (name n : Text) (files : Files)
    → read name (remove n files) ≡ (if equal n name then none else read name files)
unfolding read remove
read-remove name n [] = ground arith
read-remove name n ((m, bytes) ∷ files) =
    ground (arith, read-remove name n files, equal_iff m n, equal_iff m name, equal_iff n name)
