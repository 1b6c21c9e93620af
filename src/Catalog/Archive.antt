-- ===== src/Catalog/Archive.antt =====
-- `Archive` of src/catalog.rs.
use binport.Base.{◌≡◌, refl, Option, none, some, if◌then◌else◌}
use binport.Text.{Text, codes, equal}

pub data Archive : Type 0 where
  binary tar_gz : Archive

abbrev pub name : Archive → Text
name binary = codes "binary"
name tar_gz = codes "tar+gzip"

unfoldable pub parse : Text → Option Archive
parse value =
    if equal value (codes "binary")
    then some binary
    else if equal value (codes "tar+gzip")
    then some tar_gz
    else none

pub parse-name : (a : Archive) → parse (name a) ≡ some a
unfolding parse
parse-name binary = refl
parse-name tar_gz = refl
