-- ===== src/Catalog/Platform.antt =====
-- `Platform` of src/catalog.rs.
use binport.Base.{
  Bool, true, false, ◌||◌, List, [], ◌∷◌, ◌≡◌, refl, Option, none, some, map, if◌then◌else◌,
}
use binport.Text.{Text, codes, equal, trim, to_ascii_lowercase}

pub data Platform : Type 0 where
  linux_amd64 linux_arm64 : Platform

abbrev pub same : Platform → Platform → Bool
same linux_amd64 linux_amd64 = true
same linux_arm64 linux_arm64 = true
same _ _ = false

abbrev pub all_platforms : List Platform
all_platforms = linux_amd64 ∷ linux_arm64 ∷ []

unfoldable pub parse : Text → Option Platform
parse value =
    if equal value (codes "linux/amd64") || equal value (codes "linux/x86_64")
    then some linux_amd64
    else if equal value (codes "linux/arm64") || equal value (codes "linux/aarch64")
    then some linux_arm64
    else none

abbrev pub name : Platform → Text
name linux_amd64 = codes "linux/amd64"
name linux_arm64 = codes "linux/arm64"

unfoldable pub from_uname : Text → Text → Option Platform
unfolding trim to_ascii_lowercase
from_uname os arch =
    if equal (map to_ascii_lowercase (trim os)) (codes "linux")
    then (if equal (trim arch) (codes "x86_64") || equal (trim arch) (codes "amd64")
        then some linux_amd64
        else if equal (trim arch) (codes "aarch64") || equal (trim arch) (codes "arm64")
        then some linux_arm64
        else none)
    else none

pub same_iff : (a b : Platform) → same a b ≡ true → a ≡ b
same_iff linux_amd64 linux_amd64 h = refl
same_iff linux_arm64 linux_arm64 h = refl
same_iff linux_amd64 linux_arm64 h = cc
same_iff linux_arm64 linux_amd64 h = cc

pub parse-name : (p : Platform) → parse (name p) ≡ some p
unfolding parse
parse-name linux_amd64 = refl
parse-name linux_arm64 = refl

pub same_comm : (a b : Platform) → same a b ≡ same b a
same_comm linux_amd64 linux_amd64 = refl
same_comm linux_arm64 linux_arm64 = refl
same_comm linux_amd64 linux_arm64 = refl
same_comm linux_arm64 linux_amd64 = refl
