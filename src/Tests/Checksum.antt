-- ===== src/Tests/Checksum.antt =====
-- Checksums: src/hop.rs at the inputs of its tests.
use binport.Base.{IsIn, true, ◌≡◌, refl, ok, err}
use binport.Catalog.{is_sha256}
use binport.Hop.Checksum.{
  no_valid_entry, first_checksum, checksum_of, checksum_for, Gives, checksum_for-Gives,
}
use binport.Text.{Text, codes, lines, split_once, is_whitespace, is_ascii_hexdigit}

abbrev source : Text
source =
    codes
      "aaaa  other.tar.gz\n0123456789abcdef0123456789abcdef0123456789abcdef0123456789abcdef  binport-linux-amd64.tar.gz\n"

abbrev digest : Text
digest = codes "0123456789abcdef0123456789abcdef0123456789abcdef0123456789abcdef"

found : checksum_for source (codes "binport-linux-amd64.tar.gz") ≡ ok digest
unfolding checksum_for first_checksum checksum_of split_once is_whitespace is_sha256 lines
    is_ascii_hexdigit
found = refl

missing :
    checksum_for source (codes "binport-linux-arm64.tar.gz")
    ≡ err (no_valid_entry (codes "binport-linux-arm64.tar.gz"))
unfolding checksum_for first_checksum checksum_of split_once is_whitespace lines
missing = refl

checksum_for-Gives_example :
    (is_sha256 digest ≡ true)
    × ((line : Text) × IsIn line (lines source)
        × Gives (codes "binport-linux-amd64.tar.gz") digest line)
checksum_for-Gives_example =
    checksum_for-Gives source (codes "binport-linux-amd64.tar.gz") digest found
