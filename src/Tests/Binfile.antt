-- ===== src/Tests/Binfile.antt =====
-- Binfiles: src/binfile.rs at the inputs of its tests.
use binport.Base.{[], ◌∷◌, ◌≡◌, refl, none, some, ok, err, ◌⊎◌}
use binport.Binfile.Errors.{IsRefused, parse-IsRefused}
use binport.Binfile.Sound.{IsSound, parse-IsSound}
use binport.Binfile.{empty, Binfile, no_entries, unsupported_target, parse}
use binport.Catalog.Platform
use binport.Catalog.Platform.{linux_amd64, linux_arm64}
use binport.Text.{Text, codes, lines}

abbrev source : Text
source = codes "TARGET linux/amd64\nTARGET linux/arm64\nTOOL rg@15.2.0\nTOOL jq\n"

abbrev file : Binfile
file = record {
  platforms = linux_amd64 ∷ linux_arm64 ∷ [];
  tools =
      record { name = codes "rg"; version = some (codes "15.2.0") }
      ∷ record { name = codes "jq"; version = none }
      ∷ [];
  copies = [];
}

parse_source : parse source ≡ ok file
unfolding parse Platform.parse
parse_source = refl

parse-IsSound_example : IsSound file
parse-IsSound_example = parse-IsSound source file parse_source

abbrev copied : Text
copied =
    codes "COPY ./target/x86_64-unknown-linux-musl/release/logscan logscan --target linux/amd64\n"

parse-copied :
    parse copied
    ≡ ok (record {
      platforms = linux_amd64 ∷ [];
      tools = [];
      copies =
          record {
            source = codes "./target/x86_64-unknown-linux-musl/release/logscan";
            name = codes "logscan";
            platform = linux_amd64;
          }
          ∷ [];
    })
unfolding parse Platform.parse
parse-copied = refl

abbrev wrong : Text
wrong = codes "# tools\ntool jq\ntarget  darwin/arm64 # no\n"

parse-wrong : parse wrong ≡ err (unsupported_target 3 (codes "darwin/arm64"))
unfolding parse Platform.parse
parse-wrong = refl

parse-IsRefused_example :
    (unsupported_target 3 (codes "darwin/arm64") ≡ no_entries)
    ⊎ IsRefused 0 (lines wrong) empty (unsupported_target 3 (codes "darwin/arm64"))
parse-IsRefused_example =
    parse-IsRefused wrong (unsupported_target 3 (codes "darwin/arm64")) parse-wrong
