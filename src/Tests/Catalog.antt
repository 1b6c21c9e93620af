-- ===== src/Tests/Catalog.antt =====
-- The catalog at two tools of `catalog.yaml`: src/catalog.rs at the inputs of its tests.
use binport.Base.{String, [], ◌∷◌, ◌≡◌, refl, All, none, some, ok, err}
use binport.Catalog.Archive.{tar_gz}
use binport.Catalog.Platform
use binport.Catalog.Platform.{linux_amd64, linux_arm64}
use binport.Catalog.Served.{Serves, validate-Serves}
use binport.Catalog.{
  CatalogArtifact, Tool, Catalog, not_https, lacks_field, is_sha256, validate, check_tools,
  check_artifacts, check_platforms, artifact, replacement,
}
use binport.Text.{codes, len, trim, to_ascii_lowercase, is_ascii_alphanumeric, is_ascii_hexdigit}

abbrev archive : Platform.Platform → String → String → CatalogArtifact
archive platform url sha256 = record {
  platform = platform;
  url = codes url;
  sha256 = codes sha256;
  archive = tar_gz;
}

abbrev rg : Tool
rg = record {
  name = codes "rg";
  version = codes "15.2.0";
  replaces = codes "grep";
  description = codes "recursive text search";
  artifacts =
      archive linux_amd64
        "https://github.com/BurntSushi/ripgrep/releases/download/15.2.0/ripgrep-15.2.0-x86_64-unknown-linux-musl.tar.gz"
        "33e15bcf1624b25cdd2a55813a47a2f95dbe126268203e76aa6a585d1e7b149c"
      ∷ archive linux_arm64
          "https://github.com/BurntSushi/ripgrep/releases/download/15.2.0/ripgrep-15.2.0-aarch64-unknown-linux-musl.tar.gz"
          "800b1e7206afe799dfb5a6901f23147cfaabe0e52210538100f61e86e1740915"
      ∷ [];
}

abbrev fd : Tool
fd = record {
  name = codes "fd";
  version = codes "10.4.2";
  replaces = codes "find";
  description = codes "filesystem search";
  artifacts =
      archive linux_amd64
        "https://github.com/sharkdp/fd/releases/download/v10.4.2/fd-v10.4.2-x86_64-unknown-linux-musl.tar.gz"
        "e3257d48e29a6be965187dbd24ce9af564e0fe67b3e73c9bdcd180f4ec11bdde"
      ∷ archive linux_arm64
          "https://github.com/sharkdp/fd/releases/download/v10.4.2/fd-v10.4.2-aarch64-unknown-linux-musl.tar.gz"
          "f32d3657473fba74e2600babc8db0b93420d51169223b7e8143b2ed55d8fd9e8"
      ∷ [];
}

abbrev pub catalog : Catalog
catalog = record { schema = 1; tools = rg ∷ fd ∷ [] }

catalog_is_valid : validate catalog ≡ ok tt
unfolding validate check_tools check_artifacts check_platforms lacks_field is_sha256 len
    is_ascii_alphanumeric is_ascii_hexdigit
catalog_is_valid = refl

validate-Serves_example : All (Serves catalog) (rg ∷ fd ∷ [])
validate-Serves_example = validate-Serves catalog catalog_is_valid

unknown_tool : artifact catalog (codes "jq") none linux_amd64 ≡ none
unfolding artifact
unknown_tool = refl

bad_url : Catalog
bad_url = record {
  schema = 1;
  tools =
      record {
        name = codes "x";
        version = codes "1";
        replaces = codes "-";
        description = codes "x";
        artifacts = archive linux_amd64 "http://x" "bad" ∷ [];
      }
      ∷ [];
}

bad_url_is_refused : validate bad_url ≡ err (not_https (codes "x"))
unfolding bad_url validate check_tools check_artifacts check_platforms lacks_field
    is_ascii_alphanumeric
bad_url_is_refused = refl

replacements : replacement catalog (codes "fd") ≡ codes "find"
unfolding replacement
replacements = refl

unames :
    (Platform.from_uname (codes "Linux\n") (codes "x86_64\n") ≡ some linux_amd64)
    × (Platform.from_uname (codes "Darwin") (codes "arm64") ≡ none)
unfolding Platform.from_uname trim to_ascii_lowercase
unames = (refl, refl)
