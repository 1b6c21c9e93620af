-- ===== src/Tests/Lockfile.antt =====
-- Lock files and tool names: src/lockfile.rs and `safe_tool_name` of src/lib.rs.
use binport.Base.{[], ◌∷◌, ◌≡◌, refl, Option, some, ok, err}
use binport.Binfile.{Binfile}
use binport.Catalog.Platform.{linux_amd64, linux_arm64}
use binport.Catalog.{artifact}
use binport.Lockfile.Sound.{IsResolved, resolve-IsResolved}
use binport.Lockfile.{ResolvedTool, ResolvedCopy, resolve}
use binport.Shell.ToolName
use binport.Shell.ToolName.{safe_tool_name, safe_name, file_name}
use binport.Tests.Catalog.{catalog}
use binport.Text.{Text, codes, is_ascii_alphanumeric}

abbrev spec : Binfile
spec = record {
  platforms = linux_amd64 ∷ [];
  tools = record { name = codes "rg"; version = some (codes "15.2.0") } ∷ [];
  copies = record { source = codes "logscan"; name = codes "logscan"; platform = linux_arm64 } ∷ [];
}

abbrev locate : Text → Option (Text × Text)
locate source = some (source, codes "00")

abbrev locked_rg : ResolvedTool
locked_rg = record {
  name = codes "rg";
  version = codes "15.2.0";
  platform = codes "linux/amd64";
  source =
      codes
        "https://github.com/BurntSushi/ripgrep/releases/download/15.2.0/ripgrep-15.2.0-x86_64-unknown-linux-musl.tar.gz";
  source_sha256 = codes "33e15bcf1624b25cdd2a55813a47a2f95dbe126268203e76aa6a585d1e7b149c";
  archive = codes "tar+gzip";
}

abbrev locked_copy : ResolvedCopy
locked_copy = record {
  name = codes "logscan";
  platform = codes "linux/arm64";
  source = codes "logscan";
  sha256 = codes "00";
}

resolved : resolve catalog locate spec ≡ ok (locked_rg ∷ [], locked_copy ∷ [])
unfolding resolve artifact safe_tool_name file_name is_ascii_alphanumeric
resolved = refl

resolve-IsResolved_example : IsResolved catalog locate spec (locked_rg ∷ []) (locked_copy ∷ [])
resolve-IsResolved_example =
    resolve-IsResolved catalog locate spec (locked_rg ∷ []) (locked_copy ∷ []) resolved

names :
    (safe_name (codes "bin/my-tool.sh") ≡ ok (codes "my-tool.sh"))
    × (safe_name (codes "a b") ≡ err (ToolName.unsupported_characters (codes "a b")))
    × (safe_name (codes "..") ≡ err ToolName.not_valid_utf8)
unfolding safe_tool_name file_name is_ascii_alphanumeric
names = (refl, refl, refl)

-- The last component alone is looked at, so a name that leaves its directory is accepted.
leaves_directory : safe_name (codes "../../evil") ≡ ok (codes "evil")
unfolding safe_tool_name file_name is_ascii_alphanumeric
leaves_directory = refl
