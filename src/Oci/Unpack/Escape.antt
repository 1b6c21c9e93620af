-- ===== src/Oci/Unpack/Escape.antt =====
-- Where `unpack` of src/oci.rs writes a layer whose name is an absolute path.
use binport.Base.{true, false, [], ◌∷◌, ◌++◌, ◌≡◌, all, is_empty}
use binport.Catalog.Platform.{Platform}
use binport.Oci.Unpack.{Unpacked}
use binport.Catalog.Platform
use binport.Shell.ToolName.{is_name_char}
use binport.Text.{Text, codes, equal}

-- One component made of the characters of tool names.
pub record IsComponent (tool : Text) : Type 0 where
  pub fine : all is_name_char tool ≡ true
  pub some_char : is_empty tool ≡ false
  pub no_dot : equal tool (codes ".") ≡ false
  pub no_dots : equal tool (codes "..") ≡ false

-- The absolute path of a tool in a directory.
abbrev pub absolute : Text → Text → Text
absolute dir tool = codes "/" ++ (dir ++ (codes "/" ++ tool))

-- What is recorded of an unpacked layer.
abbrev pub recorded : Unpacked → Platform → Text → Text → Text → Text → Unpacked
recorded st platform name version sha256 path = record st {
  identities = st.identities ++ (name, Platform.name platform) ∷ [];
  tools =
      st.tools
      ++ record {
        name = name;
        version = version;
        platform = Platform.name platform;
        sha256 = sha256;
        path = path;
      }
        ∷ [];
}
