-- ===== src/Oci.antt =====
-- Toolboxes as OCI layouts: the types, blobs and descriptors of src/oci.rs. `serde_json` and the hash
-- are an argument, Services. The layout is a directory outside of the project.
pub mod Blobs
pub mod Pack
pub mod Unpack
use binport.Base.{ℕ, Bool, List, [], Option, none, some, Result}
use binport.Catalog.Platform.{Platform}
use binport.Files.{Files}
use binport.Json.{Bytes, Coder}
use binport.Lockfile.File
use binport.Lockfile.File.{ProjectLock}
use binport.Shell.ToolName
use binport.Text.{Text, codes}
use binport.Toolbox.{Lockfile}

abbrev pub index_media_type : Text
index_media_type = codes "application/vnd.oci.image.index.v1+json"

abbrev pub manifest_media_type : Text
manifest_media_type = codes "application/vnd.oci.image.manifest.v1+json"

abbrev pub config_media_type : Text
config_media_type = codes "application/vnd.binport.toolbox.config.v1+json"

abbrev pub tool_media_type : Text
tool_media_type = codes "application/vnd.binport.tool.v1"

abbrev pub name_key : Text
name_key = codes "org.binport.tool.name"

abbrev pub version_key : Text
version_key = codes "org.binport.tool.version"

pub record OciPlatform : Type 0 where
  pub os : Text
  pub architecture : Text

-- The annotations by key; the last one that was inserted counts.
pub record Descriptor : Type 0 where
  pub media_type : Text
  pub digest : Text
  pub size : ℕ
  pub platform : Option OciPlatform
  pub annotations : Files

pub record Index : Type 0 where
  pub schema_version : ℕ
  pub media_type : Text
  pub manifests : List Descriptor

pub record Manifest : Type 0 where
  pub schema_version : ℕ
  pub media_type : Text
  pub config : Descriptor
  pub layers : List Descriptor

pub record ToolboxConfig : Type 0 where
  pub format : ℕ
  pub platform : Text
  pub project_lock : Option ProjectLock

-- The directory of a layout: its own files, and those of `blobs/sha256`.
pub record Layout : Type 0 where
  pub is_there : Bool
  pub top : Files
  pub blobs : Files

pub data Error : Type 0 where
  file_not_found : Error
  invalid_json : Error
  not_serialized : Error
  layout_exists : Error
  unsafe_name : ToolName.Error → Error
  checksum_mismatch : Text → Error
  unsupported_version : Error
  unsupported_index : Error
  unsupported_manifest : Error
  no_platform : Error
  unsupported_platform : OciPlatform → Error
  duplicate_platform : Platform → Error
  config_mismatch : Error
  different_locks : Error
  unsupported_layer : Text → Error
  missing_annotation : Text → Error
  duplicate_tool : Text → Platform → Error
  not_sha256 : Error
  invalid_digest : Error
  blob_verification_failed : Text → Error
  lock_failed : File.Error → Error

-- `layout_version` is the text in `value["imageLayoutVersion"]`, when there is one.
pub record Services : Type 0 where
  pub hash_bytes : Bytes → Text
  pub index : Coder Index
  pub manifest : Coder Manifest
  pub config : Coder ToolboxConfig
  pub toolbox : Coder Lockfile
  pub project_lock : Coder ProjectLock
  pub layout_version : Bytes → Option (Option Text)
