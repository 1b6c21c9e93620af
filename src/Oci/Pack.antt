-- ===== src/Oci/Pack.antt =====
-- `pack` of src/oci.rs: a built toolbox becomes a layout. The project's files are only read.
use binport.Base.{
  true, not, List, [], ◌∷◌, Option, none, some, Result, ok, err, ok_or, refuse_if, map_err,
  if◌then◌else◌, is_empty,
}
use binport.Catalog.Platform
use binport.Catalog.Platform.{Platform, all_platforms}
use binport.Exec.{Exec, ◌>>=◌, ◌>>◌, pure, lift, gets, modify}
use binport.Files
use binport.Json.{Bytes}
use binport.Lockfile.File
use binport.Lockfile.File.{ProjectLock}
use binport.Oci
use binport.Oci.Blobs.{write_blob, to_oci_platform}
use binport.Oci.{
  Error, file_not_found, invalid_json, not_serialized, unsafe_name, checksum_mismatch, Services,
  Layout, Descriptor, index_media_type, manifest_media_type, config_media_type, tool_media_type,
  name_key, version_key,
}
use binport.Places.{Place, Tree, read_at, join}
use binport.Shell.ToolName.{safe_name}
use binport.Text.{codes, equal}
use binport.Toolbox.{LockedTool, Lockfile}

-- `.filter(|tool| tool.platform == platform.name())`
unfoldable pub tools_of : Platform → List LockedTool → List LockedTool
tools_of platform [] = []
tools_of platform (tool ∷ tools) =
    let rest = tools_of platform tools in
    if equal tool.platform (Platform.name platform) then tool ∷ rest else rest

abbrev pub to_option : {E A : Type 0} → Result E A → Option A
to_option (ok a) = some a
to_option (err e) = none

abbrev pub annotate : LockedTool → Descriptor → Descriptor
annotate tool d = record d {
  annotations = Files.write version_key tool.version (Files.write name_key tool.name d.annotations);
}

-- `fs::create_dir_all` and the version file
unfoldable pub create_layout : Layout → Layout
create_layout out = record {
  is_there = true;
  top = Files.write (codes "oci-layout") (codes "{\"imageLayoutVersion\":\"1.0.0\"}\n") out.top;
  blobs = [];
}

unfoldable pub write_index : Bytes → Layout → Layout
write_index bytes out = record out { top = Files.write (codes "index.json") bytes out.top }

module _ (services : Services) (root : Place) (tree : Tree) where
  unfoldable pub read_toolbox : Result Error Lockfile
  read_toolbox = elim (read_at (join root (codes ".binport/toolbox.json")) tree) [
    | none ↦ err file_not_found
    | some bytes ↦ ok_or (services.toolbox.from_slice bytes) invalid_json
  ]

  unfoldable pub pack_tool : LockedTool → Exec Error Layout Descriptor
  pack_tool tool = do
    name ← lift (map_err unsafe_name (safe_name tool.name))
    bytes ← lift (ok_or (read_at (join root tool.path) tree) file_not_found)
    lift (
        refuse_if (not (equal (services.hash_bytes bytes) tool.sha256))
          (checksum_mismatch tool.name))
    descriptor ← write_blob services.hash_bytes bytes tool_media_type
    pure (annotate tool descriptor)

  unfoldable pub pack_tools : List LockedTool → Exec Error Layout (List Descriptor)
  pack_tools [] = pure []
  pack_tools (tool ∷ tools) = do
    layer ← pack_tool tool
    layers ← pack_tools tools
    pure (layer ∷ layers)

  unfoldable pub pack_platform :
      Option ProjectLock → Platform → List LockedTool → Exec Error Layout Descriptor
  pack_platform project_lock platform tools = do
    config_bytes ← lift (
        ok_or
          (services.config.to_vec
            (record { format = 1; platform = Platform.name platform; project_lock = project_lock }))
          not_serialized)
    config ← write_blob services.hash_bytes config_bytes config_media_type
    layers ← pack_tools tools
    bytes ← lift (
        ok_or
          (services.manifest.to_vec (record {
            schema_version = 2;
            media_type = manifest_media_type;
            config = config;
            layers = layers;
          }))
          not_serialized)
    descriptor ← write_blob services.hash_bytes bytes manifest_media_type
    pure (record descriptor { platform = some (to_oci_platform platform) })

  -- A platform without tools has no manifest.
  unfoldable pub pack_platforms :
      Option ProjectLock → List LockedTool → List Platform → Exec Error Layout (List Descriptor)
  pack_platforms project_lock tools [] = pure []
  pack_platforms project_lock tools (platform ∷ platforms) =
      let rest = pack_platforms project_lock tools platforms in
      if is_empty (tools_of platform tools) then rest else (do
        manifest ← pack_platform project_lock platform (tools_of platform tools)
        manifests ← rest
        pure (manifest ∷ manifests))

  unfoldable pub pack : Exec Error Layout (Unit {0})
  pack = do
    lock ← lift read_toolbox
    there ← gets (λ (out : Layout). out.is_there)
    lift (refuse_if there Oci.layout_exists)
    modify create_layout
    manifests ←
        pack_platforms (to_option (File.read services.project_lock root tree)) lock.tools
          all_platforms
    index ← lift (
        ok_or
          (services.index.to_vec
            (record { schema_version = 2; media_type = index_media_type; manifests = manifests }))
          not_serialized)
    modify (write_index index)
