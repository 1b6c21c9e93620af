-- ===== src/Oci/Unpack.antt =====
-- `unpack` of src/oci.rs: a layout becomes the toolbox of a project. The layout is only read.
pub mod Sound
pub mod Escape
use binport.Base.{
  ℕ, Bool, true, false, not, ◌||◌, List, [], ◌∷◌, ◌++◌, Option, none, some, Result, ok, err, ok_or,
  refuse_if, map_err, if◌then◌else◌, any, ◌==◌,
}
use binport.Catalog.Platform
use binport.Catalog.Platform.{Platform}
use binport.Exec.{Exec, ◌>>=◌, ◌>>◌, pure, lift, gets, modify}
use binport.Files
use binport.Json.{Bytes, Coder}
use binport.Lockfile.File
use binport.Lockfile.File.{ProjectLock, same_lock}
use binport.Lockfile.{Identity, same_identity}
use binport.Oci.Blobs.{read_blob, annotation, from_oci_platform}
use binport.Oci.{
  Error, file_not_found, invalid_json, not_serialized, unsafe_name, unsupported_version,
  unsupported_index, unsupported_manifest, no_platform, duplicate_platform, config_mismatch,
  different_locks, unsupported_layer, duplicate_tool, lock_failed, Services, Layout, Descriptor,
  Index, Manifest, ToolboxConfig, index_media_type, manifest_media_type, tool_media_type, name_key,
  version_key,
}
use binport.Places.{Place, Tree, read_at, write_at, join, remove_all, rename}
use binport.Shell.ToolName.{safe_name}
use binport.Text.{Text, codes, equal}
use binport.Toolbox.{LockedTool, Lockfile, platform_dir}

-- The variables of the closure in `unpack`.
pub record Unpacked : Type 0 where
  pub tools : List LockedTool
  pub project_lock : Option ProjectLock
  pub identities : List Identity
  pub platforms : List Platform

abbrev pub nothing_yet : Unpacked
nothing_yet = record { tools = []; project_lock = none; identities = []; platforms = [] }

abbrev pub decode : {A : Type 0} → Coder A → Option Bytes → Result Error A
decode coder none = err file_not_found
decode coder (some bytes) = ok_or (coder.from_slice bytes) invalid_json

-- `project_lock.as_ref().is_some_and(|existing| existing != &lock)`
abbrev pub differs : Option ProjectLock → ProjectLock → Bool
differs none lock = false
differs (some existing) lock = not (same_lock existing lock)

-- The lock of one more manifest.
unfoldable pub merge_lock :
    Option ProjectLock → Option ProjectLock → Result Error (Option ProjectLock)
merge_lock project_lock none = ok project_lock
merge_lock project_lock (some lock) =
    if differs project_lock lock then err different_locks else ok (some lock)

abbrev pub staging_name : Text → Text
staging_name pid = codes ".binport-oci-" ++ pid

-- `.join("toolbox").join(platform.name().replace('/', "-")).join(name)`
abbrev pub tool_place : Place → Platform → Text → Place
tool_place base platform name =
    join (join (join base (codes "toolbox")) (platform_dir platform)) name

-- `PathBuf::from(".binport/toolbox").join(..).join(name)`, as a text: an absolute name replaces it.
unfoldable pub relative_path : Platform → Text → Text
relative_path platform [] =
    codes ".binport/toolbox" ++ (codes "/" ++ (platform_dir platform ++ codes "/"))
relative_path platform (c ∷ name) =
    if c == b'/'
    then c ∷ name
    else codes ".binport/toolbox"
      ++ (codes "/" ++ (platform_dir platform ++ (codes "/" ++ (c ∷ name))))

abbrev pub is_unsupported : ℕ → Text → Text → Bool
is_unsupported version found expected = not (version == 2) || not (equal found expected)

-- `fs::rename` of a file or directory over what was there
abbrev pub replace_with : Place → Place → Tree → Tree
replace_with from to tree = rename from to (remove_all to tree)

module _ (services : Services) (layout : Layout) where
  unfoldable pub validate_layout : Result Error (Unit {0})
  validate_layout = elim (Files.read (codes "oci-layout") layout.top) [
    | none ↦ err file_not_found
    | some bytes ↦ elim (services.layout_version bytes) [
      | none ↦ err invalid_json
      | some none ↦ err unsupported_version
      | some (some version) ↦ refuse_if (not (equal version (codes "1.0.0"))) unsupported_version
    ]
  ]

  unfoldable pub read_index : Result Error Index
  read_index = elim (decode services.index (Files.read (codes "index.json") layout.top)) [
    | err e ↦ err e
    | ok index ↦
        if is_unsupported index.schema_version index.media_type index_media_type
        then err unsupported_index
        else ok index
  ]

  abbrev pub decode_blob : {A : Type 0} → Coder A → Descriptor → Result Error A
  decode_blob coder descriptor = elim (read_blob services.hash_bytes layout.blobs descriptor) [
    | err e ↦ err e
    | ok bytes ↦ ok_or (coder.from_slice bytes) invalid_json
  ]

  -- `fs::write(&destination, ..)` and `sha256_file(&destination)`
  unfoldable pub install : Place → Bytes → Exec Error Tree Text
  install destination bytes = do
    modify (write_at destination bytes)
    written ← gets (read_at destination)
    content ← lift (ok_or written file_not_found)
    pure (services.hash_bytes content)

  unfoldable pub unpack_layer : Place → Platform → Descriptor → Unpacked → Exec Error Tree Unpacked
  unpack_layer staging platform layer st = do
    lift (
        refuse_if (not (equal layer.media_type tool_media_type))
          (unsupported_layer layer.media_type))
    name ← lift (annotation layer name_key)
    version ← lift (annotation layer version_key)
    file ← lift (map_err unsafe_name (safe_name name))
    lift (
        refuse_if (any (same_identity (name, Platform.name platform)) st.identities)
          (duplicate_tool name platform))
    bytes ← lift (read_blob services.hash_bytes layout.blobs layer)
    sha256 ← install (tool_place staging platform name) bytes
    pure (record st {
      identities = st.identities ++ (name, Platform.name platform) ∷ [];
      tools =
          st.tools
          ++ record {
            name = name;
            version = version;
            platform = Platform.name platform;
            sha256 = sha256;
            path = relative_path platform name;
          }
            ∷ [];
    })

  unfoldable pub unpack_layers :
      Place → Platform → List Descriptor → Unpacked → Exec Error Tree Unpacked
  unpack_layers staging platform [] st = pure st
  unpack_layers staging platform (layer ∷ layers) st = do
    next ← unpack_layer staging platform layer st
    unpack_layers staging platform layers next

  unfoldable pub manifest_platform : Descriptor → Result Error Platform
  manifest_platform descriptor = elim descriptor.platform [
    | none ↦ err no_platform
    | some platform ↦ from_oci_platform platform
  ]

  abbrev pub is_mismatch : ToolboxConfig → Platform → Bool
  is_mismatch config platform =
      not (config.format == 1) || not (equal config.platform (Platform.name platform))

  unfoldable pub unpack_manifest : Place → Descriptor → Unpacked → Exec Error Tree Unpacked
  unpack_manifest staging descriptor st = do
    platform ← lift (manifest_platform descriptor)
    lift (refuse_if (any (Platform.same platform) st.platforms) (duplicate_platform platform))
    manifest ← lift (decode_blob services.manifest descriptor)
    lift (
        refuse_if (is_unsupported manifest.schema_version manifest.media_type manifest_media_type)
          unsupported_manifest)
    config ← lift (decode_blob services.config manifest.config)
    lift (refuse_if (is_mismatch config platform) config_mismatch)
    project_lock ← lift (merge_lock st.project_lock config.project_lock)
    unpack_layers staging platform manifest.layers
        (record st { project_lock = project_lock; platforms = st.platforms ++ platform ∷ [] })

  unfoldable pub unpack_manifests : Place → List Descriptor → Unpacked → Exec Error Tree Unpacked
  unpack_manifests staging [] st = pure st
  unpack_manifests staging (descriptor ∷ descriptors) st = do
    next ← unpack_manifest staging descriptor st
    unpack_manifests staging descriptors next

  unfoldable pub write_lock : Place → Option ProjectLock → Exec Error Tree (Unit {0})
  write_lock root none s = (ok tt, s)
  write_lock root (some lock) s = elim (File.write services.project_lock lock root s) [
    | err e ↦ (err (lock_failed e), s)
    | ok s' ↦ (ok tt, s')
  ]

  -- The toolbox takes its place.
  unfoldable pub publish : Place → Place → Unpacked → Exec Error Tree Lockfile
  publish root staging st = do
    let lock : Lockfile = record { format = 1; tools = st.tools }
    bytes ← lift (ok_or (services.toolbox.to_vec lock) not_serialized)
    modify (write_at (join staging (codes "toolbox.json")) (bytes ++ codes "\n"))
    modify (
        replace_with (join staging (codes "toolbox"))
          (join (join root (codes ".binport")) (codes "toolbox")))
    modify (
        replace_with (join staging (codes "toolbox.json"))
          (join (join root (codes ".binport")) (codes "toolbox.json")))
    write_lock root st.project_lock
    pure lock

  -- The closure, with the clean-up that follows whatever it gives.
  unfoldable pub unpack_staged : Place → Place → Index → Exec Error Tree Lockfile
  unpack_staged root staging index = do
    st ← unpack_manifests staging index.manifests nothing_yet
    publish root staging st

  abbrev pub cleaned : {A : Type 0} → Place → Result Error A × Tree → Result Error A × Tree
  cleaned staging (result, tree) = (result, remove_all staging tree)

  unfoldable pub unpack : Text → Place → Exec Error Tree Lockfile
  unpack pid root = do
    lift validate_layout
    index ← lift read_index
    modify (remove_all (join root (staging_name pid)))
    λ tree.
        cleaned (join root (staging_name pid))
          (unpack_staged root (join root (staging_name pid)) index tree)
