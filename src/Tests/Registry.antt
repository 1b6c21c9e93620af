-- ===== src/Tests/Registry.antt =====
-- A pull from a small registry: src/registry.rs at the inputs of its tests.
use binport.Base.{
  ◌+◌, ◌%◌, true, false, List, [], ◌∷◌, ◌++◌, ◌≡◌, refl, Option, none, some, ok, if◌then◌else◌,
  length, inl, inr, ap, sym, ◌∙◌, if_some-eq,
}
use binport.Files.{read, remove}
use binport.Json.{Bytes}
use binport.Registry.Challenge.{parameter, find_parameter, challenge_parameter}
use binport.Registry.Client.{
  Client, Session, on_disk, send_request, attempt, answer, send, get_response, get_bytes,
  error_for_status,
}
use binport.Registry.Digest.{digest_hash, verify_bytes}
use binport.Registry.Disk.Sound.{IsSound}
use binport.Registry.Disk.Twice.{materialize-materialize}
use binport.Registry.Disk.{
  Disk, blob_at, read_blob, unlink, rename, link_or_copy, link_from_cache, materialize, write_new,
  store_bytes, use_cached, materialize_cached,
}
use binport.Registry.Pull.Sound.{pull_layout-IsSound}
use binport.Registry.Pull.{
  supported, create_layout, write_index, pull_blob, pull_blobs, pull_manifest, pull_manifests,
  pull_layout,
}
use binport.Registry.Reference.RoundTrip.{IsWritable, with_tag, parse-written, separator, written}
use binport.Registry.Reference.{
  Reference, parse, repository_reference, repository_tag, manifest_url, blob_url,
}
use binport.Registry.Transfer.{receive, write_received, keep_blob, download_blob}
use binport.Registry.{
  Descriptor, Document, RegistryPlatform, Services, Response, oci_index, oci_manifest,
}
use binport.Text.Order.{equal_iff}
use binport.Text.Search.{rsplit_once, trim_matches}
use binport.Text.{
  Text, codes, equal, len, strip_prefix, split_once, split, trim, eq_ignore_ascii_case,
  is_ascii_alphanumeric, is_ascii_hexdigit,
}
use binport.Catalog.{is_sha256}

abbrev ops : Reference
ops = record {
  registry = codes "harbor.local:8443";
  repository = codes "team/ops";
  reference = codes "v1";
}

ops-IsWritable : IsWritable ops
unfolding is_ascii_alphanumeric
ops-IsWritable = record {
  registry = refl;
  one_host = refl;
  repository = refl;
  plain = refl;
  reference = refl;
  no_at = refl;
}

parse-written_example : parse (written (separator with_tag) ops) ≡ ok ops
parse-written_example = parse-written with_tag ops ops-IsWritable (refl, refl)

default_tag :
    parse (codes "oci://ghcr.io/acme/ops")
    ≡ ok (record {
      registry = codes "ghcr.io";
      repository = codes "acme/ops";
      reference = codes "latest";
    })
unfolding parse strip_prefix split_once repository_reference repository_tag rsplit_once
    is_ascii_alphanumeric
default_tag = refl

-- A hash with 64 digits, which tells files of different lengths below ten apart.
abbrev toy_hash : Bytes → Text
toy_hash bytes =
    codes "000000000000000000000000000000000000000000000000000000000000000"
    ++ (b'0' + length bytes % 10) ∷ []

abbrev digest : Bytes → Text
digest bytes = codes "sha256:" ++ toy_hash bytes

abbrev tool : Bytes
tool = 7 ∷ 7 ∷ 7 ∷ []

abbrev config : Bytes
config = 5 ∷ 5 ∷ []

abbrev manifest : Bytes
manifest = 2 ∷ 2 ∷ 2 ∷ 2 ∷ []

abbrev index : Bytes
index = 1 ∷ []

abbrev described : Bytes → Option RegistryPlatform → Descriptor
described bytes platform = record {
  media_type = [];
  digest = digest bytes;
  size = length bytes;
  platform = platform;
}

abbrev linux : Text → Option RegistryPlatform
linux architecture = some (record { os = codes "linux"; architecture = architecture })

abbrev document_of : Bytes → Option Document
document_of bytes =
    if equal bytes index
    then some (record {
      media_type = oci_index;
      manifests = described manifest (linux (codes "amd64")) ∷ described [] none ∷ [];
      config = none;
      layers = [];
    })
    else if equal bytes manifest
    then some (record {
      media_type = oci_manifest;
      manifests = [];
      config = some (described config none);
      layers = described tool none ∷ [];
    })
    else none

-- The server answers by the url.
abbrev route : Text → List (Text × Bytes) → Option Response
route url [] = none
route url ((path, body) ∷ routes) =
    let rest = route url routes in
    if equal path url
    then some
        (record { status = 200; www_authenticate = none; location = none; chunks = body ∷ [] })
    else rest

abbrev services : Services (List (Text × Bytes))
services = record {
  send = λ request routes. (route request.url routes, routes);
  url_with_query = λ url query. none;
  join_url = λ base location. none;
  hash_bytes = toy_hash;
  document = document_of;
  token_response = λ bytes. none;
  local_index = λ local. some (9 ∷ []);
}

abbrev client : Client
client = record { reference = ops; scheme = codes "https"; credentials = none }

abbrev routes : List (Text × Bytes)
routes =
    (codes "https://harbor.local:8443/v2/team/ops/manifests/v1", index)
    ∷ (codes "https://harbor.local:8443/v2/team/ops/manifests/" ++ digest manifest, manifest)
    ∷ (codes "https://harbor.local:8443/v2/team/ops/blobs/" ++ digest config, config)
    ∷ (codes "https://harbor.local:8443/v2/team/ops/blobs/" ++ digest tool, tool)
    ∷ []

-- The cache has the tool already.
abbrev session : Session (List (Text × Bytes))
session = record {
  token = none;
  server = routes;
  disk = record { links = true; cache = (toy_hash tool, tool) ∷ []; received = []; layout = [] };
  layout_exists = false;
  top = [];
}

pulled :
    (pull_layout services client session).0
    ≡ ok (record { digest = digest index; downloaded = 1; cached = 1 })
unfolding pull_layout create_layout write_index pull_blob pull_blobs pull_manifest pull_manifests
    supported send_request attempt answer send get_response get_bytes error_for_status digest_hash
    verify_bytes is_sha256 is_ascii_hexdigit len strip_prefix on_disk read_blob blob_at unlink
    rename link_or_copy link_from_cache materialize write_new store_bytes use_cached
    materialize_cached manifest_url blob_url receive write_received keep_blob download_blob read
    remove
pulled = refl

session-IsSound : IsSound toy_hash session.disk
unfolding read blob_at
session-IsSound = record {
  cached = λ name bytes h. elim (if_some-eq (equal (toy_hash tool) name) tool bytes none h) [
    | inl (same, e) ↦ inr (ap toy_hash (sym e) ∙ (equal_iff (toy_hash tool) name).0 same)
    | inr (other, e) ↦ cc
  ];
  owned = λ name bytes h. cc;
}

pull_layout-IsSound_example : IsSound toy_hash (pull_layout services client session).1.disk
pull_layout-IsSound_example = pull_layout-IsSound services client session session-IsSound

abbrev tool_hash : Text
tool_hash = toy_hash tool

tool_digest : digest_hash (digest tool) ≡ ok tool_hash
unfolding digest_hash is_sha256 is_ascii_hexdigit len strip_prefix
tool_digest = refl

no_blob : blob_at tool_hash session.disk.layout ≡ none
unfolding blob_at
no_blob = refl

cached_tool : read tool_hash session.disk.cache ≡ some tool
unfolding read
cached_tool = refl

materialize-materialize_example :
    (once : Disk) × (twice : Disk) × (materialize (digest tool) session.disk ≡ (ok tt, once))
    × (read_blob tool_hash once ≡ some tool)
    × (materialize (digest tool) once ≡ (ok tt, twice))
    × (read_blob tool_hash twice ≡ some [])
    × (read tool_hash twice.cache ≡ some [])
materialize-materialize_example =
    materialize-materialize (digest tool) tool_hash tool session.disk tool_digest refl no_blob
      cached_tool

abbrev challenge : Text
challenge =
    codes
      "Bearer realm=\"https://auth.example/token\",service=\"registry.example\",scope=\"repository:acme/ops:pull\""

parameters :
    (challenge_parameter challenge (codes "realm") ≡ some (codes "https://auth.example/token"))
    × (challenge_parameter challenge (codes "scope") ≡ some (codes "repository:acme/ops:pull"))
unfolding challenge_parameter find_parameter parameter split_once split trim eq_ignore_ascii_case
    trim_matches
parameters = (refl, refl)

-- The parameters after a quoted comma are not found.
quoted_comma :
    challenge_parameter
      (codes
        "Bearer realm=\"r\",scope=\"repository:acme/ops:pull,push\",service=\"registry.example\"")
      (codes "service")
    ≡ none
unfolding challenge_parameter find_parameter parameter split_once split trim eq_ignore_ascii_case
    trim_matches
quoted_comma = refl
