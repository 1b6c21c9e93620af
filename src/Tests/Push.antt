-- ===== src/Tests/Push.antt =====
-- A push to a small registry that keeps the urls of its blobs: src/registry.rs.
use binport.Base.{
  ℕ, Bool, true, false, List, [], ◌∷◌, ◌++◌, ◌≡◌, refl, sym, ap, subst, arith, Option, none, some,
  ok, if◌then◌else◌, length, any, Option-cases, inl, inr,
}
use binport.Catalog.{is_sha256}
use binport.Files
use binport.Json.{Bytes}
use binport.Registry.Client.{
  get_manifest_optional, Client, Session, send_request, attempt, answer, send, error_for_status,
}
use binport.Registry.Digest.{digest_hash, verify_bytes}
use binport.Registry.Disk.{own, blob_at, read_blob}
use binport.Registry.Push.Requests.{IsRegistry}
use binport.Registry.Push.Sound.{IsDone, push_layout-IsDone}
use binport.Registry.Push.{
  read_index, push_layout, read_blob_of, read_document, push_blob, push_blobs, push_manifest,
  push_manifests, push_all,
}
use binport.Registry.Reference.{Reference, blob_url, uploads_url, manifest_url}
use binport.Registry.Transfer.Read.{read_layout_blob}
use binport.Registry.Transfer.{blob_exists, upload_blob, upload_url, upload_place, put_manifest}
use binport.Registry.{
  Descriptor, Document, Services, Response, Method, get, head, put, post, oci_index, oci_manifest,
}
use binport.Text.Order.{equal_refl}
use binport.Text.{Text, codes, equal, len, strip_prefix, is_ascii_hexdigit}

abbrev demo : Reference
demo = record {
  registry = codes "harbor.local";
  repository = codes "team/ops";
  reference = codes "v1";
}

abbrev client : Client
client = record { reference = demo; scheme = codes "https"; credentials = none }

abbrev digits : Text
digits = codes "00000000000000000000000000000000000000000000000000000000000000"

-- A hash with 64 digits that depends on the first byte.
abbrev toy_hash : Bytes → Text
toy_hash [] = digits ++ codes "ee"
toy_hash (b ∷ bytes) = digits ++ (if equal (b ∷ []) (7 ∷ []) then codes "a7" else codes "b0")

abbrev layer : Bytes
layer = 7 ∷ 7 ∷ []

abbrev manifest : Bytes
manifest = 2 ∷ []

abbrev described : Bytes → Descriptor
described bytes = record {
  media_type = [];
  digest = codes "sha256:" ++ toy_hash bytes;
  size = length bytes;
  platform = none;
}

abbrev document : Document
document = record {
  media_type = oci_manifest;
  manifests = [];
  config = none;
  layers = described layer ∷ [];
}

abbrev index : Document
index = record {
  media_type = oci_index;
  manifests = described manifest ∷ [];
  config = none;
  layers = [];
}

abbrev Urls : Type 0
Urls = List Text

abbrev has_url : Text → Urls → Bool
has_url url urls = any (equal url) urls

abbrev respond : Option Text → Bool → Response
respond location true = record {
  status = 200;
  www_authenticate = none;
  location = location;
  chunks = [];
}
respond location false = record {
  status = 404;
  www_authenticate = none;
  location = location;
  chunks = [];
}

abbrev serve : Method → Text → Urls → Option Response × Urls
serve get url urls = (some (respond none (has_url url urls)), urls)
serve head url urls = (some (respond none (has_url url urls)), urls)
serve post url urls = (some (respond (some (codes "/upload")) true), urls)
serve put url urls = (some (respond none true), url ∷ urls)

abbrev digest_in : List (Text × Text) → Text
digest_in [] = []
digest_in ((key, value) ∷ query) = value

abbrev services : Services Urls
services = record {
  send = λ request urls. serve request.method request.url urls;
  url_with_query = λ url query. some (blob_url demo (digest_in query) (codes "https"));
  join_url = λ base location. some location;
  hash_bytes = toy_hash;
  document = λ bytes. some (if equal bytes (1 ∷ []) then index else document);
  token_response = λ bytes. none;
  local_index = λ local. none;
}

abbrev Has : Text → Urls → Type 0
Has digest urls = has_url (blob_url demo digest (codes "https")) urls ≡ true

serve-keeps :
    (method : Method) (url : Text) (urls : Urls) (digest : Text)
    → Has digest urls
    → Has digest (serve method url urls).1
serve-keeps get url urls digest h = h
serve-keeps head url urls digest h = h
serve-keeps post url urls digest h = h
serve-keeps put url urls digest h = rw h (ground arith)

abbrev status_of : Option Response × Urls → ℕ
status_of (none, urls) = 0
status_of (some response, urls) = response.status

found_blob :
    (b : Bool) (urls urls' : Urls) (response : Response)
    → ◌≡◌ {A = Option Response × Urls} (some (respond none b), urls) (some response, urls')
    → response.status ≡ 200
    → b ≡ true
found_blob true urls urls' response e fine = refl
found_blob false urls urls' response e fine =
    let status : 404 ≡ response.status = ap status_of e in ground arith

upload_url-digest :
    (d : Descriptor) (place : Response) (url : Text)
    → upload_url services client d place ≡ ok url
    → url ≡ blob_url demo d.digest (codes "https")
unfolding upload_url upload_place
upload_url-digest d place url h = elim (Option-cases place.location) [
  | inl absent ↦ let wrong = rw absent at h in cc
  | inr (location, there) ↦
      let at_place = rw there at h in
      elim (Option-cases (upload_place services client location)) [
        | inl nowhere ↦ let wrong = rw nowhere at at_place in cc
        | inr (base, is) ↦ let done = rw is at at_place in cc
      ]
]

registry : IsRegistry services client
registry = record {
  has = Has;
  keeps = λ request s digest h. serve-keeps request.method request.url s digest h;
  found = λ auth d s s' response e fine.
      subst (Has d.digest) (ap (λ (p : Option Response × Urls). p.1) e)
        (found_blob (has_url (blob_url demo d.digest (codes "https")) s) s s' response e fine);
  stored = λ auth d place url bytes s s' response response' at_url e fine.
      subst (Has d.digest) (ap (λ (p : Option Response × Urls). p.1) e)
        (rw (sym (upload_url-digest d place url at_url), equal_refl url) refl);
}

abbrev session : Session Urls
session = record {
  token = none;
  server = [];
  disk = record {
    links = true;
    cache = [];
    received = [];
    layout = (toy_hash layer, own layer) ∷ (toy_hash manifest, own manifest) ∷ [];
  };
  layout_exists = true;
  top = [];
}

abbrev uploaded : Session Urls
uploaded = record session {
  server =
      codes "https://harbor.local/v2/team/ops/manifests/v1"
      ∷ (codes "https://harbor.local/v2/team/ops/manifests/" ++ (described manifest).digest)
      ∷ (codes "https://harbor.local/v2/team/ops/blobs/" ++ (described layer).digest)
      ∷ [];
}

pushed_demo : push_all services client index (1 ∷ []) session ≡ (
  ok (record { digest = codes "sha256:" ++ toy_hash (1 ∷ []); uploaded = 1; existing = 0 }),
  uploaded,
)
unfolding push_all push_manifests push_manifest push_blobs push_blob read_blob_of read_document
    blob_exists upload_blob upload_url upload_place put_manifest read_layout_blob read_blob blob_at
    digest_hash verify_bytes is_sha256 is_ascii_hexdigit len strip_prefix send_request attempt
    answer send error_for_status blob_url uploads_url manifest_url
pushed_demo = refl

-- The layout with its index.
abbrev listed : Session Urls
listed = record session { top = (codes "index.json", 1 ∷ []) ∷ [] }

abbrev pushed : Session Urls
pushed = record uploaded { top = (codes "index.json", 1 ∷ []) ∷ [] }

push_demo : push_layout services client listed ≡ (
  ok (record { digest = codes "sha256:" ++ toy_hash (1 ∷ []); uploaded = 1; existing = 0 }),
  pushed,
)
unfolding push_layout read_index get_manifest_optional push_all push_manifests push_manifest
    push_blobs push_blob read_blob_of read_document blob_exists upload_blob upload_url upload_place
    put_manifest read_layout_blob read_blob blob_at digest_hash verify_bytes is_sha256
    is_ascii_hexdigit len strip_prefix send_request attempt answer send error_for_status blob_url
    uploads_url manifest_url Files.read
push_demo = refl

push_layout-IsDone_example : IsDone services client registry listed pushed
push_layout-IsDone_example = push_layout-IsDone services client registry listed pushed _ push_demo
