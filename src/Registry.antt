-- ===== src/Registry.antt =====
-- The client of an OCI registry: src/registry.rs. The HTTP client, the url library, the JSON coder and
-- the hash are an argument, Services; the server is a state that a request changes.
pub mod Reference
pub mod Challenge
pub mod Digest
pub mod Disk
pub mod Client
pub mod Transfer
pub mod Pull
pub mod Push
use binport.Base.{ℕ, Bool, List, Option}
use binport.Json.{Bytes}
use binport.Text.{Text, codes}

abbrev pub oci_index : Text
oci_index = codes "application/vnd.oci.image.index.v1+json"

abbrev pub oci_manifest : Text
oci_manifest = codes "application/vnd.oci.image.manifest.v1+json"

abbrev pub docker_index : Text
docker_index = codes "application/vnd.docker.distribution.manifest.list.v2+json"

abbrev pub docker_manifest : Text
docker_manifest = codes "application/vnd.docker.distribution.manifest.v2+json"

abbrev pub accept_manifests : Text
accept_manifests =
    codes
      "application/vnd.oci.image.index.v1+json, application/vnd.oci.image.manifest.v1+json, application/vnd.docker.distribution.manifest.list.v2+json, application/vnd.docker.distribution.manifest.v2+json"

pub record Credentials : Type 0 where
  pub username : Text
  pub password : Text

pub record RegistryPlatform : Type 0 where
  pub os : Text
  pub architecture : Text

pub record Descriptor : Type 0 where
  pub media_type : Text
  pub digest : Text
  pub size : ℕ
  pub platform : Option RegistryPlatform

pub record Document : Type 0 where
  pub media_type : Text
  pub manifests : List Descriptor
  pub config : Option Descriptor
  pub layers : List Descriptor

pub record LocalIndex : Type 0 where
  pub schema_version : ℕ
  pub media_type : Text
  pub manifests : List Descriptor

pub record TokenResponse : Type 0 where
  pub token : Option Text
  pub access_token : Option Text

pub record PullReport : Type 0 where
  pub digest : Text
  pub downloaded : ℕ
  pub cached : ℕ

pub record PushReport : Type 0 where
  pub digest : Text
  pub uploaded : ℕ
  pub existing : ℕ

-- One constructor for each message and each failure of a library, with the values that it holds.
pub data Error : Type 0 where
  not_oci_scheme : Error
  no_repository : Error
  empty_part : Error
  invalid_reference : Error
  not_sha256 : Error
  invalid_digest : Error
  no_challenge : Error
  not_bearer : Error
  no_realm : Error
  no_token : Error
  no_location : Error
  bad_url : Error
  send_failed : Error
  http_status : ℕ → Error
  invalid_json : Error
  not_serialized : Error
  verification_failed : Text → Error
  blob_verification_failed : Text → Error
  layout_exists : Error
  not_an_index : Error
  not_multi_platform : Text → Error
  wrong_root : Text → Text → Error
  no_supported_manifest : Error
  unsupported_manifest : Text → Error
  file_not_found : Error

pub data Method : Type 0 where
  get head post put : Method

pub data Authorization : Type 0 where
  anonymous : Authorization
  basic : Text → Text → Authorization
  bearer : Text → Authorization

pub record Request : Type 0 where
  pub method : Method
  pub url : Text
  pub accept : Option Text
  pub content_type : Option Text
  pub authorization : Authorization
  pub body : Option Bytes

-- The body as the chunks that a reader gets, one after the other.
pub record Response : Type 0 where
  pub status : ℕ
  pub www_authenticate : Option Text
  pub location : Option Text
  pub chunks : List Bytes

-- What the program calls: `reqwest`, its `Url`, `serde_json` and `Sha256`. A request that fails gives
-- no response.
pub record Services (S : Type 0) : Type 0 where
  pub send : Request → S → Option Response × S
  pub url_with_query : Text → List (Text × Text) → Option Text
  pub join_url : Text → Text → Option Text
  pub hash_bytes : Bytes → Text
  pub document : Bytes → Option Document
  pub token_response : Bytes → Option TokenResponse
  pub local_index : LocalIndex → Option Bytes
