-- ===== src/Registry/Client.antt =====
-- The requests of `RegistryClient` in src/registry.rs, with the token that a challenge brings.
pub mod Rules
use binport.Base.{
  ℕ, Bool, true, false, not, ◌&&◌, ◌||◌, List, [], ◌∷◌, ◌++◌, Option, none, some, Result, ok, err,
  ok_or, if◌then◌else◌, ◌==◌, leb, ltb, refuse_if,
}
use binport.Exec.{Exec, ◌>>=◌, ◌>>◌, pure, fail, lift, gets, modify}
use binport.Files.{Files}
use binport.Json.{Bytes}
use binport.Registry.Challenge.{challenge_parameter}
use binport.Registry.Disk.{Disk}
use binport.Registry.Reference.{Reference, manifest_url}
use binport.Registry.{
  Error, send_failed, http_status, no_challenge, not_bearer, no_realm, no_token, bad_url,
  invalid_json, Credentials, Services, Request, Response, Method, get, Authorization, anonymous,
  basic, bearer, accept_manifests, TokenResponse,
}
use binport.Text.Search.{take}
use binport.Text.{Text, codes, eq_ignore_ascii_case}

-- The parts of `RegistryClient` that stay the same. Building the HTTP client succeeds.
pub record Client : Type 0 where
  pub reference : Reference
  pub scheme : Text
  pub credentials : Option Credentials

-- The token, the server, and the files: the disk of blobs, whether the layout is there, and the
-- layout's other files.
pub record Session (S : Type 0) : Type 0 where
  pub token : Option Text
  pub server : S
  pub disk : Disk
  pub layout_exists : Bool
  pub top : Files

-- An action on the files alone.
unfoldable pub on_disk : {S A : Type 0} → Exec Error Disk A → Exec Error (Session S) A
on_disk m s = let (r, d) = m s.disk in (r, record s { disk = d })

abbrev pub basic_or_anonymous : Option Credentials → Authorization
basic_or_anonymous none = anonymous
basic_or_anonymous (some c) = basic c.username c.password

abbrev pub authorization : Option Credentials → Option Text → Authorization
authorization credentials (some token) = bearer token
authorization credentials none = basic_or_anonymous credentials

-- `error_for_status`: 4xx and 5xx are errors.
unfoldable pub error_for_status : Response → Result Error Response
error_for_status response =
    if leb 400 response.status && ltb response.status 600
    then err (http_status response.status)
    else ok response

abbrev pub bytes_of : List Bytes → Bytes
bytes_of [] = []
bytes_of (chunk ∷ chunks) = chunk ++ bytes_of chunks

-- `challenge.get(..6).is_some_and(|prefix| prefix.eq_ignore_ascii_case("Bearer"))`
unfoldable pub is_bearer : Text → Bool
unfolding take eq_ignore_ascii_case
is_bearer challenge = eq_ignore_ascii_case (take 6 challenge) (codes "Bearer")

abbrev pub service_pair : Option Text → List (Text × Text)
service_pair none = []
service_pair (some service) = (codes "service", service) ∷ []

abbrev pub scope_or_pull : Text → Option Text → Text
scope_or_pull repository (some scope) = scope
scope_or_pull repository none = codes "repository:" ++ (repository ++ codes ":pull")

abbrev pub or_else : Option Text → Option Text → Option Text
or_else (some a) b = some a
or_else none b = b

module _ {S : Type 0} (services : Services S) (client : Client) where
  unfoldable pub send_request : Request → Exec Error (Session S) Response
  send_request request s =
      let (response, server) = services.send request s.server in
      (ok_or response send_failed, record s { server = server })

  -- The url of the token service with its query.
  unfoldable pub token_url : Text → Result Error Text
  token_url challenge = elim (challenge_parameter challenge (codes "realm")) [
    | none ↦ err no_realm
    | some realm ↦
        ok_or
          (services.url_with_query realm (
            service_pair (challenge_parameter challenge (codes "service"))
            ++ (
              codes "scope",
              scope_or_pull client.reference.repository
                  (challenge_parameter challenge (codes "scope")),
            )
              ∷ []))
          bad_url
  ]

  unfoldable pub fetch_anonymous_token : Text → Exec Error (Session S) Text
  fetch_anonymous_token challenge = do
    lift (refuse_if (not (is_bearer challenge)) not_bearer)
    url ← lift (token_url challenge)
    response ← send_request (record {
      method = get;
      url = url;
      accept = none;
      content_type = none;
      authorization = basic_or_anonymous client.credentials;
      body = none;
    })
    response' ← lift (error_for_status response)
    tokens ← lift (ok_or (services.token_response (bytes_of response'.chunks)) invalid_json)
    lift (ok_or (or_else tokens.token tokens.access_token) no_token)

  -- The closure `send`
  unfoldable pub attempt :
      Method
      → Text
      → Option Text
      → Option Text
      → Option Bytes
      → Option Text
      → Exec Error (Session S) Response
  attempt method url accept content_type body token = send_request (record {
    method = method;
    url = url;
    accept = accept;
    content_type = content_type;
    authorization = authorization client.credentials token;
    body = body;
  })

  unfoldable pub set_token : Text → Session S → Session S
  set_token token s = record s { token = some token }

  -- What follows the first response.
  unfoldable pub answer :
      Method
      → Text
      → Option Text
      → Option Text
      → Option Bytes
      → Response
      → Exec Error (Session S) Response
  answer method url accept content_type body response =
      if response.status == 401
      then (do
        challenge ← lift (ok_or response.www_authenticate no_challenge)
        token ← fetch_anonymous_token challenge
        modify (set_token token)
        attempt method url accept content_type body (some token))
      else pure response

  unfoldable pub send :
      Method → Text → Option Text → Option Text → Option Bytes → Exec Error (Session S) Response
  send method url accept content_type body = do
    token ← gets (λ (s : Session S). s.token)
    response ← attempt method url accept content_type body token
    answer method url accept content_type body response

  unfoldable pub get_response : Text → Option Text → Exec Error (Session S) Response
  get_response url accept = do
    response ← send get url accept none none
    lift (error_for_status response)

  unfoldable pub get_bytes : Text → Option Text → Exec Error (Session S) Bytes
  get_bytes url accept = do response ← get_response url accept; pure (bytes_of response.chunks)

  unfoldable pub get_manifest_optional : Text → Exec Error (Session S) (Option Bytes)
  get_manifest_optional reference = do
    response ←
        send get (manifest_url client.reference reference client.scheme) (some accept_manifests)
          none none
    if response.status == 404 then pure none else (do
      response' ← lift (error_for_status response)
      pure (some (bytes_of response'.chunks)))
