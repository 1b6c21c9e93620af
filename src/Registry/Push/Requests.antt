-- ===== src/Registry/Push/Requests.antt =====
-- The requests of a push of src/registry.rs, to a registry that keeps its blobs.
use binport.Base.{
  Bool, true, false, List, ◌≡◌, sym, ◌∙◌, ap, subst, Option, none, some, Result, ok, ok_or,
  ok_or-eq-ok, ◌==◌, All, All-map, ==_iff,
}
use binport.Exec.Ensures.{
  Ensures, Ensures-bind, Ensures-bind_lift, Ensures-if, Ensures-before, Ensures-pure,
}
use binport.Exec.Keeps.{Keeps, Keeps-lift, Keeps-gets, Keeps-bind}
use binport.Exec.{Exec, modify, pure, gets}
use binport.Json.{Bytes}
use binport.Registry.Client.{
  get_manifest_optional, bytes_of, Client, Session, send_request, fetch_anonymous_token, attempt,
  set_token, answer, send, authorization, error_for_status,
}
use binport.Registry.Digest.{verify_bytes}
use binport.Registry.Disk.{Disk}
use binport.Registry.Push.{read_blob_of}
use binport.Registry.Reference.{blob_url, uploads_url, manifest_url}
use binport.Registry.Transfer.Read.{read_layout_blob}
use binport.Registry.Transfer.{blob_exists, upload_blob, upload_url, put_manifest, octet_stream}
use binport.Registry.{
  Error, Services, Request, Response, Descriptor, Method, get, head, put, post, Authorization,
  no_challenge, accept_manifests,
}
use binport.Text.{Text}

abbrev pub request_of :
    Method → Text → Option Text → Option Text → Option Bytes → Authorization → Request
request_of method url accept content_type body auth = record {
  method = method;
  url = url;
  accept = accept;
  content_type = content_type;
  authorization = auth;
  body = body;
}

-- A registry that keeps its blobs: `has digest s` says that a server in the state `s` has the blob. It
-- has it when it answers 200 to a HEAD request, and when it accepts the bytes at the place of an upload.
pub record IsRegistry {S : Type 0} (services : Services S) (client : Client) : Type 1 where
  pub has : Text → S → Type 0
  pub keeps :
      (request : Request) (s : S) (digest : Text)
      → has digest s
      → has digest (services.send request s).1
  pub found :
      (auth : Authorization) (d : Descriptor) (s s' : S) (response : Response)
      → services.send
          (request_of head (blob_url client.reference d.digest client.scheme) none none none auth)
          s
        ≡ (some response, s')
      → response.status ≡ 200
      → has d.digest s'
  pub stored :
      (auth : Authorization) (d : Descriptor) (place : Response) (url : Text) (bytes : Bytes)
      (s s' : S) (response response' : Response)
      → upload_url services client d place ≡ ok url
      → services.send (request_of put url none (some octet_stream) (some bytes) auth) s
        ≡ (some response, s')
      → error_for_status response ≡ ok response'
      → has d.digest s'

pair_eq : {A B : Type 0} (p : A × B) (a : A) (b : B) → p.0 ≡ a → p.1 ≡ b → p ≡ (a, b)
pair_eq p a b h k = cc

Keeps-Ensures :
    {S A : Type 0} {P : S → Type 0} (m : Exec Error S A) → Keeps P m → Ensures P m (λ _. P)
Keeps-Ensures {S} {A} {P} m h = record {
  holds = λ s s' a p e. subst P (ap (λ (out : Result Error A × S). out.1) e) (h.holds s p);
}

module _ {S : Type 0} (services : Services S) (client : Client)
    (registry : IsRegistry services client) (disk : Disk) (known : List Descriptor) where
  -- The files of the layout are as they were, and the registry has the blobs in `known`.
  abbrev pub State : Session S → Type 0
  State s = (s.disk ≡ disk) × All (λ (d : Descriptor). registry.has d.digest s.server) known

  send_request-State : (request : Request) → Keeps State (send_request services client request)
  unfolding send_request
  send_request-State request = record {
    holds = λ s (same, had).
        (same, All-map (λ d h. registry.keeps request s.server d.digest h) known had);
  }

  set_token-State :
      (token : Text) → Keeps State (modify {E = Error} (set_token services client token))
  unfolding set_token
  set_token-State token = record { holds = λ s h. h }

  fetch_anonymous_token-State :
      (challenge : Text) → Keeps State (fetch_anonymous_token services client challenge)
  unfolding fetch_anonymous_token
  fetch_anonymous_token-State challenge =
      search (Keeps-bind, Keeps-lift, send_request-State) depth 12

  -- What a response says of the state that it came with.
  abbrev Answers : Request → (Response → S → Type 0) → Type 0
  Answers request R =
      (s s' : S) (response : Response)
      → services.send request s ≡ (some response, s')
      → R response s'

  send_request-Answers :
      (request : Request) (R : Response → S → Type 0)
      → Answers request R
      → Ensures State
          (send_request services client request)
          (λ response s. State s × R response s.server)
  unfolding send_request
  send_request-Answers request R answers = record {
    holds = λ s s' response p e.
        let kept =
          subst State (ap (λ (out : Result Error Response × Session S). out.1) e)
            ((send_request-State request).holds s p) in
        let got =
          ok_or-eq-ok (services.send request s.server).0 _
            (ap (λ (out : Result Error Response × Session S). out.0) e) in
        let server = ap (λ (out : Result Error Response × Session S). out.1.server) e in
        (
          kept,
          answers s.server s'.server response
              (pair_eq (services.send request s.server) (some response) s'.server got server),
        );
  }

  -- What every answer to the request says of the state, the answer that `send` returns says too.
  send-State :
      (method : Method) (url : Text) (accept content_type : Option Text) (body : Option Bytes)
      (R : Response → S → Type 0)
      → ((auth : Authorization) → Answers (request_of method url accept content_type body auth) R)
      → Ensures State
          (send services client method url accept content_type body)
          (λ response s. State s × R response s.server)
  unfolding send answer attempt
  send-State method url accept content_type body R answers =
      let once : (token : Option Text)
          → Ensures State (attempt services client method url accept content_type body token)
              (λ response s. State s × R response s.server) =
        λ token. send_request-Answers _ R (answers (authorization client.credentials token)) in
      Ensures-bind (gets (λ (s : Session S). s.token)) _ (λ _. State)
        (Keeps-Ensures (gets (λ (s : Session S). s.token)) (Keeps-gets _))
        (λ token.
          Ensures-bind (attempt services client method url accept content_type body token) _
            (λ response s. State s × R response s.server) (once token)
            (λ response.
              Ensures-if (response.status == 401) _ (pure response)
                (λ _.
                  Ensures-before _ (λ s p. p.0)
                    (Ensures-bind_lift (ok_or response.www_authenticate no_challenge) _
                      (λ challenge _.
                        Ensures-bind (fetch_anonymous_token services client challenge) _
                          (λ _. State) (Keeps-Ensures _ (fetch_anonymous_token-State challenge))
                          (λ token'.
                            Ensures-bind (modify {E = Error} (set_token services client token')) _
                              (λ _. State) (Keeps-Ensures _ (set_token-State token'))
                              (λ _. once (some token'))))))
                (λ _. Ensures-pure (λ response s. State s × R response s.server) response)))

  pub blob_exists-State :
      (d : Descriptor)
      → Ensures State
          (blob_exists services client d)
          (λ exists s. State s × (exists ≡ true → registry.has d.digest s.server))
  unfolding blob_exists
  blob_exists-State d =
      Ensures-bind
        (send services client head (blob_url client.reference d.digest client.scheme) none none
          none)
        _ (λ response s. State s × (response.status ≡ 200 → registry.has d.digest s.server))
        (send-State head _ none none none
          (λ response s. response.status ≡ 200 → registry.has d.digest s)
          (λ auth s s' response e is. registry.found auth d s s' response e is))
        (λ response.
          Ensures-if (response.status == 200) _ _
            (λ here.
              Ensures-before _ (λ s p. (p.0, λ _. p.1 ((==_iff response.status 200).0 here)))
                (Ensures-pure Existing true))
            (λ _.
              Ensures-if (response.status == 404) _ _ (λ _. missing)
                (λ _. Ensures-bind_lift (error_for_status response) _ (λ _ _. missing))))
    where
      Existing : Bool → Session S → Type 0
      Existing exists s = State s × (exists ≡ true → registry.has d.digest s.server)

      missing :
          {R : Session S → Type 0} → Ensures (λ s. State s × R s) (pure {E = Error} false) Existing
      missing = Ensures-before _ (λ s p. (p.0, λ h. cc)) (Ensures-pure Existing false)

  pub upload_blob-State :
      (d : Descriptor) (bytes : Bytes)
      → Ensures State
          (upload_blob services client d bytes)
          (λ _ s. State s × registry.has d.digest s.server)
  unfolding upload_blob
  upload_blob-State d bytes = Ensures-bind_lift (verify_bytes services.hash_bytes bytes d) _ (λ _ _.
      Ensures-bind
        (send services client post (uploads_url client.reference client.scheme) none none none) _
        (λ _ s. State s × Unit {0})
        (send-State post _ none none none (λ _ _. Unit) (λ auth s s' response e. tt))
        (λ response. Ensures-bind_lift (error_for_status response) _ (λ place _.
          Ensures-bind_lift (upload_url services client d place) _ (λ url at_url.
            Ensures-bind (send services client put url none (some octet_stream) (some bytes)) _
              (λ answer s. State s × Accepted answer s.server)
              (Ensures-before _ (λ s p. p.0)
                (send-State put url none (some octet_stream) (some bytes) Accepted
                  (λ auth s s' response e response' fine.
                    registry.stored auth d place url bytes s s' response response' at_url e fine)))
              (λ answer. Ensures-bind_lift (error_for_status answer) _ (λ answer' fine.
                Ensures-before _ (λ s p. (p.0, p.1 answer' fine))
                  (Ensures-pure (λ _ s. State s × registry.has d.digest s.server) tt)))))))
    where
      Accepted : Response → S → Type 0
      Accepted answer s =
          (answer' : Response) → error_for_status answer ≡ ok answer' → registry.has d.digest s

  pub put_manifest-State :
      (reference media_type : Text) (bytes : Bytes)
      → Ensures State (put_manifest services client reference media_type bytes) (λ _. State)
  unfolding put_manifest
  put_manifest-State reference media_type bytes =
      Ensures-bind
        (send services client put (manifest_url client.reference reference client.scheme) none
          (some media_type) (some bytes))
        _ (λ _ s. State s × Unit {0})
        (send-State put _ none (some media_type) (some bytes) (λ _ _. Unit)
          (λ auth s s' response e. tt))
        (λ answer.
          Ensures-bind_lift (error_for_status answer) _
            (λ _ _. Ensures-before _ (λ s p. p.0) (Ensures-pure (λ _. State) tt)))

  pub get_manifest_optional-State :
      (reference : Text)
      → Ensures State (get_manifest_optional services client reference) (λ _. State)
  unfolding get_manifest_optional
  get_manifest_optional-State reference =
      Ensures-bind
        (send services client get (manifest_url client.reference reference client.scheme)
          (some accept_manifests) none none)
        _ (λ _ s. State s × Unit {0})
        (send-State get _ (some accept_manifests) none none (λ _ _. Unit)
          (λ auth s s' response e. tt))
        (λ response.
          Ensures-if (response.status == 404) _ _ (λ _. answered none)
            (λ _.
              Ensures-bind_lift (error_for_status response) _
                (λ response' _. answered (some (bytes_of response'.chunks)))))
    where
      answered :
          {R : Session S → Type 0} (found : Option Bytes)
          → Ensures (λ s. State s × R s) (pure {E = Error} found) (λ _. State)
      answered found = Ensures-before _ (λ s p. p.0) (Ensures-pure (λ _. State) found)

  -- The bytes are those that the files of the layout have.
  pub read_blob_of-State :
      (d : Descriptor)
      → Ensures State
          (read_blob_of services client d)
          (λ bytes s. State s × (read_layout_blob services.hash_bytes d disk ≡ ok bytes))
  unfolding read_blob_of
  read_blob_of-State d = record {
    holds = λ s s' bytes p e. (
      subst State (ap (λ (out : Result Error Bytes × Session S). out.1) e) p,
      ap (λ x. read_layout_blob services.hash_bytes d x) (sym p.0)
          ∙ ap (λ (out : Result Error Bytes × Session S). out.0) e,
    );
  }
