-- ===== src/Registry/Push/Sound.antt =====
-- What the registry has behind a push of src/registry.rs, when it keeps what it was given.
use binport.Base.{
  Option, none, true, not, Result, ap, subst, sym, ◌⊎◌, inl, inr, Bool-cases, refuse_if,
  if◌then◌else◌, List, [], ◌∷◌, ◌++◌, ◌≡◌, refl, some, ok, ok_or, ok_or-eq-ok, All, All-append,
}
use binport.Exec.Ensures.{
  Ensures, Ensures-fact, Ensures-bind, Ensures-bind_lift, Ensures-if, Ensures-weaken,
  Ensures-before, Ensures-pure,
}
use binport.Json.{Bytes}
use binport.Registry.Client.{Client, Session, get_manifest_optional}
use binport.Files
use binport.Exec.Keeps.{>>=-eq-ok, lift-eq-ok}
use binport.Text.Order.{equal_iff}
use binport.Registry.Disk.{Disk}
use binport.Registry.Pull.{blobs_of, digest_of}
use binport.Registry.Push.{
  Counts, read_blob_of, read_document, push_blob, push_blobs, push_manifest, push_manifests,
  push_all, manifest_type, read_index, is_pushed, report_pushed, push_layout,
}
use binport.Registry.Transfer.Read.{read_layout_blob}
use binport.Registry.Transfer.{blob_exists, upload_blob, put_manifest}
use binport.Registry.{
  Error, Services, not_an_index, Descriptor, Document, PushReport, invalid_json, oci_index,
}
use binport.Text.{Text, codes, equal}
use binport.Registry.Push.Requests.{
  IsRegistry, State, blob_exists-State, upload_blob-State, put_manifest-State, read_blob_of-State,
  get_manifest_optional-State,
}

All-split : {A : Type 0} (P : A → Type 0) (xs ys : List A) → All P (xs ++ ys) → All P xs × All P ys
All-split P [] ys h = (tt, h)
All-split P (x ∷ xs) ys (p, h) = let (hx, hy) = All-split P xs ys h in ((p, hx), hy)

module _ {S : Type 0} (services : Services S) (client : Client)
    (registry : IsRegistry services client) (disk : Disk) where
  push_blob-State :
      (known : List Descriptor) (d : Descriptor) (counts : Counts)
      → Ensures
          (State services client registry disk known)
          (push_blob services client d counts)
          (λ _. State services client registry disk (d ∷ known))
  unfolding push_blob
  push_blob-State known d counts =
      Ensures-bind (blob_exists services client d) _ _
        (blob_exists-State services client registry disk known d)
        (λ exists.
          Ensures-if exists _ _
            (λ there.
              Ensures-before _ (λ s p. (p.0.0, (p.1 there, p.0.1)))
                (Ensures-pure (λ _. State services client registry disk (d ∷ known)) _))
            (λ _.
              Ensures-before _ (λ s p. p.0)
                (Ensures-bind (read_blob_of services client d) _ _
                  (read_blob_of-State services client registry disk known d)
                  (λ bytes.
                    Ensures-bind (upload_blob services client d bytes) _ _
                      (Ensures-before _ (λ s p. p.0)
                        (upload_blob-State services client registry disk known d bytes))
                      (λ _.
                        Ensures-before _ (λ s p. (p.0.0, (p.1, p.0.1)))
                          (Ensures-pure (λ _. State services client registry disk (d ∷ known))
                            _))))))

  push_blobs-State :
      (known descriptors : List Descriptor) (counts : Counts)
      → Ensures
          (State services client registry disk known)
          (push_blobs services client descriptors counts)
          (λ _ s.
            State services client registry disk known s
            × All (λ (d : Descriptor). registry.has d.digest s.server) descriptors)
  unfolding push_blobs
  push_blobs-State known [] counts =
      Ensures-before _ (λ s p. (p, tt))
        (Ensures-pure
          (λ _ s.
            State services client registry disk known s
            × All (λ (d : Descriptor). registry.has d.digest s.server) [])
          counts)
  push_blobs-State known (d ∷ descriptors) counts =
      Ensures-bind (push_blob services client d counts) _ _ (push_blob-State known d counts)
        (λ counts'.
          Ensures-weaken _ (push_blobs-State (d ∷ known) descriptors counts')
            (λ _ s p. ((p.0.0, p.0.1.1), (p.0.1.0, p.1))))

  -- The manifest is in the layout, and the registry has every blob that it lists.
  pub record IsPushed (server : S) (m : Descriptor) : Type 0 where
    pub bytes : Bytes
    pub document : Document
    pub read : read_layout_blob services.hash_bytes m disk ≡ ok bytes
    pub decoded : services.document bytes ≡ some document
    pub blobs : All (λ (d : Descriptor). registry.has d.digest server) (blobs_of document)

  push_manifest-State :
      (known : List Descriptor) (m : Descriptor) (counts : Counts)
      → Ensures
          (State services client registry disk known)
          (push_manifest services client m counts)
          (λ _ s. State services client registry disk known s × IsPushed s.server m)
  unfolding push_manifest read_document
  push_manifest-State known m counts =
      Ensures-bind (read_blob_of services client m) _ _
        (read_blob_of-State services client registry disk known m)
        (λ bytes. Ensures-fact _ (λ read.
          Ensures-bind_lift (ok_or (services.document bytes) invalid_json) _ (λ document decoded.
            Ensures-bind (push_blobs services client (blobs_of document) counts) _ _
              (push_blobs-State known (blobs_of document) counts)
              (λ counts'.
                Ensures-bind
                  (put_manifest services client m.digest (manifest_type document.media_type) bytes)
                  _ _
                  (Ensures-before _
                    (λ s p. (p.0.0, All-append _ (blobs_of document) known p.1 p.0.1))
                    (put_manifest-State services client registry disk (blobs_of document ++ known)
                      m.digest (manifest_type document.media_type) bytes))
                  (λ _.
                    Ensures-before _
                      (λ s p.
                        let (blobs, had) = All-split _ (blobs_of document) known p.1 in
                        (
                          (p.0, had),
                          record {
                            bytes = bytes;
                            document = document;
                            read = read;
                            decoded = ok_or-eq-ok (services.document bytes) invalid_json decoded;
                            blobs = blobs;
                          },
                        ))
                      (Ensures-pure
                        (λ _ s. State services client registry disk known s × IsPushed s.server m)
                        counts'))))))

  push_manifests-State :
      (known manifests : List Descriptor) (counts : Counts)
      → Ensures
          (State services client registry disk known)
          (push_manifests services client manifests counts)
          (λ _ s. State services client registry disk known s × All (IsPushed s.server) manifests)
  unfolding push_manifests
  push_manifests-State known [] counts =
      Ensures-before _ (λ s p. (p, tt))
        (Ensures-pure
          (λ _ s. State services client registry disk known s × All (IsPushed s.server) []) counts)
  push_manifests-State known (m ∷ manifests) counts =
      Ensures-bind (push_manifest services client m counts) _ _ (push_manifest-State known m counts)
        (λ counts'. record {
          holds = λ s s' c (state, pushed) e.
              let blobs = blobs_of pushed.document in
              let (end, others) =
                (push_manifests-State (blobs ++ known) manifests counts').holds s s' c
                  (state.0, All-append _ blobs known pushed.blobs state.1) e in
              let (kept, had) = All-split _ blobs known end.1 in
              (
                (end.0, had),
                (
                  record {
                    bytes = pushed.bytes;
                    document = pushed.document;
                    read = pushed.read;
                    decoded = pushed.decoded;
                    blobs = kept;
                  },
                  others,
                ),
              );
        })

  -- All the blobs of the manifests.
  gathered : (server : S) (ms : List Descriptor) → All (IsPushed server) ms → List Descriptor
  gathered server [] _ = []
  gathered server (m ∷ ms) (pushed, rest) = blobs_of pushed.document ++ gathered server ms rest

  gathered-All :
      (server : S) (ms : List Descriptor) (h : All (IsPushed server) ms)
      → All (λ (d : Descriptor). registry.has d.digest server) (gathered server ms h)
  unfolding gathered
  gathered-All server [] _ = tt
  gathered-All server (m ∷ ms) (pushed, rest) =
      All-append _ (blobs_of pushed.document) (gathered server ms rest) pushed.blobs
        (gathered-All server ms rest)

  still-IsPushed :
      (server server' : S) (ms : List Descriptor) (h : All (IsPushed server) ms)
      → All (λ (d : Descriptor). registry.has d.digest server') (gathered server ms h)
      → All (IsPushed server') ms
  unfolding gathered
  still-IsPushed server server' [] _ had = tt
  still-IsPushed server server' (m ∷ ms) (pushed, rest) had =
      let (blobs, others) = All-split _ (blobs_of pushed.document) (gathered server ms rest) had in
      (
        record {
          bytes = pushed.bytes;
          document = pushed.document;
          read = pushed.read;
          decoded = pushed.decoded;
          blobs = blobs;
        },
        still-IsPushed server server' ms rest others,
      )

  put_manifest-IsPushed :
      (ms : List Descriptor) (reference media_type : Text) (bytes : Bytes)
      → Ensures
          (λ s. State services client registry disk [] s × All (IsPushed s.server) ms)
          (put_manifest services client reference media_type bytes)
          (λ _ s. All (IsPushed s.server) ms)
  put_manifest-IsPushed ms reference media_type bytes = record {
    holds = λ s s' a (state, pushed) e.
        let end =
          (put_manifest-State services client registry disk (gathered s.server ms pushed) reference
              media_type bytes).holds
            s s' a (state.0, gathered-All s.server ms pushed) e in
        still-IsPushed s.server s'.server ms pushed end.1;
  }

  push_all-Ensures :
      (index : Document) (bytes : Bytes)
      → Ensures
          (State services client registry disk [])
          (push_all services client index bytes)
          (λ _ s. All (IsPushed s.server) index.manifests)
  unfolding push_all
  push_all-Ensures index bytes =
      Ensures-bind
        (push_manifests services client index.manifests (record { uploaded = 0; existing = 0 })) _ _
        (push_manifests-State [] index.manifests (record { uploaded = 0; existing = 0 }))
        (λ counts.
          Ensures-bind (put_manifest services client client.reference.reference oci_index bytes) _ _
            (put_manifest-IsPushed index.manifests client.reference.reference oci_index bytes)
            (λ _. Ensures-pure (λ _ s. All (IsPushed s.server) index.manifests) _))

push_all-IsPushed :
    {S : Type 0} (services : Services S) (client : Client) (registry : IsRegistry services client)
    (index : Document) (bytes : Bytes) (s s' : Session S) (report : PushReport)
    → push_all services client index bytes s ≡ (ok report, s')
    → All (IsPushed services client registry s.disk s'.server) index.manifests
push_all-IsPushed services client registry index bytes s s' report h =
    (push_all-Ensures services client registry s.disk index bytes).holds s s' report (refl, tt) h

read_index-eq-ok :
    {S : Type 0} (services : Services S) (client : Client) (s s' : Session S) (bytes : Bytes)
    → read_index services client s ≡ (ok bytes, s')
    → (Files.read (codes "index.json") s.top ≡ some bytes) × (s' ≡ s)
unfolding read_index
read_index-eq-ok {S} services client s s' bytes h = (
  ok_or-eq-ok (Files.read (codes "index.json") s.top) _
      (ap (λ (out : Result Error Bytes × Session S). out.0) h),
  sym (ap (λ (out : Result Error Bytes × Session S). out.1) h),
)

get_manifest_optional-disk :
    {S : Type 0} (services : Services S) (client : Client) (registry : IsRegistry services client)
    (reference : Text) (s s' : Session S) (found : Option Bytes)
    → get_manifest_optional services client reference s ≡ (ok found, s')
    → s'.disk ≡ s.disk
get_manifest_optional-disk services client registry reference s s' found h =
    ((get_manifest_optional-State services client registry s.disk [] reference).holds s s' found
      (refl, tt) h).0

-- Before the push the registry answered the request for the tag with an index of this digest.
pub record IsThere {S : Type 0} (services : Services S) (client : Client) (bytes : Bytes)
    (s : Session S) : Type 0 where
  pub found : Bytes
  pub next : Session S
  pub answered :
      get_manifest_optional services client client.reference.reference s ≡ (ok (some found), next)
  pub same : digest_of services.hash_bytes found ≡ digest_of services.hash_bytes bytes

-- What a push of the index in the layout has done.
pub record IsDone {S : Type 0} (services : Services S) (client : Client)
    (registry : IsRegistry services client) (s s' : Session S) : Type 0 where
  pub bytes : Bytes
  pub index : Document
  pub read : Files.read (codes "index.json") s.top ≡ some bytes
  pub decoded : services.document bytes ≡ some index
  pub outcome :
      IsThere services client bytes s
      ⊎ All (IsPushed services client registry s.disk s'.server) index.manifests

is_pushed-IsThere :
    {S : Type 0} (services : Services S) (client : Client) (bytes : Bytes) (s next : Session S)
    (existing : Option Bytes)
    → get_manifest_optional services client client.reference.reference s ≡ (ok existing, next)
    → is_pushed services.hash_bytes (digest_of services.hash_bytes bytes) existing ≡ true
    → IsThere services client bytes s
is_pushed-IsThere services client bytes s next none h there = cc
is_pushed-IsThere services client bytes s next (some found) h there = record {
  found = found;
  next = next;
  answered = h;
  same = (equal_iff _ _).0 there;
}

-- When a push succeeds, the layout has an index that decodes; and either the registry answered the
-- request for the tag with an index of the same digest, or every manifest of the
-- index is in the layout and decodes, and the registry has each blob that it lists, its configuration
-- and its layers, when it keeps the blobs it has, answers 200 to a HEAD request only for those, and
-- has what it accepted.
pub push_layout-IsDone :
    {S : Type 0} (services : Services S) (client : Client) (registry : IsRegistry services client)
    (s s' : Session S) (report : PushReport)
    → push_layout services client s ≡ (ok report, s')
    → IsDone services client registry s s'
unfolding push_layout read_document
push_layout-IsDone {S} services client registry s s' report h =
    let (bytes, s1, there, h1) = >>=-eq-ok (read_index services client) _ s h in
    let (read, unchanged) = read_index-eq-ok services client s s1 bytes there in
    let (index, decoded, h2) =
      lift-eq-ok (ok_or (services.document bytes) invalid_json) _ s (rw unchanged at h1) in
    let (u, is_index, h3) =
      lift-eq-ok (refuse_if (not (equal index.media_type oci_index)) not_an_index) _ s h2 in
    let (existing, s2, answered, h4) =
      >>=-eq-ok (get_manifest_optional services client client.reference.reference) _ s h3 in
    record {
      bytes = bytes;
      index = index;
      read = read;
      decoded = ok_or-eq-ok (services.document bytes) invalid_json decoded;
      outcome = outcome s2 index bytes existing answered h4;
    }
  where
    outcome :
        (s2 : Session S) (index : Document) (bytes : Bytes) (existing : Option Bytes)
        → get_manifest_optional services client client.reference.reference s ≡ (ok existing, s2)
        → (if is_pushed services.hash_bytes (digest_of services.hash_bytes bytes) existing
              then report_pushed services client index bytes
              else push_all services client index bytes)
            s2
          ≡ (ok report, s')
        → IsThere services client bytes s
          ⊎ All (IsPushed services client registry s.disk s'.server) index.manifests
    outcome s2 index bytes existing answered h =
        elim (Bool-cases
          (is_pushed services.hash_bytes (digest_of services.hash_bytes bytes) existing)) [
            | inl there ↦ inl (is_pushed-IsThere services client bytes s s2 existing answered there)
            | inr new ↦ inr (
                subst
                  (λ disk. All (IsPushed services client registry disk s'.server) index.manifests)
                  (get_manifest_optional-disk services client registry _ s s2 existing answered)
                  (push_all-IsPushed services client registry index bytes s2 s' report
                    (rw new at h)))
          ]
