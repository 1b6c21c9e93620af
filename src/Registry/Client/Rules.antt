-- ===== src/Registry/Client/Rules.antt =====
-- The requests of src/registry.rs leave the files alone.
use binport.Base.{Option}
use binport.Exec.{Exec, modify}
use binport.Exec.Keeps.{Keeps, Keeps-lift, Keeps-gets, Keeps-bind, Keeps-pure, Keeps-if}
use binport.Json.{Bytes}
use binport.Registry.Client.{
  Client, Session, on_disk, send_request, fetch_anonymous_token, attempt, set_token, answer, send,
  get_response, get_bytes,
}
use binport.Registry.Disk.{Disk}
use binport.Registry.{Error, Services, Request, Response, Method}
use binport.Text.{Text}

-- A predicate on the disk of blobs, seen as one of the session.
abbrev pub OnDisk : {S : Type 0} → (Disk → Type 0) → Session S → Type 0
OnDisk P s = P s.disk

pub on_disk-Keeps :
    {S A : Type 0} (P : Disk → Type 0) (m : Exec Error Disk A)
    → Keeps P m
    → Keeps {S = Session S} (OnDisk P) (on_disk m)
unfolding on_disk
on_disk-Keeps P m keeps = record { holds = λ s h. keeps.holds s.disk h }

module _ {S : Type 0} (services : Services S) (client : Client) (P : Disk → Type 0) where
  send_request-Keeps : (request : Request) → Keeps (OnDisk P) (send_request services client request)
  unfolding send_request
  send_request-Keeps request = record { holds = λ s h. h }

  set_token-Keeps :
      (token : Text) → Keeps (OnDisk P) (modify {E = Error} (set_token services client token))
  unfolding set_token
  set_token-Keeps token = record { holds = λ s h. h }

  fetch_anonymous_token-Keeps :
      (challenge : Text) → Keeps (OnDisk P) (fetch_anonymous_token services client challenge)
  unfolding fetch_anonymous_token
  fetch_anonymous_token-Keeps challenge =
      search (Keeps-bind, Keeps-lift, send_request-Keeps) depth 12

  attempt-Keeps :
      (method : Method) (url : Text) (accept content_type : Option Text) (body : Option Bytes)
      (token : Option Text)
      → Keeps (OnDisk P) (attempt services client method url accept content_type body token)
  unfolding attempt
  attempt-Keeps method url accept content_type body token = send_request-Keeps _

  answer-Keeps :
      (method : Method) (url : Text) (accept content_type : Option Text) (body : Option Bytes)
      (response : Response)
      → Keeps (OnDisk P) (answer services client method url accept content_type body response)
  unfolding answer
  answer-Keeps method url accept content_type body response = search (
    Keeps-if, Keeps-bind, Keeps-lift, Keeps-pure, fetch_anonymous_token-Keeps, set_token-Keeps,
    attempt-Keeps,
  )

  pub send-Keeps :
      (method : Method) (url : Text) (accept content_type : Option Text) (body : Option Bytes)
      → Keeps (OnDisk P) (send services client method url accept content_type body)
  unfolding send
  send-Keeps method url accept content_type body =
      search (Keeps-bind, Keeps-gets, attempt-Keeps, answer-Keeps)

  pub get_response-Keeps :
      (url : Text) (accept : Option Text)
      → Keeps (OnDisk P) (get_response services client url accept)
  unfolding get_response
  get_response-Keeps url accept = search (Keeps-bind, Keeps-lift, send-Keeps)

  pub get_bytes-Keeps :
      (url : Text) (accept : Option Text) → Keeps (OnDisk P) (get_bytes services client url accept)
  unfolding get_bytes
  get_bytes-Keeps url accept = search (Keeps-bind, Keeps-pure, get_response-Keeps)
