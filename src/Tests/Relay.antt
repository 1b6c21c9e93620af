-- ===== src/Tests/Relay.antt =====
-- The relay requests of src/hop.rs with a coder for small requests.
use binport.Base.{
  ℕ, false, List, [], ◌∷◌, ◌++◌, ◌≡◌, refl, sym, ap, Option, none, some, ok, err, is_empty,
}
use binport.Json.{IsFaithful, Bytes, Coder}
use binport.Hop.Frames.{read_relay_header-encode_relay_header}
use binport.Hop.{
  HopTarget, RelayRequest, to_be_bytes, encode_json_header, encode_relay_header, read_relay_header,
  new_relay, invalid_remote_host,
}
use binport.Text.{Text, codes, is_ascii_control}

-- Requests without a password, whose hosts are one character.
encode : ℕ → Text → ℕ → Text → ℕ → Option Text → List HopTarget → Option Bytes
encode v (t ∷ []) port (r ∷ []) remote none [] = some (v ∷ port ∷ remote ∷ t ∷ r ∷ [])
encode v [] port host remote password remaining = none
encode v (t ∷ u ∷ target) port host remote password remaining = none
encode v (t ∷ []) port [] remote password remaining = none
encode v (t ∷ []) port (r ∷ s ∷ host) remote password remaining = none
encode v (t ∷ []) port (r ∷ []) remote (some password) remaining = none
encode v (t ∷ []) port (r ∷ []) remote none (next ∷ remaining) = none

decode : Bytes → Option RelayRequest
decode (v ∷ port ∷ remote ∷ t ∷ r ∷ []) = some (record {
  version = v;
  target = t ∷ [];
  target_port = port;
  remote_host = r ∷ [];
  remote_port = remote;
  password = none;
  remaining = [];
})
decode _ = none

abbrev coder : Coder RelayRequest
coder = record {
  to_vec = λ r.
      encode r.version r.target r.target_port r.remote_host r.remote_port r.password r.remaining;
  from_slice = decode;
}

reads_back :
    (v : ℕ) (target : Text) (port : ℕ) (host : Text) (remote : ℕ) (password : Option Text)
    (remaining : List HopTarget) (bytes : Bytes)
    → encode v target port host remote password remaining ≡ some bytes
    → (decode bytes
        ≡ some (record {
          version = v;
          target = target;
          target_port = port;
          remote_host = host;
          remote_port = remote;
          password = password;
          remaining = remaining;
        }))
      × (is_empty bytes ≡ false)
unfolding encode decode
reads_back v (t ∷ []) port (r ∷ []) remote none [] [] h = cc
reads_back v (t ∷ []) port (r ∷ []) remote none [] (b ∷ bytes) h =
    (ap (λ (o : Option Bytes). elim o [ none ↦ none | some bs ↦ decode bs ]) (sym h), refl)
reads_back v [] port host remote password remaining bytes h = cc
reads_back v (t ∷ u ∷ target) port host remote password remaining bytes h = cc
reads_back v (t ∷ []) port [] remote password remaining bytes h = cc
reads_back v (t ∷ []) port (r ∷ s ∷ host) remote password remaining bytes h = cc
reads_back v (t ∷ []) port (r ∷ []) remote (some password) remaining bytes h = cc
reads_back v (t ∷ []) port (r ∷ []) remote none (next ∷ remaining) bytes h = cc

coder-IsFaithful : IsFaithful coder
coder-IsFaithful = record {
  reads_back = λ r bytes h.
      (reads_back r.version r.target r.target_port r.remote_host r.remote_port r.password
        r.remaining bytes h).0;
  not_empty = λ r bytes h.
      (reads_back r.version r.target r.target_port r.remote_host r.remote_port r.password
        r.remaining bytes h).1;
}

abbrev request : RelayRequest
request = record {
  version = 1;
  target = codes "h";
  target_port = 22;
  remote_host = codes "d";
  remote_port = 80;
  password = none;
  remaining = [];
}

new_request : new_relay (codes "h") 22 (codes "d") 80 ≡ ok request
unfolding new_relay is_ascii_control
new_request = refl

no_host : new_relay (codes "h") 22 [] 80 ≡ err invalid_remote_host
unfolding new_relay is_ascii_control
no_host = refl

abbrev frame : Bytes
frame = 0 ∷ 0 ∷ 0 ∷ 5 ∷ 1 ∷ 22 ∷ 80 ∷ b'h' ∷ b'd' ∷ []

encoded : encode_relay_header coder request ≡ ok frame
unfolding encode_relay_header encode_json_header to_be_bytes encode
encoded = refl

read_relay_header-encode_relay_header_example :
    read_relay_header coder (frame ++ 7 ∷ []) ≡ ok (request, 7 ∷ [])
read_relay_header-encode_relay_header_example =
    read_relay_header-encode_relay_header coder request frame (7 ∷ []) coder-IsFaithful encoded
