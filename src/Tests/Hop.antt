-- ===== src/Tests/Hop.antt =====
-- The frames of src/hop.rs with a coder for small requests.
use binport.Base.{
  ℕ, ◌≤◌, ◌<◌, ◌+◌, ◌^◌, Bool, true, false, List, [], ◌∷◌, ◌++◌, ◌≡◌, refl, sym, ap, arith, Option,
  none, some, ok, err, is_empty, length,
}
use binport.Json.{IsFaithful, Bytes, Coder}
use binport.Hop.Frames.{read_request-write_request, read_request_header-encode_request_header}
use binport.Hop.{
  HopTarget, ExecRequest, max_header_bytes, to_be_bytes, encode_json_header, encode_request_header,
  write_request, read_request, read_request_header, new_exec, zero_port,
}
use binport.Text.{Text, codes, len, is_ascii_control}

-- Requests without a password, whose target is one character.
encode_exec : ℕ → Text → ℕ → Text → ℕ → Option Text → Bool → List HopTarget → Option Bytes
encode_exec v (t ∷ []) port command stdin none false [] = some (v ∷ port ∷ stdin ∷ t ∷ command)
encode_exec v [] port command stdin password tty remaining = none
encode_exec v (t ∷ u ∷ target) port command stdin password tty remaining = none
encode_exec v (t ∷ []) port command stdin (some password) tty remaining = none
encode_exec v (t ∷ []) port command stdin none true remaining = none
encode_exec v (t ∷ []) port command stdin none false (next ∷ remaining) = none

decode_exec : Bytes → Option ExecRequest
decode_exec (v ∷ port ∷ stdin ∷ t ∷ command) = some (record {
  version = v;
  target = t ∷ [];
  target_port = port;
  command = command;
  stdin_bytes = stdin;
  password = none;
  tty = false;
  remaining = [];
})
decode_exec _ = none

abbrev exec_coder : Coder ExecRequest
exec_coder = record {
  to_vec = λ r.
      encode_exec r.version r.target r.target_port r.command r.stdin_bytes r.password r.tty
        r.remaining;
  from_slice = decode_exec;
}

exec_back :
    (v : ℕ) (target : Text) (port : ℕ) (command : Text) (stdin : ℕ) (password : Option Text)
    (tty : Bool) (remaining : List HopTarget) (bytes : Bytes)
    → encode_exec v target port command stdin password tty remaining ≡ some bytes
    → (decode_exec bytes
        ≡ some (record {
          version = v;
          target = target;
          target_port = port;
          command = command;
          stdin_bytes = stdin;
          password = password;
          tty = tty;
          remaining = remaining;
        }))
      × (is_empty bytes ≡ false)
unfolding encode_exec decode_exec
exec_back v (t ∷ []) port command stdin none false [] [] h = cc
exec_back v (t ∷ []) port command stdin none false [] (b ∷ bytes) h =
    (ap (λ (o : Option Bytes). elim o [ none ↦ none | some bs ↦ decode_exec bs ]) (sym h), refl)
exec_back v [] port command stdin password tty remaining bytes h = cc
exec_back v (t ∷ u ∷ target) port command stdin password tty remaining bytes h = cc
exec_back v (t ∷ []) port command stdin (some password) tty remaining bytes h = cc
exec_back v (t ∷ []) port command stdin none true remaining bytes h = cc
exec_back v (t ∷ []) port command stdin none false (next ∷ remaining) bytes h = cc

exec_coder-IsFaithful : IsFaithful exec_coder
exec_coder-IsFaithful = record {
  reads_back = λ r bytes h.
      (exec_back r.version r.target r.target_port r.command r.stdin_bytes r.password r.tty
        r.remaining bytes h).0;
  not_empty = λ r bytes h.
      (exec_back r.version r.target r.target_port r.command r.stdin_bytes r.password r.tty
        r.remaining bytes h).1;
}

abbrev request : ExecRequest
request = record {
  version = 1;
  target = codes "h";
  target_port = 22;
  command = codes "id";
  stdin_bytes = 3;
  password = none;
  tty = false;
  remaining = [];
}

new_request : new_exec (codes "h") 22 (codes "id") 3 ≡ ok request
unfolding new_exec len is_ascii_control
new_request = refl

zero_ports : new_exec (codes "h") 0 (codes "id") 3 ≡ err zero_port
unfolding new_exec len is_ascii_control
zero_ports = refl

abbrev frame : Bytes
frame = 0 ∷ 0 ∷ 0 ∷ 6 ∷ 1 ∷ 22 ∷ 3 ∷ b'h' ∷ b'i' ∷ b'd' ∷ []

encoded : encode_request_header exec_coder request ≡ ok frame
unfolding encode_request_header encode_json_header to_be_bytes encode_exec
encoded = refl

read_request_header-encode_request_header_example :
    (read_request_header exec_coder (frame ++ 7 ∷ []) ≡ ok (request, 7 ∷ []))
    × (length frame ≤ max_header_bytes + 4)
read_request_header-encode_request_header_example =
    read_request_header-encode_request_header exec_coder request frame (7 ∷ [])
      exec_coder-IsFaithful encoded

abbrev input : Bytes
input = 0 ∷ 255 ∷ 10 ∷ []

written : write_request exec_coder request input ≡ ok (frame ++ input)
unfolding write_request encode_json_header to_be_bytes encode_exec
written = refl

input_fits : length input < 2 ^ 64
input_fits = omega arith

read_request-write_request_example :
    read_request exec_coder ((frame ++ input) ++ 7 ∷ []) ≡ ok (request, input, 7 ∷ [])
read_request-write_request_example =
    read_request-write_request exec_coder request input (frame ++ input) (7 ∷ [])
      exec_coder-IsFaithful input_fits written
