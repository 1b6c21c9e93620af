-- ===== src/Hop/Frames.antt =====
-- The frames of src/hop.rs are read back as they were written, whatever follows them.
use binport.Base.{
  ℕ, suc, ◌+◌, ◌≤◌, ◌<◌, ◌%◌, ◌^◌, false, not, [], ◌∷◌, ◌++◌, ◌≡◌, refl, ◌∙◌, ap, subst, arith,
  append_assoc, some, ok, ltb, ◌==◌, is_empty, length, >>=-eq-ok, passed, ok-injective, ok_or,
  ok_or-eq-ok,
}
use binport.Json.{Bytes, Coder, IsFaithful}
use binport.Hop.Exact.{from_be_bytes-to_be_bytes, read_exact-append, read_exact-to_be_bytes}
use binport.Hop.{
  ExecRequest, RelayRequest, protocol_version, max_header_bytes, to_be_bytes, not_serialized,
  header_too_large, length_overflow, unsupported_version, stdin_mismatch, encode_json_header,
  encode_request_header, encode_relay_header, write_request, read_raw_header, parse_header,
  parse_relay, read_request_header, read_relay_header, read_request,
}

not_zero : (bytes : Bytes) → is_empty bytes ≡ false → (length bytes == 0) ≡ false
not_zero [] h = cc
not_zero (b ∷ bytes) h = ground arith

at_most : (n : ℕ) → ltb max_header_bytes n ≡ false → suc (suc (suc (suc n))) ≤ max_header_bytes + 4
at_most n h = ground arith

below : (n : ℕ) → ltb max_header_bytes n ≡ false → n < 4294967296
below n h = ground arith

read_raw_header-frame :
    (header reader : Bytes)
    → is_empty header ≡ false
    → ltb max_header_bytes (length header) ≡ false
    → read_raw_header (to_be_bytes (length header) ++ (header ++ reader)) ≡ ok (header, reader)
unfolding read_raw_header
read_raw_header-frame header reader filled small =
    rw
      (
        read_exact-to_be_bytes (length header) (header ++ reader),
        from_be_bytes-to_be_bytes (length header) (below (length header) small),
        not_zero header filled,
        small,
      )
      (read_exact-append header reader)

encode_json_header-frame :
    {A : Type 0} (coder : Coder A) (value : A) (framed reader : Bytes)
    → IsFaithful coder
    → encode_json_header coder value ≡ ok framed
    → (header : Bytes) × (coder.from_slice header ≡ some value)
      × (read_raw_header (framed ++ reader) ≡ ok (header, reader))
unfolding encode_json_header
encode_json_header-frame coder value framed reader faithful h =
    let (header, wrote, h1) = >>=-eq-ok (ok_or (coder.to_vec value) not_serialized) _ h in
    let (small, h2) = passed _ header_too_large _ h1 in
    let (fits, h3) = passed _ length_overflow _ h2 in
    let written = ok_or-eq-ok (coder.to_vec value) _ wrote in
    (
      header,
      faithful.reads_back value header written,
      subst (λ f. read_raw_header (f ++ reader) ≡ ok (header, reader)) (ok-injective h3)
          (ap read_raw_header (append_assoc (to_be_bytes (length header)) header reader)
            ∙ read_raw_header-frame header reader (faithful.not_empty value header written) small),
    )

encode_json_header-le :
    {A : Type 0} (coder : Coder A) (value : A) (framed : Bytes)
    → encode_json_header coder value ≡ ok framed
    → length framed ≤ max_header_bytes + 4
unfolding encode_json_header to_be_bytes
encode_json_header-le coder value framed h =
    let (header, wrote, h1) = >>=-eq-ok (ok_or (coder.to_vec value) not_serialized) _ h in
    let (small, h2) = passed (ltb max_header_bytes (length header)) header_too_large _ h1 in
    let (fits, h3) = passed (not (ltb (length header) (2 ^ 32))) length_overflow _ h2 in
    subst (λ f. length f ≤ max_header_bytes + 4) (ok-injective h3) (at_most (length header) small)

read_request_header-frame :
    (coder : Coder ExecRequest) (request : ExecRequest) (framed reader : Bytes)
    → IsFaithful coder
    → not (request.version == protocol_version) ≡ false
    → encode_json_header coder request ≡ ok framed
    → read_request_header coder (framed ++ reader) ≡ ok (request, reader)
unfolding read_request_header parse_header
read_request_header-frame coder request framed reader faithful current h =
    let (header, back, read) = encode_json_header-frame coder request framed reader faithful h in
    rw (read, back, current) refl

-- A relay request that was encoded is read back, and the reader stands at what follows it.
pub read_relay_header-encode_relay_header :
    (coder : Coder RelayRequest) (request : RelayRequest) (framed reader : Bytes)
    → IsFaithful coder
    → encode_relay_header coder request ≡ ok framed
    → read_relay_header coder (framed ++ reader) ≡ ok (request, reader)
unfolding encode_relay_header read_relay_header parse_relay
read_relay_header-encode_relay_header coder request framed reader faithful h =
    let (current, h1) =
      passed (not (request.version == protocol_version)) (unsupported_version request.version) _
        h in
    let (header, back, read) = encode_json_header-frame coder request framed reader faithful h1 in
    rw (read, back, current) refl

stdin_length : (stdin n : ℕ) → n < 2 ^ 64 → not (stdin == n % 2 ^ 64) ≡ false → stdin ≡ n
stdin_length stdin n small h = ground arith

-- A request that was written with its input is read back with it, and the reader stands at what
-- follows; the input is shorter than 2^64 bytes.
pub read_request-write_request :
    (coder : Coder ExecRequest) (request : ExecRequest) (input written reader : Bytes)
    → IsFaithful coder
    → length input < 2 ^ 64
    → write_request coder request input ≡ ok written
    → read_request coder (written ++ reader) ≡ ok (request, input, reader)
unfolding write_request read_request
read_request-write_request coder request input written reader faithful small h =
    let (current, h1) =
      passed (not (request.version == protocol_version)) (unsupported_version request.version) _
        h in
    let (matching, h2) =
      passed (not (request.stdin_bytes == length input % 2 ^ 64)) stdin_mismatch _ h1 in
    let (framed, encoded, h3) = >>=-eq-ok (encode_json_header coder request) _ h2 in
    subst (λ w. read_request coder (w ++ reader) ≡ ok (request, input, reader)) (ok-injective h3)
      (rw
        (
          append_assoc framed input reader,
          read_request_header-frame coder request framed (input ++ reader) faithful current encoded,
          stdin_length request.stdin_bytes (length input) small matching,
        )
        (rw (read_exact-append input reader) refl))

-- The header that is encoded is read back by the hop, and its frame holds at most 256 KiB and the
-- four bytes of the length.
pub read_request_header-encode_request_header :
    (coder : Coder ExecRequest) (request : ExecRequest) (framed reader : Bytes)
    → IsFaithful coder
    → encode_request_header coder request ≡ ok framed
    → (read_request_header coder (framed ++ reader) ≡ ok (request, reader))
      × (length framed ≤ max_header_bytes + 4)
unfolding encode_request_header
read_request_header-encode_request_header coder request framed reader faithful h =
    let (current, h1) =
      passed (not (request.version == protocol_version)) (unsupported_version request.version) _
        h in
    (
      read_request_header-frame coder request framed reader faithful current h1,
      encode_json_header-le coder request framed h1,
    )
