-- ===== src/Hop.antt =====
-- The requests that are sent to a relay hop and their frames: src/hop.rs. The coder of `serde_json`
-- is an argument, and a reader is the list of the bytes that it has still to give. A `usize` has
-- 64 bits.
pub mod Exact
pub mod Frames
pub mod Route
pub mod Checksum
use binport.Base.{
  ℕ, ◌+◌, ◌*◌, ◌/◌, ◌%◌, ◌^◌, ◌-◌, Bool, true, false, not, ◌||◌, List, [], ◌∷◌, ◌++◌, ◌≡◌, Option,
  none, some, Result, ok, err, ◌>>=◌, ◌>>◌, ◌==◌, refuse_if, ok_or, if◌then◌else◌, ltb, leb, any,
  is_empty, length,
}
use binport.Json.{Bytes, Coder}
use binport.Text.{Text, len, is_ascii_control}

abbrev pub protocol_version : ℕ
protocol_version = 1

abbrev pub max_header_bytes : ℕ
max_header_bytes = 262144

pub record HopTarget : Type 0 where
  pub target : Text
  pub port : ℕ
  pub password : Option Text

pub record ExecRequest : Type 0 where
  pub version : ℕ
  pub target : Text
  pub target_port : ℕ
  pub command : Text
  pub stdin_bytes : ℕ
  pub password : Option Text
  pub tty : Bool
  pub remaining : List HopTarget

pub record RelayRequest : Type 0 where
  pub version : ℕ
  pub target : Text
  pub target_port : ℕ
  pub remote_host : Text
  pub remote_port : ℕ
  pub password : Option Text
  pub remaining : List HopTarget

-- One constructor for each message, with the values that the message holds.
pub data Error : Type 0 where
  invalid_target : Error
  invalid_remote_host : Error
  zero_port : Error
  invalid_command : Error
  unsupported_version : ℕ → Error
  stdin_mismatch : Error
  not_serialized : Error
  header_too_large : Error
  length_overflow : Error
  unexpected_end : Error
  invalid_header_length : ℕ → Error
  not_deserialized : Error

abbrev pub is_bad_host : Text → Bool
is_bad_host value = is_empty value || any is_ascii_control value

-- `RelayRequest::new`
unfoldable pub new_relay : Text → ℕ → Text → ℕ → Result Error RelayRequest
unfolding is_ascii_control
new_relay target target_port remote_host remote_port = do
  refuse_if (is_bad_host target) invalid_target
  refuse_if (is_bad_host remote_host) invalid_remote_host
  refuse_if (target_port == 0 || remote_port == 0) zero_port
  ok (record {
    version = protocol_version;
    target = target;
    target_port = target_port;
    remote_host = remote_host;
    remote_port = remote_port;
    password = none;
    remaining = [];
  })

-- `ExecRequest::new`
unfoldable pub new_exec : Text → ℕ → Text → ℕ → Result Error ExecRequest
unfolding is_ascii_control len
new_exec target target_port command stdin_bytes = do
  refuse_if (is_bad_host target) invalid_target
  refuse_if (target_port == 0) zero_port
  refuse_if (is_empty command || ltb (max_header_bytes / 2) (len command)) invalid_command
  ok (record {
    version = protocol_version;
    target = target;
    target_port = target_port;
    command = command;
    stdin_bytes = stdin_bytes;
    password = none;
    tty = false;
    remaining = [];
  })

unfoldable pub new_tty : Text → ℕ → Text → Result Error ExecRequest
unfolding new_exec
new_tty target target_port command = do
  request ← new_exec target target_port command 0
  ok (record request { tty = true })

-- `u32::to_be_bytes` and `u32::from_be_bytes`
unfoldable pub to_be_bytes : ℕ → Bytes
to_be_bytes n = n / 16777216 % 256 ∷ n / 65536 % 256 ∷ n / 256 % 256 ∷ n % 256 ∷ []

unfoldable pub from_be_bytes : Bytes → ℕ
from_be_bytes (a ∷ b ∷ c ∷ d ∷ []) = a * 16777216 + b * 65536 + c * 256 + d
from_be_bytes _ = 0

-- `reader.read_exact` into a buffer of `n` bytes: the bytes and the reader behind them.
unfoldable pub read_exact : ℕ → Bytes → Result Error (Bytes × Bytes)
read_exact n [] = if n == 0 then ok ([], []) else err unexpected_end
read_exact n (b ∷ reader) =
    let rest = read_exact (n - 1) reader in
    if n == 0 then ok ([], b ∷ reader) else (do (xs, reader') ← rest; ok (b ∷ xs, reader'))

-- `encode_json_header`
unfoldable pub encode_json_header : {A : Type 0} → Coder A → A → Result Error Bytes
encode_json_header coder value = do
  header ← ok_or (coder.to_vec value) not_serialized
  refuse_if (ltb max_header_bytes (length header)) header_too_large
  refuse_if (not (ltb (length header) (2 ^ 32))) length_overflow
  ok (to_be_bytes (length header) ++ header)

unfoldable pub encode_request_header : Coder ExecRequest → ExecRequest → Result Error Bytes
encode_request_header coder request = do
  refuse_if (not (request.version == protocol_version)) (unsupported_version request.version)
  encode_json_header coder request

unfoldable pub encode_relay_header : Coder RelayRequest → RelayRequest → Result Error Bytes
encode_relay_header coder request = do
  refuse_if (not (request.version == protocol_version)) (unsupported_version request.version)
  encode_json_header coder request

-- The bytes that `write_request` writes, which are those of `encode_request`.
unfoldable pub write_request : Coder ExecRequest → ExecRequest → Bytes → Result Error Bytes
write_request coder request input = do
  refuse_if (not (request.version == protocol_version)) (unsupported_version request.version)
  refuse_if (not (request.stdin_bytes == length input % 2 ^ 64)) stdin_mismatch
  framed ← encode_json_header coder request
  ok (framed ++ input)

-- `read_raw_header_async`
unfoldable pub read_raw_header : Bytes → Result Error (Bytes × Bytes)
read_raw_header reader = do
  (prefix, reader') ← read_exact 4 reader
  let header_length = from_be_bytes prefix
  refuse_if (header_length == 0 || ltb max_header_bytes header_length)
      (invalid_header_length header_length)
  read_exact header_length reader'

-- `parse_header`
unfoldable pub parse_header : Coder ExecRequest → Bytes → Result Error ExecRequest
parse_header coder header = do
  request ← ok_or (coder.from_slice header) not_deserialized
  refuse_if (not (request.version == protocol_version)) (unsupported_version request.version)
  ok request

unfoldable pub parse_relay : Coder RelayRequest → Bytes → Result Error RelayRequest
parse_relay coder header = do
  request ← ok_or (coder.from_slice header) not_deserialized
  refuse_if (not (request.version == protocol_version)) (unsupported_version request.version)
  ok request

unfoldable pub read_request_header : Coder ExecRequest → Bytes → Result Error (ExecRequest × Bytes)
read_request_header coder reader = do
  (header, reader') ← read_raw_header reader
  request ← parse_header coder header
  ok (request, reader')

unfoldable pub read_relay_header : Coder RelayRequest → Bytes → Result Error (RelayRequest × Bytes)
read_relay_header coder reader = do
  (header, reader') ← read_raw_header reader
  request ← parse_relay coder header
  ok (request, reader')

unfoldable pub read_request : Coder ExecRequest → Bytes → Result Error (ExecRequest × Bytes × Bytes)
read_request coder reader = do
  (request, reader') ← read_request_header coder reader
  (input, reader'') ← read_exact request.stdin_bytes reader'
  ok (request, input, reader'')
