-- ===== src/Cmd/Tunnel.antt =====
-- `parse_tunnel_specs` of src/cmd/tunnel.rs.
pub mod Sound
use binport.Base.{
  ℕ, Bool, List, [], ◌∷◌, Option, none, some, Result, ok, err, ◌>>=◌, ◌>>◌, ok_or, refuse_if, ◌==◌,
  is_empty,
}
use binport.Host.Config.{u16_max}
use binport.Text.Decimal
use binport.Text.{Text, split}

pub record TunnelSpec : Type 0 where
  pub local_port : ℕ
  pub remote_host : Text
  pub remote_port : ℕ

pub data Error : Type 0 where
  invalid_spec : Text → Error
  invalid_local_port : Text → Error
  zero_local_port : Text → Error
  empty_host : Text → Error
  invalid_remote_port : Text → Error
  zero_remote_port : Text → Error

unfoldable pub parse_parts : Text → List Text → Result Error TunnelSpec
parse_parts spec (a ∷ (host ∷ (b ∷ []))) = do
  local_port ← ok_or (Decimal.parse u16_max a) (invalid_local_port spec)
  refuse_if (local_port == 0) (zero_local_port spec)
  refuse_if (is_empty host) (empty_host spec)
  remote_port ← ok_or (Decimal.parse u16_max b) (invalid_remote_port spec)
  refuse_if (remote_port == 0) (zero_remote_port spec)
  ok (record { local_port = local_port; remote_host = host; remote_port = remote_port })
parse_parts spec parts = err (invalid_spec spec)

unfoldable pub parse_tunnel_specs : List Text → Result Error (List TunnelSpec)
parse_tunnel_specs [] = ok []
parse_tunnel_specs (spec ∷ specs) = do
  tunnel ← parse_parts spec (split b':' spec)
  tunnels ← parse_tunnel_specs specs
  ok (tunnel ∷ tunnels)
