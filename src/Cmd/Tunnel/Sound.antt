-- ===== src/Cmd/Tunnel/Sound.antt =====
-- The tunnels that `parse_tunnel_specs` of src/cmd/tunnel.rs accepts.
use binport.Base.{
  ◌≤◌, true, false, List, [], ◌∷◌, ◌++◌, ◌≡◌, refl, ◌∙◌, ap, arith, map, ok, ok_or, ok_or-eq-ok,
  refuse_if, refuse_if-eq-ok, >>=-eq-ok, >>-eq-ok, ok-injective, All, all, is_empty, ◌==◌, subst,
}
use binport.Cmd.Tunnel.{
  TunnelSpec, parse_parts, parse_tunnel_specs, invalid_local_port, invalid_remote_port,
  zero_local_port, zero_remote_port, empty_host,
}
use binport.Host.Config.{u16_max}
use binport.Text.Decimal.{parse, show, show-all, parse-show, parse-le}
use binport.Text.Split.{IsFree, split-IsFree, split-append, split-whole}
use binport.Text.{Text, split, is_ascii_digit}

-- The ports are 16-bit numbers but 0, and the host is a text with no colon.
pub record IsFine (t : TunnelSpec) : Type 0 where
  pub local_port : t.local_port ≤ u16_max
  pub local_some : (t.local_port == 0) ≡ false
  pub remote_port : t.remote_port ≤ u16_max
  pub remote_some : (t.remote_port == 0) ≡ false
  pub host_some : is_empty t.remote_host ≡ false
  pub host_free : IsFree b':' t.remote_host

-- LOCAL_PORT:REMOTE_HOST:REMOTE_PORT
abbrev pub written : TunnelSpec → Text
written t = show t.local_port ++ b':' ∷ (t.remote_host ++ b':' ∷ show t.remote_port)

parse_parts-IsFine :
    (spec : Text) (parts : List Text) (t : TunnelSpec)
    → All (IsFree b':') parts
    → parse_parts spec parts ≡ ok t
    → IsFine t
unfolding parse_parts
parse_parts-IsFine spec [] t free h = cc
parse_parts-IsFine spec (a ∷ []) t free h = cc
parse_parts-IsFine spec (a ∷ (host ∷ [])) t free h = cc
parse_parts-IsFine spec (a ∷ (host ∷ (b ∷ (c ∷ parts)))) t free h = cc
parse_parts-IsFine spec (a ∷ (host ∷ (b ∷ []))) t (_, (free, _)) h =
    let (local, local_is, h1) = >>=-eq-ok (ok_or (parse u16_max a) (invalid_local_port spec)) _ h in
    let (some_local, h2) = >>-eq-ok (refuse_if (local == 0) (zero_local_port spec)) _ h1 in
    let (some_host, h3) = >>-eq-ok (refuse_if (is_empty host) (empty_host spec)) _ h2 in
    let (remote, remote_is, h4) =
      >>=-eq-ok (ok_or (parse u16_max b) (invalid_remote_port spec)) _ h3 in
    let (some_remote, h5) = >>-eq-ok (refuse_if (remote == 0) (zero_remote_port spec)) _ h4 in
    subst IsFine (ok-injective h5) (record {
      local_port = parse-le a u16_max local (ok_or-eq-ok _ _ local_is);
      local_some = refuse_if-eq-ok (local == 0) _ some_local;
      remote_port = parse-le b u16_max remote (ok_or-eq-ok _ _ remote_is);
      remote_some = refuse_if-eq-ok (remote == 0) _ some_remote;
      host_some = refuse_if-eq-ok (is_empty host) _ some_host;
      host_free = free;
    })

digits-IsFree : (s : Text) → all is_ascii_digit s ≡ true → IsFree b':' s
unfolding is_ascii_digit
digits-IsFree [] h = refl
digits-IsFree (c ∷ s) h = ground (arith, digits-IsFree s)

split-written :
    (t : TunnelSpec)
    → IsFine t
    → split b':' (written t) ≡ show t.local_port ∷ (t.remote_host ∷ (show t.remote_port ∷ []))
split-written t fine =
    split-append b':' (show t.local_port) (t.remote_host ++ b':' ∷ show t.remote_port)
    ∙ rw
        (
          split-append b':' t.remote_host (show t.remote_port),
          split-whole b':' (show t.local_port) (digits-IsFree _ (show-all t.local_port)),
          split-whole b':' t.remote_host fine.host_free,
          split-whole b':' (show t.remote_port) (digits-IsFree _ (show-all t.remote_port)),
        )
        refl

parse_parts-written :
    (t : TunnelSpec) → IsFine t → parse_parts (written t) (split b':' (written t)) ≡ ok t
unfolding parse_parts
parse_parts-written t fine =
    ap (parse_parts (written t)) (split-written t fine)
    ∙ rw
        (
          parse-show u16_max t.local_port fine.local_port,
          parse-show u16_max t.remote_port fine.remote_port,
          fine.local_some,
          fine.remote_some,
          fine.host_some,
        )
        refl

parse_tunnel_specs-IsFine :
    (specs : List Text) (tunnels : List TunnelSpec)
    → parse_tunnel_specs specs ≡ ok tunnels
    → All IsFine tunnels
unfolding parse_tunnel_specs
parse_tunnel_specs-IsFine [] tunnels h = subst (All IsFine) (ok-injective h) tt
parse_tunnel_specs-IsFine (spec ∷ specs) tunnels h =
    let (t, here, h1) = >>=-eq-ok (parse_parts spec (split b':' spec)) _ h in
    let (ts, later, h2) = >>=-eq-ok (parse_tunnel_specs specs) _ h1 in
    subst (All IsFine) (ok-injective h2) (
      parse_parts-IsFine spec (split b':' spec) t (split-IsFree b':' spec) here,
      parse_tunnel_specs-IsFine specs ts later,
    )

parse_tunnel_specs-written :
    (tunnels : List TunnelSpec)
    → All IsFine tunnels
    → parse_tunnel_specs (map written tunnels) ≡ ok tunnels
unfolding parse_tunnel_specs
parse_tunnel_specs-written [] fine = refl
parse_tunnel_specs-written (t ∷ tunnels) (fine, others) =
    rw (parse_parts-written t fine, parse_tunnel_specs-written tunnels others) refl

-- When the specifications are accepted, every tunnel has two ports from 1 to 65535 and a host that is not
-- empty and has no colon, and the tunnels written back as LOCAL_PORT:REMOTE_HOST:REMOTE_PORT are read
-- as the same tunnels.
pub parse_tunnel_specs-accepted :
    (specs : List Text) (tunnels : List TunnelSpec)
    → parse_tunnel_specs specs ≡ ok tunnels
    → All IsFine tunnels × (parse_tunnel_specs (map written tunnels) ≡ ok tunnels)
parse_tunnel_specs-accepted specs tunnels h =
    let fine = parse_tunnel_specs-IsFine specs tunnels h in
    (fine, parse_tunnel_specs-written tunnels fine)
