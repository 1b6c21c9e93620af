-- ===== src/Hop/Route.antt =====
-- The route through exec-hop hosts: `resolve_host_chain` of src/hop.rs. The managed hosts are those of
-- the two ssh files; the stored passwords and the resolution of the entry host are arguments.
pub mod Bounded
use binport.Base.{
  ℕ, zero, suc, Bool, true, false, List, [], ◌∷◌, ◌++◌, Option, none, some, Result, ok, err, ◌>>=◌,
  ◌>>◌, refuse_if, ok_or, map_err, if◌then◌else◌, ltb, any, length,
}
use binport.Host
use binport.Host.Store.{SshDir, find}
use binport.Host.{HostEntry}
use binport.Hop.{HopTarget}
use binport.Text.{Text, codes, equal}

-- `out_of_fuel` is no error of the code.
pub data Error : Type 0 where
  cycle : Text → Error
  no_password : Text → Error
  too_many_hops : Error
  no_entry_host : Text → Error
  host_error : Host.Error → Error
  unresolved : Text → Error
  out_of_fuel : Error

abbrev pub max_exec_hops : ℕ
max_exec_hops = 4

-- `entry.strategy.as_deref() == Some("exec-hop")`
abbrev pub is_exec_hop : HostEntry → Bool
is_exec_hop entry = elim entry.strategy [
  | none ↦ false
  | some strategy ↦ equal strategy (codes "exec-hop")
]

abbrev pub hop_of : HostEntry → Option Text → HopTarget
hop_of entry password = record {
  target = entry.user ++ (b'@' ∷ entry.hostname);
  port = entry.port;
  password = password;
}

module _ {D : Type 0} (dir : SshDir) (passwords : Text → Option (Option Text))
    (destination : Text → Option D) where
  -- Where the route goes on from a parent.
  abbrev pub next_entry : Option HostEntry → Option HostEntry
  next_entry none = none
  next_entry (some entry) = if is_exec_hop entry then some entry else none

  -- `return Ok((Destination::resolve(parent)?, route))`
  abbrev pub arrive : Text → List HopTarget → Result Error (D × List HopTarget)
  arrive parent route = do entry ← ok_or (destination parent) (unresolved parent); ok (entry, route)

  -- The part of a round in front of the test of the parent: the new route, which stands in the
  -- order of its end, and the parent.
  unfoldable pub visit :
      List Text → List HopTarget → HostEntry → Result Error (List HopTarget × Text)
  visit visited route current = do
    refuse_if (any (equal current.name) visited) (cycle current.name)
    password ← ok_or (passwords current.name) (no_password current.name)
    refuse_if (ltb max_exec_hops (length (hop_of current password ∷ route))) too_many_hops
    parent ← ok_or current.proxy_jump (no_entry_host current.name)
    ok (hop_of current password ∷ route, parent)

  -- The `loop`; one unit of fuel is one round.
  unfoldable pub follow :
      ℕ → List Text → List HopTarget → HostEntry → Result Error (D × List HopTarget)
  unfolding visit
  follow zero visited route current = err out_of_fuel
  follow (suc fuel) visited route current = do
    (route', parent) ← visit visited route current
    found ← map_err host_error (find parent dir)
    elim (next_entry found) [
      | none ↦ arrive parent route'
      | some entry ↦ follow fuel (current.name ∷ visited) route' entry
    ]

  unfoldable pub resolve_host_chain : HostEntry → Result Error (D × List HopTarget)
  unfolding follow
  resolve_host_chain final_entry = follow 5 [] [] final_entry
