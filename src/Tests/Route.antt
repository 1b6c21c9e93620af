-- ===== src/Tests/Route.antt =====
-- Routes through exec-hop hosts: src/hop.rs over a managed file.
use binport.Base.{[], ◌∷◌, ◌++◌, ◌≡◌, ◌≢◌, ◌≤◌, refl, length, Option, none, some, ok, err, List}
use binport.Host.Config
use binport.Host.Store.{SshDir, find}
use binport.Host.{HostEntry, validate_entry}
use binport.Hop.Route.Bounded.{resolve_host_chain-in_code, resolve_host_chain-Extends}
use binport.Hop.Route.{cycle, out_of_fuel, hop_of, resolve_host_chain}
use binport.Hop.{HopTarget}
use binport.Text.Decimal
use binport.Text.{Text, codes}

abbrev host : Text → Text → HostEntry
host name parent = record {
  name = name;
  hostname = codes "10.0.0.2";
  user = codes "deploy";
  port = 22;
  proxy_jump = some parent;
  strategy = some (codes "exec-hop");
  bastion_proxy = none;
  bastion_user = none;
  bastion_account = none;
  bastion_port = none;
  bastion_preset = none;
  bastion_format = none;
}

abbrev b : HostEntry
b = host (codes "b") (codes "jump")

abbrev dir : SshDir
dir = record {
  main = none;
  managed = some (
      codes
        "Host b\n HostName 10.0.0.2\n User deploy\n ProxyJump jump\n BinportStrategy exec-hop\nHost c\n HostName 10.0.0.3\n User deploy\n ProxyJump d\n BinportStrategy exec-hop\nHost d\n HostName 10.0.0.4\n User deploy\n ProxyJump c\n BinportStrategy exec-hop\n");
}

abbrev passwords : Text → Option (Option Text)
passwords name = some none

abbrev destination : Text → Option Text
destination name = some name

abbrev last : HostEntry
last = host (codes "a") (codes "b")

abbrev hops : List HopTarget
hops = hop_of b none ∷ hop_of last none ∷ []

two_hops : resolve_host_chain dir passwords destination last ≡ ok (codes "jump", hops)
unfolding resolve_host_chain find Config.parse validate_entry Decimal.parse
two_hops = refl

round_trip_of_hosts :
    resolve_host_chain dir passwords destination (host (codes "a") (codes "c"))
    ≡ err (cycle (codes "c"))
unfolding resolve_host_chain find Config.parse validate_entry Decimal.parse
round_trip_of_hosts = refl

resolve_host_chain-in_code_example :
    resolve_host_chain dir passwords destination last ≢ err out_of_fuel
resolve_host_chain-in_code_example = resolve_host_chain-in_code dir passwords destination last

resolve_host_chain-Extends_example :
    (length hops ≤ 4)
    × (front : List HopTarget) × (password : Option Text) × (hops
        ≡ front ++ hop_of last password ∷ [])
resolve_host_chain-Extends_example =
    resolve_host_chain-Extends dir passwords destination last (codes "jump") hops two_hops
