-- ===== src/Tests/Host.antt =====
-- Host aliases: src/host.rs at the inputs of its tests.
use binport.Base.{
  Bool, true, false, List, [], ◌∷◌, ◌≡◌, refl, All, none, some, Result, ok, if◌then◌else◌, arith,
}
use binport.Host.Config.{parse, render}
use binport.Host.Directory.Refines.{run-refines}
use binport.Host.Directory.{Command, Directory, add_host, remove_host, perform, obey, run}
use binport.Host.Lookup.{Holds, find-add}
use binport.Host.Registry.{insert, collect, contains_key, lookup}
use binport.Host.RoundTrip.{IsTidy, IsStored, parse-render}
use binport.Host.Sound.{parse-IsStored}
use binport.Host.Rewrite.{last_named, find-add_edited}
use binport.Host.Store.{SshDir, add, find, list, ensure_include, included, or_empty, contains_alias}
use binport.Host.{HostEntry, Error, validate_entry, validate_config_value}
use binport.Text.Decimal
use binport.Text.Order.{less}
use binport.Text.{Text, codes, equal, trim_start, trim_end}

abbrev app : HostEntry
app = record {
  name = codes "app";
  hostname = codes "10.0.0.2";
  user = codes "deploy";
  port = 2202;
  proxy_jump = some (codes "jump");
  strategy = some (codes "exec-hop");
  bastion_proxy = none;
  bastion_user = none;
  bastion_account = none;
  bastion_port = none;
  bastion_preset = none;
  bastion_format = none;
}

abbrev worker : HostEntry
worker = record {
  name = codes "worker";
  hostname = codes "10.0.0.5";
  user = codes "admin";
  port = 22;
  proxy_jump = none;
  strategy = none;
  bastion_proxy = some (codes "10.0.0.1");
  bastion_user = some (codes "jumper");
  bastion_account = some (codes "root");
  bastion_port = some 2222;
  bastion_preset = some (codes "jumpserver-koko-at");
  bastion_format = some (codes "{user}@{account}@{host}");
}

abbrev source : Text
source =
    codes
      "# managed\nHost app\n HostName 10.0.0.2\n User deploy\n Port 2202\n ProxyJump jump\n BinportStrategy exec-hop\n"

parse_source : parse source ≡ ok (app ∷ [])
unfolding parse validate_entry Decimal.parse
parse_source = refl

app-IsTidy : IsTidy app
unfolding trim_start trim_end
app-IsTidy = record {
  name = record { at_start = refl; at_end = refl };
  hostname = record { at_start = refl; at_end = refl };
  user = record { at_start = refl; at_end = refl };
  port = omega arith;
  proxy_jump = record { at_start = refl; at_end = refl };
  strategy = record { at_start = refl; at_end = refl };
  bastion_proxy = tt;
  bastion_user = tt;
  bastion_account = tt;
  bastion_port = tt;
  bastion_preset = tt;
  bastion_format = tt;
}

worker-IsTidy : IsTidy worker
unfolding trim_start trim_end
worker-IsTidy = record {
  name = record { at_start = refl; at_end = refl };
  hostname = record { at_start = refl; at_end = refl };
  user = record { at_start = refl; at_end = refl };
  port = omega arith;
  proxy_jump = tt;
  strategy = tt;
  bastion_proxy = record { at_start = refl; at_end = refl };
  bastion_user = record { at_start = refl; at_end = refl };
  bastion_account = record { at_start = refl; at_end = refl };
  bastion_port = omega arith;
  bastion_preset = record { at_start = refl; at_end = refl };
  bastion_format = record { at_start = refl; at_end = refl };
}

app-IsStored : IsStored app
unfolding validate_entry
app-IsStored = (refl, app-IsTidy)

worker-IsStored : IsStored worker
unfolding validate_entry validate_config_value
worker-IsStored = (refl, worker-IsTidy)

parse-render_example : parse (render (app ∷ worker ∷ [])) ≡ ok (app ∷ worker ∷ [])
parse-render_example = parse-render (app ∷ worker ∷ []) (app-IsStored, (worker-IsStored, tt))

parse-IsStored_example : All IsStored (app ∷ [])
parse-IsStored_example = parse-IsStored source parse_source

-- The managed file of the host `app`.
abbrev managed : SshDir
managed = record { main = some (codes "Host other\n"); managed = some (render (app ∷ [])) }

abbrev added : SshDir
added = record {
  main = ensure_include (some (codes "Host other\n"));
  managed = some (render (app ∷ worker ∷ []));
}

managed-Holds : Holds managed (app ∷ [])
unfolding list
managed-Holds = record { listed = parse-render (app ∷ []) (app-IsStored, tt); sorted = (tt, tt) }

add-worker : add worker false managed ≡ ok added
unfolding add validate_entry validate_config_value contains_alias parse render insert less
    contains_key collect Decimal.parse Decimal.show
add-worker = refl

find-add_example :
    Holds added (insert worker (app ∷ []))
    × (find (codes "app") added ≡ (
        if equal (codes "worker") (codes "app")
        then ok (some worker)
        else find (codes "app") managed))
find-add_example =
    find-add worker false managed added (app ∷ []) (codes "app") managed-Holds worker-IsTidy
      add-worker

-- The test takes the path of another file for the managed one.
other_file :
    ensure_include (some (codes "Include ~/.SSH/BINPORT_CONFIG\n"))
    ≡ some (codes "Include ~/.SSH/BINPORT_CONFIG\n")
unfolding ensure_include included
other_file = refl

abbrev app_again : HostEntry
app_again = record app { hostname = codes "10.0.0.9" }

-- Two blocks of one name.
abbrev edited : SshDir
edited = record {
  main = some (codes "Host other\n");
  managed = some (render (worker ∷ app ∷ app_again ∷ []));
}

edited-listed : list edited ≡ ok (worker ∷ app ∷ app_again ∷ [])
unfolding list parse render validate_entry validate_config_value Decimal.parse Decimal.show
edited-listed = refl

abbrev rewritten : SshDir
rewritten = record {
  main = ensure_include (some (codes "Host other\n"));
  managed = some (render (app_again ∷ worker ∷ []));
}

update-worker : add worker true edited ≡ ok rewritten
unfolding add validate_entry validate_config_value contains_alias parse render insert less
    contains_key collect Decimal.parse Decimal.show
update-worker = refl

find-add_edited_example :
    Holds rewritten (insert worker (collect (worker ∷ app ∷ app_again ∷ [])))
    × (find (codes "app") rewritten
        ≡ ok (
            if equal (codes "worker") (codes "app")
            then some worker
            else last_named (codes "app") (worker ∷ app ∷ app_again ∷ [])))
find-add_edited_example =
    find-add_edited worker true edited rewritten (worker ∷ app ∷ app_again ∷ []) (codes "app")
      edited-listed worker-IsTidy update-worker

-- A new host, one that is there already, and the removal of the old one.
abbrev commands : List Command
commands =
    add_host worker false
    ∷ add_host worker false
    ∷ remove_host (codes "app")
    ∷ remove_host (codes "app")
    ∷ []

abbrev on_directory : List (Result Error Bool) × Directory
on_directory =
    run (obey (contains_alias (or_empty managed.main))) commands (λ n. lookup n (app ∷ []))

run-refines_example :
    ((run perform commands managed).0 ≡ on_directory.0)
    × (find (codes "worker") (run perform commands managed).1
        ≡ ok (on_directory.1 (codes "worker")))
run-refines_example =
    run-refines commands managed (app ∷ []) (codes "worker") managed-Holds
      (worker-IsTidy, (worker-IsTidy, (tt, (tt, tt))))
