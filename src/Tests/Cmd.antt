-- ===== src/Tests/Cmd.antt =====
-- Arguments of commands: src/cmd/ at the inputs of its tests.
use binport.Base.{filter, ◌++◌, List, [], ◌∷◌, ◌≡◌, refl, map, none, some, ok, err, All, false}
use binport.Cmd.Paths.Remove.{is_named, start_of, refused_names, validate_remove_path-descends}
use binport.Cmd.Paths.{
  validate_remove_path, recursive_destination, source_name, without_separators, dangerous,
}
use binport.Cmd.Routes.{
  parse_remote_file, ad_hoc_route, ad_hoc_bastion, not_two_aliases, empty_part,
}
use binport.Cmd.Tools.{default_tool_arguments}
use binport.Cmd.Tunnel.Sound.{IsFine, written, parse_tunnel_specs-accepted}
use binport.Cmd.Tunnel.{TunnelSpec, parse_parts, parse_tunnel_specs, zero_local_port}
use binport.Places.{Place, walk}
use binport.Shell.ToolName.{file_name}
use binport.Shell.{utf8}
use binport.Text.Decimal
use binport.Text.Search.{trim_end_matches}
use binport.Text.{equal, Text, codes, split, split_once}

abbrev specs : List Text
specs = codes "8080:localhost:3000" ∷ codes "5432:10.0.0.1:5432" ∷ []

abbrev tunnels : List TunnelSpec
tunnels =
    record { local_port = 8080; remote_host = codes "localhost"; remote_port = 3000 }
    ∷ record { local_port = 5432; remote_host = codes "10.0.0.1"; remote_port = 5432 }
    ∷ []

parse_specs : parse_tunnel_specs specs ≡ ok tunnels
unfolding parse_tunnel_specs parse_parts split Decimal.parse
parse_specs = refl

parse_tunnel_specs-accepted_example :
    All IsFine tunnels × (parse_tunnel_specs (map written tunnels) ≡ ok tunnels)
parse_tunnel_specs-accepted_example = parse_tunnel_specs-accepted specs tunnels parse_specs

port_zero :
    parse_tunnel_specs (codes "0:10.0.0.1:8080" ∷ [])
    ≡ err (zero_local_port (codes "0:10.0.0.1:8080"))
unfolding parse_tunnel_specs parse_parts split Decimal.parse
port_zero = refl

abbrev work : Place
work = codes "home" ∷ codes "me" ∷ []

remove_build : validate_remove_path (codes "out/./build/") ≡ ok tt
unfolding validate_remove_path trim_end_matches split
remove_build = refl

validate_remove_path-descends_example :
    All (λ name. equal (trim_end_matches b'/' (codes "out/./build/")) name ≡ false) refused_names
    × (walk (start_of work (codes "out/./build/")) (split b'/' (codes "out/./build/"))
        ≡ start_of work (codes "out/./build/")
          ++ filter is_named (split b'/' (codes "out/./build/")))
validate_remove_path-descends_example =
    validate_remove_path-descends (codes "out/./build/") work remove_build

-- The root and the working directory themselves, with a dot at the end.
remove_root :
    (validate_remove_path (codes "/") ≡ err (dangerous (codes "/")))
    × (validate_remove_path (codes "/.") ≡ ok tt)
    × (validate_remove_path (codes "./.") ≡ ok tt)
unfolding validate_remove_path trim_end_matches split
remove_root = (refl, refl, refl)

remote_files :
    (parse_remote_file (codes "prod:/srv/app")
      ≡ ok (some (record { host = codes "prod"; path = codes "/srv/app" })))
    × (parse_remote_file (codes "C:/temp") ≡ ok none)
    × (parse_remote_file (codes "prod:") ≡ err empty_part)
unfolding parse_remote_file split_once
remote_files = (refl, refl, refl)

routes :
    (ad_hoc_route (codes "jump,app") ≡ ok (some (codes "jump", codes "app")))
    × (ad_hoc_route (codes "a,b,c") ≡ err not_two_aliases)
    × (ad_hoc_bastion (codes "gate~app") ≡ ok (some (codes "gate", codes "app")))
unfolding ad_hoc_route ad_hoc_bastion split_once
routes = (refl, refl, refl)

destinations :
    recursive_destination (codes "prod:/srv/app/") (codes "backup/") ≡ ok (codes "backup/app")
unfolding recursive_destination source_name without_separators parse_remote_file split_once
    file_name split
destinations = refl

eza_arguments :
    default_tool_arguments (utf8 (codes "eza")) (utf8 (codes "-l") ∷ [])
    ≡ utf8 (codes "--color=always") ∷ utf8 (codes "-l") ∷ []
unfolding default_tool_arguments
eza_arguments = refl
