-- ===== src/Host/Block.antt =====
-- How `parse` reads the block that `render` writes for one entry.
use binport.Base.{ℕ, List, ◌++◌, ◌≡◌, refl, ◌∙◌, append_assoc, Option, none, Result, ok, ◌≤◌}
use binport.Host.Config.{
  Parser, read_directive, read_lines, set_field, line, option_line, option_port, u16_max, new_entry,
  render_entry, flush, key_value,
}
use binport.Host.Directives.{
  host_directive, hostname, user, port, proxyjump, binportstrategy, bastionproxy, bastionuser,
  bastionaccount, bastionport, bastionpreset, bastionformat,
}
use binport.Host.Lines.{
  IsValue, read_lines-line, within, read_lines-field, OnSome, read_lines-option,
  read_lines-option_port, show-IsValue,
}
use binport.Host.{HostEntry, Error}
use binport.Text.Decimal.{parse-show, show}
use binport.Text.Laws.{trim-IsTrimmed}
use binport.Text.{Text, codes, lines}

-- Every field of the entry fits on its line.
pub record IsWritable (e : HostEntry) : Type 0 where
  pub name : IsValue e.name
  pub hostname : IsValue e.hostname
  pub user : IsValue e.user
  pub port : e.port ≤ u16_max
  pub proxy_jump : OnSome IsValue e.proxy_jump
  pub strategy : OnSome IsValue e.strategy
  pub bastion_proxy : OnSome IsValue e.bastion_proxy
  pub bastion_user : OnSome IsValue e.bastion_user
  pub bastion_account : OnSome IsValue e.bastion_account
  pub bastion_port : OnSome (λ port. port ≤ u16_max) e.bastion_port
  pub bastion_preset : OnSome IsValue e.bastion_preset
  pub bastion_format : OnSome IsValue e.bastion_format

-- One piece of a block, and then the others.
step :
    (p q : Parser) (a b rest : Text) {r : Result Error (List HostEntry)}
    → ((s : Text) → read_lines p (lines (a ++ s)) ≡ read_lines q (lines s))
    → read_lines q (lines (b ++ rest)) ≡ r
    → read_lines p (lines ((a ++ b) ++ rest)) ≡ r
step p q a b rest h k = rw (append_assoc a b rest) (h (b ++ rest) ∙ k)

read_host :
    (p : Parser) (out : List HostEntry) (name s : Text)
    → IsValue name
    → flush p.entries p.current ≡ ok out
    → read_lines p (lines (line "Host " name ++ s))
      ≡ read_lines (within out (new_entry name)) (lines s)
read_host p out name s value h =
    read_lines-line "Host " (codes "Host") name s p host_directive value
    ∙ unfold read_directive in rw (h, trim-IsTrimmed value.trimmed)

read_blank :
    (p : Parser) (s : Text) → read_lines p (lines (codes "\n" ++ s)) ≡ read_lines p (lines s)
unfolding lines read_lines read_directive key_value
read_blank p s = refl

module _ (e : HostEntry) (out : List HostEntry) (w : IsWritable e) where
  abbrev required : HostEntry
  required = record (new_entry e.name) { hostname = e.hostname; user = e.user; port = e.port }

  read_hostname :
      (s : Text)
      → read_lines (within out (new_entry e.name)) (lines (line "    HostName " e.hostname ++ s))
        ≡ read_lines (within out (record (new_entry e.name) { hostname = e.hostname })) (lines s)
  unfolding set_field
  read_hostname s =
      read_lines-field "    HostName " (codes "HostName") e.hostname s out _ _ hostname w.hostname
        refl refl

  read_user :
      (s : Text)
      → read_lines
          (within out (record (new_entry e.name) { hostname = e.hostname }))
          (lines (line "    User " e.user ++ s))
        ≡ read_lines
            (within out (record (new_entry e.name) { hostname = e.hostname; user = e.user }))
            (lines s)
  unfolding set_field
  read_user s = read_lines-field "    User " (codes "User") e.user s out _ _ user w.user refl refl

  read_port :
      (s : Text)
      → read_lines
          (within out (record (new_entry e.name) { hostname = e.hostname; user = e.user }))
          (lines (line "    Port " (show e.port) ++ s))
        ≡ read_lines (within out required) (lines s)
  unfolding set_field
  read_port s =
      read_lines-field "    Port " (codes "Port") (show e.port) s out _ _ port (show-IsValue e.port)
        refl (rw (parse-show u16_max e.port w.port))

  abbrev put_proxy_jump : Option Text → HostEntry
  put_proxy_jump o = record required { proxy_jump = o }

  abbrev put_strategy : Option Text → HostEntry
  put_strategy o = record (put_proxy_jump e.proxy_jump) { strategy = o }

  abbrev put_bastion_proxy : Option Text → HostEntry
  put_bastion_proxy o = record (put_strategy e.strategy) { bastion_proxy = o }

  abbrev put_bastion_user : Option Text → HostEntry
  put_bastion_user o = record (put_bastion_proxy e.bastion_proxy) { bastion_user = o }

  abbrev put_bastion_account : Option Text → HostEntry
  put_bastion_account o = record (put_bastion_user e.bastion_user) { bastion_account = o }

  abbrev put_bastion_port : Option ℕ → HostEntry
  put_bastion_port o = record (put_bastion_account e.bastion_account) { bastion_port = o }

  abbrev put_bastion_preset : Option Text → HostEntry
  put_bastion_preset o = record (put_bastion_port e.bastion_port) { bastion_preset = o }

  abbrev put_bastion_format : Option Text → HostEntry
  put_bastion_format o = record (put_bastion_preset e.bastion_preset) { bastion_format = o }

  read_proxy_jump :
      (s : Text)
      → read_lines
          (within out (put_proxy_jump none))
          (lines (option_line "    ProxyJump " e.proxy_jump ++ s))
        ≡ read_lines (within out (put_proxy_jump e.proxy_jump)) (lines s)
  unfolding set_field
  read_proxy_jump s =
      read_lines-option "    ProxyJump " (codes "ProxyJump") s out put_proxy_jump e.proxy_jump
        proxyjump w.proxy_jump refl (λ v. refl)

  read_strategy :
      (s : Text)
      → read_lines
          (within out (put_strategy none))
          (lines (option_line "    BinportStrategy " e.strategy ++ s))
        ≡ read_lines (within out (put_strategy e.strategy)) (lines s)
  unfolding set_field
  read_strategy s =
      read_lines-option "    BinportStrategy " (codes "BinportStrategy") s out put_strategy
        e.strategy binportstrategy w.strategy refl (λ v. refl)

  read_bastion_proxy :
      (s : Text)
      → read_lines
          (within out (put_bastion_proxy none))
          (lines (option_line "    BastionProxy " e.bastion_proxy ++ s))
        ≡ read_lines (within out (put_bastion_proxy e.bastion_proxy)) (lines s)
  unfolding set_field
  read_bastion_proxy s =
      read_lines-option "    BastionProxy " (codes "BastionProxy") s out put_bastion_proxy
        e.bastion_proxy bastionproxy w.bastion_proxy refl (λ v. refl)

  read_bastion_user :
      (s : Text)
      → read_lines
          (within out (put_bastion_user none))
          (lines (option_line "    BastionUser " e.bastion_user ++ s))
        ≡ read_lines (within out (put_bastion_user e.bastion_user)) (lines s)
  unfolding set_field
  read_bastion_user s =
      read_lines-option "    BastionUser " (codes "BastionUser") s out put_bastion_user
        e.bastion_user bastionuser w.bastion_user refl (λ v. refl)

  read_bastion_account :
      (s : Text)
      → read_lines
          (within out (put_bastion_account none))
          (lines (option_line "    BastionAccount " e.bastion_account ++ s))
        ≡ read_lines (within out (put_bastion_account e.bastion_account)) (lines s)
  unfolding set_field
  read_bastion_account s =
      read_lines-option "    BastionAccount " (codes "BastionAccount") s out put_bastion_account
        e.bastion_account bastionaccount w.bastion_account refl (λ v. refl)

  read_bastion_port :
      (s : Text)
      → read_lines
          (within out (put_bastion_port none))
          (lines (option_port "    BastionPort " e.bastion_port ++ s))
        ≡ read_lines (within out (put_bastion_port e.bastion_port)) (lines s)
  unfolding set_field
  read_bastion_port s =
      read_lines-option_port "    BastionPort " (codes "BastionPort") s out put_bastion_port
        e.bastion_port bastionport w.bastion_port refl (λ v port h. rw h)

  read_bastion_preset :
      (s : Text)
      → read_lines
          (within out (put_bastion_preset none))
          (lines (option_line "    BastionPreset " e.bastion_preset ++ s))
        ≡ read_lines (within out (put_bastion_preset e.bastion_preset)) (lines s)
  unfolding set_field
  read_bastion_preset s =
      read_lines-option "    BastionPreset " (codes "BastionPreset") s out put_bastion_preset
        e.bastion_preset bastionpreset w.bastion_preset refl (λ v. refl)

  read_bastion_format :
      (s : Text)
      → read_lines
          (within out (put_bastion_format none))
          (lines (option_line "    BastionFormat " e.bastion_format ++ s))
        ≡ read_lines (within out (put_bastion_format e.bastion_format)) (lines s)
  unfolding set_field
  read_bastion_format s =
      read_lines-option "    BastionFormat " (codes "BastionFormat") s out put_bastion_format
        e.bastion_format bastionformat w.bastion_format refl (λ v. refl)

  -- The whole block: the entry that was open is closed, and the parser stands in this one.
  pub read_entry :
      (p : Parser) (rest : Text)
      → flush p.entries p.current ≡ ok out
      → read_lines p (lines (render_entry e ++ rest)) ≡ read_lines (within out e) (lines rest)
  unfolding render_entry
  read_entry p rest h =
      step p (within out (new_entry e.name)) (line "Host " e.name) _ rest
        (λ s. read_host p out e.name s w.name h)
        (step _ _ (line "    HostName " e.hostname) _ rest read_hostname (
          step _ _ (line "    User " e.user) _ rest read_user (
            step _ _ (line "    Port " (show e.port)) _ rest read_port (
              step _ _ (option_line "    ProxyJump " e.proxy_jump) _ rest read_proxy_jump (
                step _ _ (option_line "    BinportStrategy " e.strategy) _ rest read_strategy (
                  step _ _ (option_line "    BastionProxy " e.bastion_proxy) _ rest
                    read_bastion_proxy
                    (step _ _ (option_line "    BastionUser " e.bastion_user) _ rest
                      read_bastion_user
                      (step _ _ (option_line "    BastionAccount " e.bastion_account) _ rest
                        read_bastion_account
                        (step _ _ (option_port "    BastionPort " e.bastion_port) _ rest
                          read_bastion_port
                          (step _ _ (option_line "    BastionPreset " e.bastion_preset) _ rest
                            read_bastion_preset
                            (step _ _ (option_line "    BastionFormat " e.bastion_format) _ rest
                              read_bastion_format (read_blank _ rest))))))))))))
