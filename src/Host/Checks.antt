-- ===== src/Host/Checks.antt =====
-- `validate_entry` accepts an entry exactly when each of its checks passes.
use binport.Base.{not, ◌&&◌, ◌≡◌, ok, >>-eq-ok, refuse_if, if◌then◌else◌}
use binport.Host.{
  HostEntry, validate_token, validate_config_value, validate_entry, if_some, validate_jump,
  validate_strategy, validate_preset, validate_names, is_some, has_bastion_options,
  jump_and_bastion, options_without_bastion,
}
use binport.Text.{codes}

pub record Checks (e : HostEntry) : Type 0 where
  pub name : validate_token (codes "host name") e.name ≡ ok tt
  pub hostname : validate_token (codes "hostname") e.hostname ≡ ok tt
  pub user : validate_token (codes "user") e.user ≡ ok tt
  pub proxy_jump : if_some (validate_jump e.name) e.proxy_jump ≡ ok tt
  pub strategy : if_some (validate_strategy e.proxy_jump) e.strategy ≡ ok tt
  pub one_route :
      refuse_if (is_some e.proxy_jump && is_some e.bastion_proxy) jump_and_bastion ≡ ok tt
  pub options :
      refuse_if (not (is_some e.bastion_proxy) && has_bastion_options e) options_without_bastion
      ≡ ok tt
  pub bastion_proxy : if_some (validate_token (codes "bastion host")) e.bastion_proxy ≡ ok tt
  pub bastion_user : if_some (validate_token (codes "bastion user")) e.bastion_user ≡ ok tt
  pub bastion_account : if_some (validate_token (codes "bastion account")) e.bastion_account ≡ ok tt
  pub bastion_preset : if_some (validate_preset e.bastion_format) e.bastion_preset ≡ ok tt
  pub bastion_format :
      if_some (validate_config_value (codes "bastion format")) e.bastion_format ≡ ok tt
  pub names : (if is_some e.bastion_proxy then validate_names e else ok tt) ≡ ok tt

pub validate_entry-Checks : (e : HostEntry) → validate_entry e ≡ ok tt → Checks e
unfolding validate_entry
validate_entry-Checks e h0 =
    let (name, h1) = >>-eq-ok (validate_token (codes "host name") e.name) _ h0 in
    let (hostname, h2) = >>-eq-ok (validate_token (codes "hostname") e.hostname) _ h1 in
    let (user, h3) = >>-eq-ok (validate_token (codes "user") e.user) _ h2 in
    let (proxy_jump, h4) = >>-eq-ok (if_some (validate_jump e.name) e.proxy_jump) _ h3 in
    let (strategy, h5) = >>-eq-ok (if_some (validate_strategy e.proxy_jump) e.strategy) _ h4 in
    let (one_route, h6) =
      >>-eq-ok (refuse_if (is_some e.proxy_jump && is_some e.bastion_proxy) jump_and_bastion) _
        h5 in
    let (options, h7) =
      >>-eq-ok
        (refuse_if (not (is_some e.bastion_proxy) && has_bastion_options e) options_without_bastion)
        _ h6 in
    let (bastion_proxy, h8) =
      >>-eq-ok (if_some (validate_token (codes "bastion host")) e.bastion_proxy) _ h7 in
    let (bastion_user, h9) =
      >>-eq-ok (if_some (validate_token (codes "bastion user")) e.bastion_user) _ h8 in
    let (bastion_account, h10) =
      >>-eq-ok (if_some (validate_token (codes "bastion account")) e.bastion_account) _ h9 in
    let (bastion_preset, h11) =
      >>-eq-ok (if_some (validate_preset e.bastion_format) e.bastion_preset) _ h10 in
    let (bastion_format, h12) =
      >>-eq-ok (if_some (validate_config_value (codes "bastion format")) e.bastion_format) _ h11 in
    record {
      name = name;
      hostname = hostname;
      user = user;
      proxy_jump = proxy_jump;
      strategy = strategy;
      one_route = one_route;
      options = options;
      bastion_proxy = bastion_proxy;
      bastion_user = bastion_user;
      bastion_account = bastion_account;
      bastion_preset = bastion_preset;
      bastion_format = bastion_format;
      names = h12;
    }
