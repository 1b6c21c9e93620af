-- ===== src/Ssh/Resolve/Sound.antt =====
-- What `Destination::resolve` of src/ssh.rs gives for a host of the managed file.
use binport.Base.{
  false, List, ◌≡◌, refl, ◌∙◌, ap, Option, none, some, Result, ok, All, ok-injective, >>=-eq-ok,
  sym,
}
use binport.Host.Config.{render}
use binport.Host.Registry.{lookup, IsSorted}
use binport.Host.RoundTrip.{IsStored}
use binport.Host.{HostEntry}
use binport.Ssh.Config.Managed.{IsWord, reached, apply_ssh_config-render}
use binport.Ssh.Config.{apply_ssh_config, settled, or_keep}
use binport.Ssh.Login.{Environment}
use binport.Ssh.Resolve.{Home, split_user, initial, apply_file, set_keys, resolve, is_none}
use binport.Ssh.{Destination}
use binport.Text.{Text}

apply_file-user :
    (home : Text) (config : Option Text) (alias : Text) (d : Destination)
    → (apply_file home config alias false d).user ≡ d.user
unfolding apply_file apply_ssh_config settled
apply_file-user home none alias d = refl
apply_file-user home (some source) alias d = refl

-- The destination behind the user's own file.
abbrev own : Environment → Home → Option Text → Text → Destination
own env home requested alias =
    apply_file home.path home.config alias (is_none requested) (initial env requested alias)

-- The destination in front of the keys.
abbrev configured : Environment → Home → Option Text → Text → Destination
configured env home requested alias =
    apply_file home.path home.managed_config alias (is_none requested)
      (own env home requested alias)

abbrev overridden : Environment → Home → Option Text → Text → HostEntry → Destination
overridden env home requested alias e =
    reached (is_none requested) (some e) (own env home requested alias)

configured-overridden :
    (env : Environment) (home : Home) (requested : Option Text) (alias : Text) (es : List HostEntry)
    (e : HostEntry)
    → home.managed_config ≡ some (render es)
    → All IsStored es
    → All IsWord es
    → IsSorted es
    → lookup alias es ≡ some e
    → configured env home requested alias ≡ overridden env home requested alias e
unfolding apply_file
configured-overridden env home requested alias es e there stored words sorted found =
    ap
      (λ config.
        apply_file home.path config alias (is_none requested) (own env home requested alias))
      there
    ∙ apply_ssh_config-render (some home.path) es alias (is_none requested) _ stored words sorted
    ∙ ap (λ o. reached (is_none requested) o (own env home requested alias)) found

overridden-user :
    (env : Environment) (home : Home) (requested : Option Text) (alias : Text) (e : HostEntry)
    → (overridden env home requested alias e).user ≡ or_keep e.user requested
unfolding initial
overridden-user env home none alias e = refl
overridden-user env home (some user) alias e =
    apply_file-user home.path home.config alias (initial env (some user) alias)

-- For an alias that the managed file has as `e`, when that file holds the entries `es`, in the order of
-- their names, each of them valid, with 16-bit ports, no Unicode blank at the ends of its texts and none
-- inside its name, the session goes to the hostname and port of `e`, whatever the
-- user's own configuration says, and logs in as the user that was asked for or else as that of `e`.
pub resolve-managed :
    {E : Type 0} (env : Environment) (home : Home) (managed_key : Text → Result E Text)
    (value : Text) (es : List HostEntry) (e : HostEntry) (d : Destination)
    → home.managed_config ≡ some (render es)
    → All IsStored es
    → All IsWord es
    → IsSorted es
    → lookup (split_user value).1 es ≡ some e
    → resolve env (some home) managed_key value ≡ ok d
    → (d.hostname ≡ e.hostname) × (d.port ≡ e.port) × (d.user ≡ or_keep e.user (split_user value).0)
unfolding resolve set_keys
resolve-managed env home managed_key value es e d there stored words sorted found h =
    let (managed, _, later) = >>=-eq-ok (managed_key value) _ h in
    let same =
      configured-overridden env home (split_user value).0 (split_user value).1 es e there stored
        words sorted found in
    let final = sym (ok-injective later) ∙ ap (set_keys home managed) same in
    (
      ap (λ (x : Destination). x.hostname) final,
      ap (λ (x : Destination). x.port) final,
      ap (λ (x : Destination). x.user) final
          ∙ overridden-user env home (split_user value).0 (split_user value).1 e,
    )
