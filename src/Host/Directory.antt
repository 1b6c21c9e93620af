-- ===== src/Host/Directory.antt =====
-- What the host commands promise: a directory of entries by name, without files, texts or an order.
-- `perform` runs a command of `binport host` on the files of src/host.rs, `obey` on the directory.
pub mod Refines
use binport.Base.{
  Bool, true, false, not, ◌&&◌, List, [], ◌∷◌, Option, none, some, Result, ok, err, ◌>>=◌, ◌>>◌,
  refuse_if, if◌then◌else◌,
}
use binport.Exec.{Exec}
use binport.Host.Store.{SshDir, add, remove}
use binport.Host.{HostEntry, Error, in_main_config, already_exists, validate_entry, validate_token}
use binport.Text.{Text, codes, equal}

pub data Command : Type 0 where
  add_host : HostEntry → Bool → Command
  remove_host : Text → Command

-- A failed command leaves the state as it was, and one that succeeds says whether it did anything.
abbrev pub settle : {S : Type 0} → Result Error (S × Bool) → S → Result Error Bool × S
settle (ok (s', done)) s = (ok done, s')
settle (err e) s = (err e, s)

abbrev pub changed : {S : Type 0} → Result Error S → Result Error (S × Bool)
changed (ok s) = ok (s, true)
changed (err e) = err e

abbrev pub perform : Command → Exec Error SshDir Bool
perform (add_host e force) dir = settle (changed (add e force dir)) dir
perform (remove_host name) dir = settle (remove name dir) dir

abbrev pub Directory : Type 0
Directory = Text → Option HostEntry

abbrev pub is_some : Option HostEntry → Bool
is_some none = false
is_some (some e) = true

-- The names in `reserved` are those of the user's own file.
abbrev pub add_to : (Text → Bool) → HostEntry → Bool → Directory → Result Error (Directory × Bool)
add_to reserved e force m = do
  validate_entry e
  refuse_if (reserved e.name) (in_main_config e.name)
  refuse_if (is_some (m e.name) && not force) (already_exists e.name)
  ok ((λ n. if equal e.name n then some e else m n), true)

abbrev pub remove_from : Text → Directory → Result Error (Directory × Bool)
remove_from name m = do
  validate_token (codes "host name") name
  ok ((λ n. if equal name n then none else m n), is_some (m name))

abbrev pub obey : (Text → Bool) → Command → Exec Error Directory Bool
obey reserved (add_host e force) m = settle (add_to reserved e force m) m
obey reserved (remove_host name) m = settle (remove_from name m) m

-- Every command, with its result, one after the other.
abbrev pub run :
    {S : Type 0} → (Command → Exec Error S Bool) → List Command → S → List (Result Error Bool) × S
run step [] s = ([], s)
run step (c ∷ commands) s =
    let (result, s') = step c s in
    let (results, s'') = run step commands s' in (result ∷ results, s'')
