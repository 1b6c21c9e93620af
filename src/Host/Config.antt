-- ===== src/Host/Config.antt =====
-- `parse`, `render` and `contains_alias` of src/host.rs.
use binport.Base.{
  ℕ, Bool, List, [], ◌∷◌, ◌++◌, Option, none, some, Result, ok, ◌>>=◌, ok_or, if◌then◌else◌, String,
  ◌>>◌,
}
use binport.Host.{HostEntry, Error, invalid_port, invalid_bastion_port, validate_entry}
use binport.Text.Decimal
use binport.Text.{Text, codes, lines, before, trim, split_once, is_whitespace, eq_ignore_ascii_case}

-- The part of a line in front of a `#`, trimmed and cut at its first blank.
unfoldable pub key_value : Text → Option (Text × Text)
unfolding before trim split_once is_whitespace
key_value raw = split_once is_whitespace (trim (before b'#' raw))

abbrev pub u16_max : ℕ
u16_max = 65535

abbrev pub new_entry : Text → HostEntry
new_entry value = record {
  name = value;
  hostname = [];
  user = [];
  port = 22;
  proxy_jump = none;
  strategy = none;
  bastion_proxy = none;
  bastion_user = none;
  bastion_account = none;
  bastion_port = none;
  bastion_preset = none;
  bastion_format = none;
}

abbrev pub is_key : Text → String → Bool
is_key key name = eq_ignore_ascii_case key (codes name)

-- One line inside a `Host` block. An unknown key changes nothing.
unfoldable pub set_field : HostEntry → Text → Text → Result Error HostEntry
unfolding eq_ignore_ascii_case
set_field entry key value =
    if is_key key "hostname"
    then ok (record entry { hostname = value })
    else if is_key key "user"
    then ok (record entry { user = value })
    else if is_key key "port"
    then (do
      port ← ok_or (Decimal.parse u16_max value) invalid_port
      ok (record entry { port = port }))
    else if is_key key "proxyjump"
    then ok (record entry { proxy_jump = some value })
    else if is_key key "binportstrategy"
    then ok (record entry { strategy = some value })
    else if is_key key "bastionproxy"
    then ok (record entry { bastion_proxy = some value })
    else if is_key key "bastionuser"
    then ok (record entry { bastion_user = some value })
    else if is_key key "bastionaccount"
    then ok (record entry { bastion_account = some value })
    else if is_key key "bastionport"
    then (do
      port ← ok_or (Decimal.parse u16_max value) invalid_bastion_port
      ok (record entry { bastion_port = some port }))
    else if is_key key "bastionpreset"
    then ok (record entry { bastion_preset = some value })
    else if is_key key "bastionformat"
    then ok (record entry { bastion_format = some value })
    else ok entry

pub record Parser : Type 0 where
  pub entries : List HostEntry
  pub current : Option HostEntry

-- `if let Some(entry) = current.take() { validate_entry(&entry)?; entries.push(entry) }`
unfoldable pub flush : List HostEntry → Option HostEntry → Result Error (List HostEntry)
flush entries none = ok entries
flush entries (some entry) = do validate_entry entry; ok (entries ++ entry ∷ [])

abbrev pub set_current : List HostEntry → Text → Text → Option HostEntry → Result Error Parser
set_current entries key value none = ok (record { entries = entries; current = none })
set_current entries key value (some entry) = do
  entry' ← set_field entry key value
  ok (record { entries = entries; current = some entry' })

unfoldable pub read_directive : Parser → Option (Text × Text) → Result Error Parser
unfolding flush eq_ignore_ascii_case trim set_field
read_directive p none = ok p
read_directive p (some (key, value)) =
    if is_key key "host"
    then (do
      entries ← flush p.entries p.current
      ok (record { entries = entries; current = some (new_entry (trim value)) }))
    else set_current p.entries key (trim value) p.current

unfoldable pub read_lines : Parser → List Text → Result Error (List HostEntry)
unfolding read_directive flush key_value
read_lines p [] = flush p.entries p.current
read_lines p (raw ∷ ls) = do q ← read_directive p (key_value raw); read_lines q ls

unfoldable pub parse : Text → Result Error (List HostEntry)
unfolding read_lines lines
parse source = read_lines (record { entries = []; current = none }) (lines source)

-- `format!("{prefix}{value}\n")`
abbrev pub line : String → Text → Text
line prefix value = codes prefix ++ (value ++ codes "\n")

abbrev pub option_line : String → Option Text → Text
option_line prefix none = []
option_line prefix (some value) = line prefix value

abbrev pub option_port : String → Option ℕ → Text
option_port prefix none = []
option_port prefix (some port) = line prefix (Decimal.show port)

unfoldable pub render_entry : HostEntry → Text
render_entry entry =
    line "Host " entry.name
    ++ (line "    HostName " entry.hostname
        ++ (line "    User " entry.user
            ++ (line "    Port " (Decimal.show entry.port)
                ++ (option_line "    ProxyJump " entry.proxy_jump
                    ++ (option_line "    BinportStrategy " entry.strategy
                        ++ (option_line "    BastionProxy " entry.bastion_proxy
                            ++ (option_line "    BastionUser " entry.bastion_user
                                ++ (option_line "    BastionAccount " entry.bastion_account
                                    ++ (option_port "    BastionPort " entry.bastion_port
                                        ++ (option_line "    BastionPreset " entry.bastion_preset
                                            ++ (option_line "    BastionFormat "
                                                  entry.bastion_format
                                                ++ codes "\n")))))))))))

unfoldable pub render_entries : List HostEntry → Text
unfolding render_entry
render_entries [] = []
render_entries (entry ∷ entries) = render_entry entry ++ render_entries entries

abbrev pub header : Text
header =
    codes
      "# Managed by binport. Use `binport host` to edit.\nIgnoreUnknown BastionProxy,BastionUser,BastionAccount,BastionPort,BastionPreset,BastionFormat,BinportStrategy\n\n"

unfoldable pub render : List HostEntry → Text
unfolding render_entries
render entries = header ++ render_entries entries
