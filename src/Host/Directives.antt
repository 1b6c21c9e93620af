-- ===== src/Host/Directives.antt =====
-- The constant texts in front of the values that `render` writes.
use binport.Base.{[], refl, String}
use binport.Host.Lines.{IsDirective}
use binport.Text.{codes, is_ascii_alphanumeric}

abbrev pub Directive : String → String → Type 0
Directive prefix key = IsDirective prefix (codes key)

pub host_directive : Directive "Host " "Host"
unfolding is_ascii_alphanumeric
host_directive = record { indent = []; spelled = refl; spaces = refl; ne_nil = cc; letters = refl }

pub hostname : Directive "    HostName " "HostName"
unfolding is_ascii_alphanumeric
hostname = record {
  indent = codes "    ";
  spelled = refl;
  spaces = refl;
  ne_nil = cc;
  letters = refl;
}

pub user : Directive "    User " "User"
unfolding is_ascii_alphanumeric
user = record { indent = codes "    "; spelled = refl; spaces = refl; ne_nil = cc; letters = refl }

pub port : Directive "    Port " "Port"
unfolding is_ascii_alphanumeric
port = record { indent = codes "    "; spelled = refl; spaces = refl; ne_nil = cc; letters = refl }

pub proxyjump : Directive "    ProxyJump " "ProxyJump"
unfolding is_ascii_alphanumeric
proxyjump = record {
  indent = codes "    ";
  spelled = refl;
  spaces = refl;
  ne_nil = cc;
  letters = refl;
}

pub binportstrategy : Directive "    BinportStrategy " "BinportStrategy"
unfolding is_ascii_alphanumeric
binportstrategy = record {
  indent = codes "    ";
  spelled = refl;
  spaces = refl;
  ne_nil = cc;
  letters = refl;
}

pub bastionproxy : Directive "    BastionProxy " "BastionProxy"
unfolding is_ascii_alphanumeric
bastionproxy = record {
  indent = codes "    ";
  spelled = refl;
  spaces = refl;
  ne_nil = cc;
  letters = refl;
}

pub bastionuser : Directive "    BastionUser " "BastionUser"
unfolding is_ascii_alphanumeric
bastionuser = record {
  indent = codes "    ";
  spelled = refl;
  spaces = refl;
  ne_nil = cc;
  letters = refl;
}

pub bastionaccount : Directive "    BastionAccount " "BastionAccount"
unfolding is_ascii_alphanumeric
bastionaccount = record {
  indent = codes "    ";
  spelled = refl;
  spaces = refl;
  ne_nil = cc;
  letters = refl;
}

pub bastionport : Directive "    BastionPort " "BastionPort"
unfolding is_ascii_alphanumeric
bastionport = record {
  indent = codes "    ";
  spelled = refl;
  spaces = refl;
  ne_nil = cc;
  letters = refl;
}

pub bastionpreset : Directive "    BastionPreset " "BastionPreset"
unfolding is_ascii_alphanumeric
bastionpreset = record {
  indent = codes "    ";
  spelled = refl;
  spaces = refl;
  ne_nil = cc;
  letters = refl;
}

pub bastionformat : Directive "    BastionFormat " "BastionFormat"
unfolding is_ascii_alphanumeric
bastionformat = record {
  indent = codes "    ";
  spelled = refl;
  spaces = refl;
  ne_nil = cc;
  letters = refl;
}
