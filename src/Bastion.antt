-- ===== src/Bastion.antt =====
-- The login formats of known bastions: src/bastion.rs, and `format_username` of src/ssh.rs.
use binport.Base.{String, List, [], ◌∷◌, Option, none, some, Result, ok, err, ◌>>=◌, ok_or, find}
use binport.Text.{Text, codes, equal}

pub record Preset : Type 0 where
  pub name : Text
  pub format : Text
  pub product : Text
  pub status : Text
  pub source : Text

abbrev preset : String → String → String → String → String → Preset
preset n f p s o = record {
  name = codes n;
  format = codes f;
  product = codes p;
  status = codes s;
  source = codes o;
}

abbrev pub presets : List Preset
presets =
    preset "h3c-iware-slash" "{user}/{host}/{account}" "H3C i-Ware" "deployment-verified"
      "binport deployment test"
    ∷ preset "huawei-cbh-at" "{user}@{account}@{host}" "Huawei Cloud CBH" "vendor-documented"
        "https://support.huaweicloud.com/intl/en-us/usermanual-cbh/cbh_02_000302.html"
    ∷ preset "jumpserver-koko-at" "{user}@{account}@{host}" "JumpServer/Koko" "community-reported"
        "https://github.com/anthropics/claude-code/issues/70461"
    ∷ preset "oneidentity-sps-inband" "{account}@{host}" "One Identity SPS" "vendor-documented"
        "https://support.oneidentity.com/technical-documents/one-identity-safeguard-for-privileged-sessions/7.0%20lts/administration-guide/the-concepts-of-one-identity-safeguard-for-privileged-sessions-sps/connecting-to-a-server-through-one-identity-safeguard-for-privileged-sessions-sps"
    ∷ preset "wallix-bastion-shell" "{account}@{host}:SSH:{user}" "WALLIX Bastion"
        "vendor-documented"
        "https://pam.wallix.one/documentation/user-doc/bastion_en_user_guide.pdf"
    ∷ preset "cyberark-psmp-at" "{user}@{account}@{host}" "CyberArk PSMP" "community-reported"
        "https://www.reddit.com/r/CyberARk/comments/chp9s9/psmp_implementation/"
    ∷ []

pub data Error : Type 0 where
  preset_and_format : Error
  unknown_preset : Text → Error

unfoldable pub find_preset : Text → Option Preset
find_preset name = find (λ preset. equal preset.name name) presets

unfoldable pub resolve_format : Option Text → Option Text → Result Error (Option Text)
unfolding find_preset
resolve_format (some name) (some custom) = err preset_and_format
resolve_format (some name) none = do
  preset ← ok_or (find_preset name) (unknown_preset name)
  ok (some preset.format)
resolve_format none (some format) = ok (some format)
resolve_format none none = ok none
