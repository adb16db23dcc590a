-- ===== src/Ui/Settings.antt =====
-- crates/client-ui/src/settings.rs: the settings and the language. serde_json is a parameter, which
-- fills the fields that a file lacks with their defaults.
use rsmsg.Base.{Bool, false, Option, none, some, [], is_empty, unwrap_or, if◌then◌else◌}
use rsmsg.Base.Text.{Text, codes}
use rsmsg.Base.Utf8.{as_bytes, from_utf8}
use rsmsg.Client.Library.{Json}
use rsmsg.Client.Types.{starts_with}
use rsmsg.Client.Storage.{Host, Files, profile_file, legacy_profile_file, read_file}

pub data AppTheme : Type 0 where
  system light dark : AppTheme

pub data AppLanguage : Type 0 where
  system_language english russian : AppLanguage

pub record AppSettings : Type 0 where
  pub theme : AppTheme
  pub language : AppLanguage
  pub default_username : Text
  pub server_url : Text
  pub microphone : Text
  pub speaker : Text
  pub camera : Text
  pub ice_servers : Text
  pub turn_username : Text
  pub turn_password : Text
  pub noise_suppression : Bool
  pub automatic_gain_control : Bool
  pub show_call_debug_info : Bool

-- `AppSettings::default()`, which is derived: every field has the default of its type.
abbrev pub default_settings : AppSettings
default_settings = record {
  theme = system;
  language = system_language;
  default_username = [];
  server_url = [];
  microphone = [];
  speaker = [];
  camera = [];
  ice_servers = [];
  turn_username = [];
  turn_password = [];
  noise_suppression = false;
  automatic_gain_control = false;
  show_call_debug_info = false;
}

-- `or_else`
abbrev pub or_else {ℓ} : {A : Type ℓ} → Option A → Option A → Option A
or_else (some a) other = some a
or_else none other = other

-- `to_lowercase` is a parameter.
unfoldable pub system_language_code : (Text → Text) → Host → Text
system_language_code to_lowercase host =
    let language = unwrap_or (or_else (host.var (codes "LANG")) (host.var (codes "LC_ALL"))) [] in
    if starts_with (codes "ru") (to_lowercase language) then codes "ru" else codes "en"

-- `AppLanguage::code`
unfoldable pub code : (Text → Text) → Host → AppLanguage → Text
unfolding system_language_code
code to_lowercase host system_language = system_language_code to_lowercase host
code to_lowercase host english = codes "en"
code to_lowercase host russian = codes "ru"

unfoldable pub settings_file : Host → Text
settings_file host = profile_file host (codes "rsmsg_settings")

unfoldable pub legacy_settings_file : Host → Text
legacy_settings_file host = legacy_profile_file host (codes "rsmsg_settings")

-- `fs::read_to_string`
unfoldable pub read_to_string : Host → Text → Files → Option Text
unfolding read_file
read_to_string host path files = elim (read_file host path files) [
  | none ↦ none
  | some bytes ↦ from_utf8 bytes
]

-- `AppSettings::load`
unfoldable pub load_settings : Json AppSettings → Host → Files → AppSettings
unfolding read_to_string settings_file legacy_settings_file
load_settings json host files =
    let raw =
      unwrap_or
        (or_else (read_to_string host (settings_file host) files)
          (read_to_string host (legacy_settings_file host) files))
        [] in
    if is_empty raw
    then default_settings
    else unwrap_or (json.from_slice (as_bytes raw)) default_settings
