-- ===== src/Store/Settings.antt =====
-- src/backend/settings_store.rs: the launch options as they are kept. The JSON codec is a parameter.
pub mod SaveLoad
pub mod Examples
use zju_connect_gui.Base.{
  ℕ, List, [], ◌∷◌, Bool, true, false, not, ◌||◌, Option, none, some, if◌then◌else◌,
}
use zju_connect_gui.Base.Results.{Result, ok, err, ◌>>=◌}
use zju_connect_gui.Text.{Text, codes}
use zju_connect_gui.Launch.{
  LaunchOptions, Platform, blank_options, normalize_launch_options, default_proxybridge_processes,
  default_protocol, default_server, default_port, default_secondary_dns_server, default_auth_type,
  default_login_domain, default_client_data_file, default_eip_auto_open,
}
use zju_connect_gui.Store.{Writing, Bytes, File, missing, unreadable, holds, write_private}

pub data SettingsError : Type 0 where
  read parse write marshal : SettingsError

-- What the store uses of `serde_json`: the value of a file, the test of `as_object` and
-- `contains_key`, the record read from a value, and the file written for a record.
pub record Json : Type 1 where
  pub Value : Type 0
  pub from_slice : Bytes → Option Value
  pub contains_key : Text → Value → Bool
  pub from_value : Value → Option LaunchOptions
  pub to_vec_pretty : LaunchOptions → Option Bytes

unfoldable pub apply_fixed_defaults : LaunchOptions → LaunchOptions
apply_fixed_defaults options = record options {
  protocol = default_protocol;
  server = default_server;
  port = default_port;
  secondary_dns_server = default_secondary_dns_server;
  auth_type = default_auth_type;
  login_domain = default_login_domain;
  client_data_file = default_client_data_file;
}

abbrev pub or_parse_error : {A : Type 0} → Option A → Result A SettingsError
or_parse_error none = err parse
or_parse_error (some a) = ok a

module _ (to_lowercase : Text → Text) (platform : Platform) where
  unfoldable pub default_launch_options : LaunchOptions
  unfolding normalize_launch_options default_proxybridge_processes
  default_launch_options = record (normalize_launch_options to_lowercase blank_options) {
    protocol = default_protocol;
    server = default_server;
    port = default_port;
    secondary_dns_server = default_secondary_dns_server;
    auth_type = default_auth_type;
    login_domain = default_login_domain;
    client_data_file = default_client_data_file;
    eip_auto_open = default_eip_auto_open;
    tun_mode = true;
    proxybridge_processes = default_proxybridge_processes platform;
  }

  -- The options read from the file, with the defaults of the keys that it lacks.
  unfoldable pub complete :
      (has_eip_auto_open has_proxybridge_processes : Bool) → LaunchOptions → LaunchOptions
  unfolding apply_fixed_defaults normalize_launch_options
  complete has_eip_auto_open has_proxybridge_processes read_options =
      let options = apply_fixed_defaults (normalize_launch_options to_lowercase read_options) in
      record options {
        eip_auto_open = if has_eip_auto_open then options.eip_auto_open else default_eip_auto_open;
        proxybridge_processes =
            if has_proxybridge_processes
            then options.proxybridge_processes
            else default_proxybridge_processes platform;
      }

  unfoldable pub load : Json → File → Result LaunchOptions SettingsError
  unfolding default_launch_options complete
  load json missing = ok default_launch_options
  load json unreadable = err read
  load json (holds bytes) = or_parse_error (json.from_slice bytes) >>= λ raw.
      or_parse_error (json.from_value raw) >>= λ options. ok (
        complete (json.contains_key (codes "eipAutoOpen") raw)
          (json.contains_key (codes "proxybridgeProcesses") raw) options)

  unfoldable pub save :
      Json → (writing : Writing) → LaunchOptions → File → File × Result (Unit {0}) SettingsError
  unfolding apply_fixed_defaults normalize_launch_options write_private
  save json writing options file =
      let prepared = apply_fixed_defaults (normalize_launch_options to_lowercase options) in
      elim (json.to_vec_pretty prepared) [
        | none ↦ (file, err marshal)
        | some payload ↦ write_private writing write file payload
      ]
