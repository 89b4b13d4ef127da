-- ===== src/Launch.antt =====
-- src/backend/launch_options.rs: the launch options, their normal form, their validation and the
-- command line built from them.
pub mod Normal
pub mod Validity
pub mod Args
pub mod Examples
use mathlib.Core.Option
use zju_connect_gui.Base.{
  ℕ, zero, suc, List, [], ◌∷◌, ◌++◌, Bool, true, false, Option, none, some, not, ◌==◌, any, leb,
  if◌then◌else◌,
}
use zju_connect_gui.Base.Results.{Result, ok, err, ◌>>◌, fail_if}
use zju_connect_gui.Text.{Text, codes, is_empty, trim, text_eq}
use zju_connect_gui.Text.Decimal.{to_decimal}

abbrev pub default_protocol : Text
default_protocol = codes "atrust"

abbrev pub default_server : Text
default_server = codes "sslvpn.scmcc.com.cn"

abbrev pub default_port : ℕ
default_port = 443

abbrev pub default_socks_bind : Text
default_socks_bind = codes "127.0.0.1:1080"

abbrev pub default_http_bind : Text
default_http_bind = codes "127.0.0.1:8888"

abbrev pub default_secondary_dns_server : Text
default_secondary_dns_server = codes "223.5.5.5"

abbrev pub default_auth_type : Text
default_auth_type = codes "auth/psw"

abbrev pub default_login_domain : Text
default_login_domain = codes "AD"

abbrev pub default_client_data_file : Text
default_client_data_file = codes "client_data.json"

abbrev pub default_eip_auto_open : Bool
default_eip_auto_open = true

abbrev pub supported_protocols : List Text
supported_protocols = codes "atrust" ∷ codes "easyconnect" ∷ []

-- The operating system that the program is compiled for.
pub data Platform : Type 0 where
  windows linux macos : Platform

unfoldable pub default_proxybridge_processes : Platform → List Text
default_proxybridge_processes windows = codes "mstsc.exe" ∷ []
default_proxybridge_processes linux = codes "xfreerdp" ∷ []
default_proxybridge_processes macos = []

pub record LaunchOptions : Type 0 where
  pub protocol : Text
  pub server : Text
  pub port : ℕ  -- u16
  pub username : Text
  pub password : Text
  pub socks_bind : Text
  pub http_bind : Text
  pub secondary_dns_server : Text
  pub auth_type : Text
  pub login_domain : Text
  pub client_data_file : Text
  pub eip_auto_open : Bool
  pub eip_browser_program : Text
  pub eip_browser_args : List Text
  pub tun_mode : Bool
  pub debug_dump : Bool
  pub proxybridge_enabled : Bool
  pub proxybridge_processes : List Text
  pub proxybridge_path : Option Text

-- `LaunchOptions::default()`
abbrev pub blank_options : LaunchOptions
blank_options = record {
  protocol = [];
  server = [];
  port = 0;
  username = [];
  password = [];
  socks_bind = [];
  http_bind = [];
  secondary_dns_server = [];
  auth_type = [];
  login_domain = [];
  client_data_file = [];
  eip_auto_open = false;
  eip_browser_program = [];
  eip_browser_args = [];
  tun_mode = false;
  debug_dump = false;
  proxybridge_enabled = false;
  proxybridge_processes = [];
  proxybridge_path = none;
}

pub data ValidationError : Type 0 where
  unsupported_protocol : Text → ValidationError
  empty_server invalid_port empty_username empty_password empty_socks_bind empty_http_bind
        empty_secondary_dns_server empty_auth_type empty_login_domain empty_client_data_file :
      ValidationError

-- The loop pushes each trimmed value that is not empty.
unfoldable pub normalize_string_list : List Text → List Text
normalize_string_list [] = []
normalize_string_list (v ∷ values) =
    let rest = normalize_string_list values in if is_empty (trim v) then rest else trim v ∷ rest

-- `if field.is_empty() { field = default }`
unfoldable pub or_default : Text → Text → Text
or_default default field = if is_empty field then default else field

-- `.map(|p| p.trim().to_string()).filter(|p| !p.is_empty())`
unfoldable pub trim_path : Option Text → Option Text
trim_path none = none
trim_path (some p) = if is_empty (trim p) then none else some (trim p)

-- `to_lowercase` is the standard library's, which follows the Unicode tables.
unfoldable pub normalize_launch_options :
    (to_lowercase : Text → Text) → LaunchOptions → LaunchOptions
normalize_launch_options to_lowercase options = record options {
  protocol = or_default default_protocol (to_lowercase (trim options.protocol));
  server = or_default default_server (trim options.server);
  port = if options.port == 0 then default_port else options.port;
  username = trim options.username;
  socks_bind = or_default default_socks_bind (trim options.socks_bind);
  http_bind = or_default default_http_bind (trim options.http_bind);
  secondary_dns_server =
      or_default default_secondary_dns_server (trim options.secondary_dns_server);
  auth_type = or_default default_auth_type (trim options.auth_type);
  login_domain = or_default default_login_domain (trim options.login_domain);
  client_data_file = or_default default_client_data_file (trim options.client_data_file);
  eip_browser_program = trim options.eip_browser_program;
  eip_browser_args = normalize_string_list options.eip_browser_args;
  proxybridge_processes = normalize_string_list options.proxybridge_processes;
  proxybridge_path = trim_path options.proxybridge_path;
}

unfoldable pub validate : LaunchOptions → Result (Unit {0}) ValidationError
validate o = do
  fail_if (not (any (text_eq o.protocol) supported_protocols)) (unsupported_protocol o.protocol)
  fail_if (is_empty o.server) empty_server
  fail_if (o.port == 0) invalid_port
  fail_if (is_empty o.username) empty_username
  fail_if (is_empty o.password) empty_password
  fail_if (is_empty o.socks_bind) empty_socks_bind
  fail_if (is_empty o.http_bind) empty_http_bind
  fail_if (is_empty o.secondary_dns_server) empty_secondary_dns_server
  fail_if (is_empty o.auth_type) empty_auth_type
  fail_if (is_empty o.login_domain) empty_login_domain
  fail_if (is_empty o.client_data_file) empty_client_data_file
  ok tt

-- `args.push` and `args.extend` under a test.
abbrev pub only_if : Bool → List Text → List Text
only_if test args = if test then args else []

unfoldable pub build_args : LaunchOptions → Text → List Text
build_args o captcha_path =
    (codes "-protocol"
      ∷ o.protocol
      ∷ codes "-server"
      ∷ o.server
      ∷ codes "-port"
      ∷ to_decimal o.port
      ∷ codes "-username"
      ∷ o.username
      ∷ codes "-password"
      ∷ o.password
      ∷ codes "-disable-zju-config"
      ∷ codes "-socks-bind"
      ∷ o.socks_bind
      ∷ codes "-http-bind"
      ∷ o.http_bind
      ∷ codes "-secondary-dns-server"
      ∷ o.secondary_dns_server
      ∷ codes "-auth-type"
      ∷ o.auth_type
      ∷ codes "-login-domain"
      ∷ o.login_domain
      ∷ codes "-client-data-file"
      ∷ o.client_data_file
      ∷ [])
    ++ (only_if (not (is_empty captcha_path)) (codes "-graph-code-file" ∷ captcha_path ∷ [])
        ++ (only_if o.tun_mode
              (codes "-tun-mode" ∷ codes "-add-route" ∷ codes "-dns-hijack" ∷ codes "-fake-ip" ∷ [])
            ++ only_if o.debug_dump (codes "-debug-dump" ∷ [])))
