-- ===== src/Web/Handlers/Validated.antt =====
-- The two validations of a start: the handler's, and the manager's behind it.
use zju_connect_gui.Base.{
  ◌≡◌, refl, ap, subst, List, Bool, true, false, Option, none, some, Bool-cases, inl, inr,
  if◌then◌else◌,
}
use zju_connect_gui.Base.Results.{Result, ok, err, ◌>>=◌}
use zju_connect_gui.Text.{Text, codes, is_empty, trim, is_whitespace}
use zju_connect_gui.Launch.{
  LaunchOptions, Platform, windows, linux, macos, normalize_launch_options, normalize_string_list,
  validate, default_protocol, default_proxybridge_processes, or_default, blank_options,
  default_eip_auto_open,
}
use zju_connect_gui.Launch.Normal.{
  IsLowercase, normalize_launch_options_idem, normalize_string_list_idem,
}
use zju_connect_gui.Launch.Validity.{IsLaunchable, validate_iff}
use zju_connect_gui.Store.{File, missing, unreadable, holds}
use zju_connect_gui.Store.Settings.{
  Json, SettingsError, apply_fixed_defaults, complete, default_launch_options, load, or_parse_error,
}
use zju_connect_gui.Manager.State.{State, Env, needs_elevation}
use zju_connect_gui.Manager.Start.{
  prepare_options, step_start_check, check_validated, claim_session, requires_elevation, refuse,
}
use zju_connect_gui.Web.Handlers.{requested_options}

module _ {to_lowercase : Text → Text} (laws : IsLowercase to_lowercase) where
  abbrev IsNormal : LaunchOptions → Type 0
  IsNormal o = normalize_launch_options to_lowercase o ≡ o

  default_protocol_normal :
      or_default default_protocol (to_lowercase default_protocol) ≡ default_protocol
  unfolding or_default is_empty
  default_protocol_normal = rw laws.keeps_default refl

  -- Fixed settings and a list of processes in normal form keep the normal form.
  fixed-IsNormal :
      (o : LaunchOptions) (eip : Bool) (processes : List Text)
      → IsNormal o
      → normalize_string_list processes ≡ processes
      → IsNormal (record (apply_fixed_defaults o) {
        eip_auto_open = eip;
        proxybridge_processes = processes;
      })
  unfolding apply_fixed_defaults normalize_launch_options or_default is_empty trim is_whitespace
  fixed-IsNormal o eip processes h e = λ i. record (apply_fixed_defaults o) {
    protocol = default_protocol_normal i;
    username = (h i).username;
    socks_bind = (h i).socks_bind;
    http_bind = (h i).http_bind;
    eip_auto_open = eip;
    eip_browser_program = (h i).eip_browser_program;
    eip_browser_args = (h i).eip_browser_args;
    proxybridge_processes = e i;
    proxybridge_path = (h i).proxybridge_path;
  }

  default_processes_normal :
      (platform : Platform)
      → normalize_string_list (default_proxybridge_processes platform)
        ≡ default_proxybridge_processes platform
  unfolding normalize_string_list default_proxybridge_processes trim is_whitespace is_empty
  default_processes_normal windows = refl
  default_processes_normal linux = refl
  default_processes_normal macos = refl

  complete-IsNormal :
      (platform : Platform) (eip processes : Bool) (o : LaunchOptions)
      → IsNormal (complete to_lowercase platform eip processes o)
  unfolding complete
  complete-IsNormal platform eip true o =
      fixed-IsNormal (normalize_launch_options to_lowercase o) _ _
        (normalize_launch_options_idem laws o) (normalize_string_list_idem o.proxybridge_processes)
  complete-IsNormal platform eip false o =
      fixed-IsNormal (normalize_launch_options to_lowercase o) _ _
        (normalize_launch_options_idem laws o) (default_processes_normal platform)

  default-IsNormal : (platform : Platform) → IsNormal (default_launch_options to_lowercase platform)
  unfolding default_launch_options apply_fixed_defaults
  default-IsNormal platform =
      fixed-IsNormal
        (record (normalize_launch_options to_lowercase blank_options) { tun_mode = true })
        default_eip_auto_open (default_proxybridge_processes platform)
        (λ i. record (normalize_launch_options_idem laws blank_options i) { tun_mode = true })
        (default_processes_normal platform)

  abbrev IsNormalIfOk : Result LaunchOptions SettingsError → Type 0
  IsNormalIfOk (ok o) = IsNormal o
  IsNormalIfOk (err e) = Unit

  value-IsNormal :
      (platform : Platform) (eip processes : Bool) (value : Option LaunchOptions)
      → IsNormalIfOk
          (or_parse_error value >>= λ o. ok (complete to_lowercase platform eip processes o))
  value-IsNormal platform eip processes none = tt
  value-IsNormal platform eip processes (some o) = complete-IsNormal platform eip processes o

  bytes-IsNormal :
      (platform : Platform) (json : Json) (value : Option json.Value)
      → IsNormalIfOk (
          or_parse_error value >>= λ raw. or_parse_error (json.from_value raw) >>= λ o. ok (
            complete to_lowercase platform
              (json.contains_key (codes "eipAutoOpen") raw)
              (json.contains_key (codes "proxybridgeProcesses") raw)
              o))
  bytes-IsNormal platform json none = tt
  bytes-IsNormal platform json (some raw) =
      value-IsNormal platform (json.contains_key (codes "eipAutoOpen") raw)
        (json.contains_key (codes "proxybridgeProcesses") raw) (json.from_value raw)

  requested-IsNormal :
      (platform : Platform) (json : Json) (req : Option LaunchOptions) (settings : File)
      → IsNormalIfOk (requested_options to_lowercase platform json req settings)
  unfolding requested_options load
  requested-IsNormal platform json (some raw) settings = normalize_launch_options_idem laws raw
  requested-IsNormal platform json none missing = default-IsNormal platform
  requested-IsNormal platform json none unreadable = tt
  requested-IsNormal platform json none (holds bytes) =
      bytes-IsNormal platform json (json.from_slice bytes)

-- A joined path is empty only if what is joined to it is.
abbrev pub IsJoin : (join : Text → Text → Text) → Type 0
IsJoin join = (base path : Text) → is_empty path ≡ false → is_empty (join base path) ≡ false

module _ (env : Env) (join_law : IsJoin env.paths.join) where
  IsLaunchable-prepare_options :
      (o : LaunchOptions)
      → normalize_launch_options env.to_lowercase o ≡ o
      → IsLaunchable o
      → IsLaunchable (prepare_options env o)
  unfolding prepare_options
  IsLaunchable-prepare_options o h l =
      rw h (elim (Bool-cases (env.paths.is_absolute o.client_data_file)) [
        | inl absolute ↦ rw absolute l
        | inr relative ↦ rw relative (record {
          protocol_known = l.protocol_known;
          has_server = l.has_server;
          has_port = l.has_port;
          has_username = l.has_username;
          has_password = l.has_password;
          has_socks_bind = l.has_socks_bind;
          has_http_bind = l.has_http_bind;
          has_secondary_dns_server = l.has_secondary_dns_server;
          has_auth_type = l.has_auth_type;
          has_login_domain = l.has_login_domain;
          has_client_data_file = join_law env.app_dir o.client_data_file l.has_client_data_file;
        })
      ])

  -- The options of a request to start, given or kept, that the handler finds valid are not refused as
  -- invalid by the manager, which prepares them and validates again: it refuses them for missing rights
  -- or goes on to claim the session. `to_lowercase` keeps lower-case text and trimmed text, and joining
  -- a path to the application's folder leaves some text.
  pub step_start_check-requested_options :
      (laws : IsLowercase env.to_lowercase) (json : Json) (req : Option LaunchOptions)
      (settings : File) (o : LaunchOptions) (s : State)
      → requested_options env.to_lowercase env.platform json req settings ≡ ok o
      → validate o ≡ ok tt
      → step_start_check env o s ≡ (
          if requires_elevation env.platform env.elevated (prepare_options env o)
          then refuse s needs_elevation
          else claim_session (prepare_options env o) s)
  unfolding step_start_check
  step_start_check-requested_options laws json req settings o s e valid =
      ap (check_validated env (prepare_options env o) s) (
        (validate_iff (prepare_options env o)).1 (
          IsLaunchable-prepare_options o
            (subst (IsNormalIfOk laws) e (requested-IsNormal laws env.platform json req settings))
            ((validate_iff o).0 valid)))
