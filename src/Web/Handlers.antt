-- ===== src/Web/Handlers.antt =====
-- src/web/handlers.rs: the handlers of the `/api` routes. The manager is an interface; the settings are
-- the file of the store. An error in a body is the error whose text is sent.
pub mod Settings
pub mod Validated
pub mod Examples
use zju_connect_gui.Base.{ℕ, List, Bool, true, false, Option, none, some, if◌then◌else◌}
use zju_connect_gui.Base.Results.{Result, ok, err}
use zju_connect_gui.Text.{Text}
use zju_connect_gui.Launch.{
  LaunchOptions, Platform, ValidationError, normalize_launch_options, validate,
}
use zju_connect_gui.Relaunch.{build_elevated_relaunch_args}
use zju_connect_gui.Store.{Writing, File}
use zju_connect_gui.Store.Settings.{Json, SettingsError, load, save}
use zju_connect_gui.Manager.State.{
  StartError, SubmitInputError, StateSnapshot, already_running, binary_missing, validation,
  spawn_failed, needs_elevation, session_stopped,
}
use zju_connect_gui.Program.Elevation.{Args, try_send}

pub data StatusCode : Type 0 where
  status_ok bad_request conflict precondition_failed internal_server_error : StatusCode

pub data StopError : Type 0 where
  io timeout : StopError

-- What the handlers call of `ProxyManager`, whose state is `M`.
pub record ProxyManager (M : Type 0) : Type 0 where
  pub start : LaunchOptions → M → M × Result (Unit {0}) StartError
  pub stop : M → M × Result (Unit {0}) StopError
  pub submit_input : Text → Option Text → M → M × Result (Unit {0}) SubmitInputError
  pub snapshot : M → StateSnapshot

pub record StatusSnapshot : Type 0 where
  pub session_active : Bool
  pub ready : Bool
  pub awaiting : Option Text

pub data Body : Type 0 where
  nothing : Body
  options : LaunchOptions → Body
  status : StatusSnapshot → Body
  settings_error : SettingsError → Body
  validation_error : ValidationError → Body
  start_error : StartError → Body
  stop_error : StopError → Body
  input_error : SubmitInputError → Body

pub record Response : Type 0 where
  pub code : StatusCode
  pub body : Body

-- What the handlers share: the manager, the file of the settings, and the channel to the event loop.
pub record AppState (M : Type 0) : Type 0 where
  pub manager : M
  pub settings : File
  pub elevate_tx : Option Args

abbrev pub plain : StatusCode → Response
plain code = record { code = code; body = nothing }

unfoldable start_code : StartError → StatusCode
start_code already_running = conflict
start_code session_stopped = conflict
start_code (validation e) = bad_request
start_code needs_elevation = precondition_failed
start_code (binary_missing path) = internal_server_error
start_code (spawn_failed e) = internal_server_error

unfoldable start_response : Result (Unit {0}) StartError → Response
unfolding start_code
start_response (ok _) = plain status_ok
start_response (err e) = record { code = start_code e; body = start_error e }

unfoldable stop_response : Result (Unit {0}) StopError → Response
stop_response (ok _) = plain status_ok
stop_response (err e) = record { code = internal_server_error; body = stop_error e }

unfoldable input_response : Result (Unit {0}) SubmitInputError → Response
input_response (ok _) = plain status_ok
input_response (err e) = record { code = bad_request; body = input_error e }

abbrev pub settings_response : Result LaunchOptions SettingsError → Response
settings_response (ok o) = record { code = status_ok; body = options o }
settings_response (err e) = plain internal_server_error

abbrev pub saved_response : LaunchOptions → Result (Unit {0}) SettingsError → Response
saved_response normalized (ok _) = record { code = status_ok; body = options normalized }
saved_response normalized (err e) = plain internal_server_error

abbrev request_elevation :
    {M : Type 0} (pid : ℕ) → AppState M → Result (Unit {0}) SettingsError → AppState M × Response
request_elevation pid app (err e) =
    (app, record { code = internal_server_error; body = settings_error e })
request_elevation pid app (ok _) = (
  record app { elevate_tx = try_send (build_elevated_relaunch_args pid) app.elevate_tx },
  plain status_ok,
)

module _ (to_lowercase : Text → Text) (platform : Platform) (json : Json) where
  -- The options of the request, or else those that are kept.
  unfoldable pub requested_options :
      Option LaunchOptions → File → Result LaunchOptions SettingsError
  unfolding normalize_launch_options load
  requested_options (some o) settings = ok (normalize_launch_options to_lowercase o)
  requested_options none settings = load to_lowercase platform json settings

module _ (to_lowercase : Text → Text) (platform : Platform) (json : Json) {M : Type 0} where
  unfoldable pub get_settings : AppState M → Response
  unfolding load
  get_settings app = settings_response (load to_lowercase platform json app.settings)

  unfoldable pub save_settings :
      (writing : Writing) → LaunchOptions → AppState M → AppState M × Response
  unfolding save normalize_launch_options
  save_settings writing raw app =
      let normalized = normalize_launch_options to_lowercase raw in
      let (settings, written) = save to_lowercase platform json writing normalized app.settings in
      (record app { settings = settings }, saved_response normalized written)

  unfoldable pub elevate :
      (writing : Writing) (pid : ℕ) → LaunchOptions → AppState M → AppState M × Response
  unfolding normalize_launch_options save try_send build_elevated_relaunch_args
  elevate writing pid raw app =
      let o = normalize_launch_options to_lowercase raw in
      let (settings, written) = save to_lowercase platform json writing o app.settings in
      request_elevation pid (record app { settings = settings }) written

module _ (to_lowercase : Text → Text) (platform : Platform) (json : Json) {M : Type 0}
    (proxy : ProxyManager M) where
  -- A save that fails does not keep the session from starting.
  unfoldable pub save_and_start :
      (writing : Writing) → LaunchOptions → AppState M → AppState M × Response
  unfolding save start_response
  save_and_start writing o app =
      let (settings, _) = save to_lowercase platform json writing o app.settings in
      let (manager, result) = proxy.start o app.manager in
      (record app { settings = settings; manager = manager }, start_response result)

  abbrev start_validated :
      (writing : Writing)
      → LaunchOptions
      → AppState M
      → Result (Unit {0}) ValidationError
      → AppState M × Response
  start_validated writing o app (err e) =
      (app, record { code = bad_request; body = validation_error e })
  start_validated writing o app (ok _) = save_and_start writing o app

  abbrev start_with :
      (writing : Writing) → AppState M → Result LaunchOptions SettingsError → AppState M × Response
  start_with writing app (err e) =
      (app, record { code = internal_server_error; body = settings_error e })
  start_with writing app (ok o) = start_validated writing o app (validate o)

  unfoldable pub start_proxy :
      (writing : Writing) → Option LaunchOptions → AppState M → AppState M × Response
  unfolding requested_options save_and_start
  start_proxy writing req app =
      start_with writing app (requested_options to_lowercase platform json req app.settings)

module _ {M : Type 0} (proxy : ProxyManager M) where
  unfoldable pub stop_proxy : AppState M → AppState M × Response
  unfolding stop_response
  stop_proxy app =
      let (manager, result) = proxy.stop app.manager in
      (record app { manager = manager }, stop_response result)

  unfoldable pub submit_input : Text → Option Text → AppState M → AppState M × Response
  unfolding input_response
  submit_input value kind app =
      let (manager, result) = proxy.submit_input value kind app.manager in
      (record app { manager = manager }, input_response result)

  unfoldable pub get_status : AppState M → Response
  get_status app =
      let snap = proxy.snapshot app.manager in
      record {
        code = status_ok;
        body = status (record {
          session_active = snap.session_active;
          ready = snap.ready;
          awaiting = snap.awaiting;
        });
      }
