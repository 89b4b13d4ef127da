-- ===== src/Manager/State.antt =====
-- The data of src/backend/proxy/manager.rs: events, errors, the state behind the mutex, and the
-- effects that the code has outside that state.
use zju_connect_gui.Base.{
  ℕ, ◌+◌, ◌-◌, ◌%◌, ◌^◌, ◌∷◌, [], ◌++◌, List, Bool, false, Option, none, some, ltb, if◌then◌else◌,
}
use zju_connect_gui.Base.Results.{Result}
use zju_connect_gui.Text.{Text, codes}
use zju_connect_gui.Launch.{LaunchOptions, ValidationError, blank_options, Platform}
use zju_connect_gui.Launch
use zju_connect_gui.Proxybridge.{Paths}
use zju_connect_gui.Retry.{Duration, JitterFn}

pub data ProxyState : Type 0 where
  stopped running connected awaiting retrying connecting : ProxyState

unfoldable state_name : ProxyState → Text
state_name stopped = codes "stopped"
state_name running = codes "running"
state_name connected = codes "connected"
state_name awaiting = codes "awaiting"
state_name retrying = codes "retrying"
state_name connecting = codes "connecting"

pub data InputKind : Type 0 where
  sms callback : InputKind

abbrev pub kind_name : InputKind → Text
kind_name sms = codes "sms"
kind_name callback = codes "callback"

-- The payload of `ProxyEvent::State`.
pub record StateReport : Type 0 where
  pub state : ProxyState
  pub message : Option Text
  pub awaiting : Option Text
  pub running : Bool
  pub retry_attempt : ℕ  -- u32
  pub retry_delay_ms : ℕ  -- u64

pub data ProxyEvent : Type 0 where
  log : Text → ProxyEvent
  state_report : StateReport → ProxyEvent
  need_input : InputKind → Text → ProxyEvent
  need_captcha : (base64 : Text) (updated_at_ms : ℕ) → ProxyEvent
  error : Text → ProxyEvent

-- An operating system error is its text.
pub data StartError : Type 0 where
  already_running : StartError
  binary_missing : Text → StartError
  validation : ValidationError → StartError
  spawn_failed : Text → StartError
  needs_elevation : StartError
  session_stopped : StartError

pub data SubmitInputError : Type 0 where
  empty : SubmitInputError
  not_running : SubmitInputError
  kind_mismatch : (awaiting requested : Text) → SubmitInputError
  missing_kind : SubmitInputError
  not_awaiting : SubmitInputError
  invalid_value : SubmitInputError
  too_long : SubmitInputError

unfoldable validation_text : ValidationError → Text
validation_text (Launch.unsupported_protocol p) = codes "unsupported protocol: " ++ p
validation_text Launch.empty_server = codes "server cannot be empty"
validation_text Launch.invalid_port = codes "port must be between 1 and 65535"
validation_text Launch.empty_username = codes "username cannot be empty"
validation_text Launch.empty_password = codes "password cannot be empty"
validation_text Launch.empty_socks_bind = codes "socks-bind cannot be empty"
validation_text Launch.empty_http_bind = codes "http-bind cannot be empty"
validation_text Launch.empty_secondary_dns_server = codes "secondary-dns-server cannot be empty"
validation_text Launch.empty_auth_type = codes "auth-type cannot be empty"
validation_text Launch.empty_login_domain = codes "login-domain cannot be empty"
validation_text Launch.empty_client_data_file = codes "client-data-file cannot be empty"

unfoldable pub start_error_text : StartError → Text
unfolding validation_text
start_error_text already_running = codes "zju-connect is already running"
start_error_text (binary_missing path) = codes "zju-connect binary not found: " ++ path
start_error_text (validation e) = codes "invalid options: " ++ validation_text e
start_error_text (spawn_failed e) = codes "failed to spawn child: " ++ e
start_error_text needs_elevation = codes "tun mode requires elevated application restart"
start_error_text session_stopped = codes "session is no longer active"

unfoldable submit_error_text : SubmitInputError → Text
submit_error_text empty = codes "input cannot be empty"
submit_error_text not_running = codes "process is not running"
submit_error_text (kind_mismatch expected requested) =
    codes "waiting for " ++ (expected ++ (codes ", not " ++ requested))
submit_error_text missing_kind = codes "input kind is required (sms/callback/captcha)"
submit_error_text not_awaiting = codes "no input is currently requested"
submit_error_text invalid_value = codes "input contains newline or control characters"
submit_error_text too_long = codes "input is too long (max 4096 bytes)"

-- What a call of the manager returns.
pub data Reply : Type 0 where
  start_result : Result (Unit {0}) StartError → Reply
  stop_result : Reply  -- `stop` returns `Ok(())` on every path
  submit_result : Result (Unit {0}) SubmitInputError → Reply

-- A task handle and a loaded library are numbers; a channel is the number of its child process.
pub record State : Type 0 where
  pub session_active : Bool
  pub awaiting : Option Text
  pub captcha_polling : Bool
  pub captcha_poll_gen : ℕ  -- u64
  pub captcha_poll_handle : Option ℕ
  pub captcha_path : Text
  pub eip_options : LaunchOptions
  pub eip_opened : Bool
  pub last_options : LaunchOptions
  pub ready : Bool
  pub ready_wait_gen : ℕ  -- u64
  pub retry_attempt : ℕ  -- u32
  pub retry_generation : ℕ  -- u64
  pub child_pid : Option ℕ
  pub stdin_tx : Option ℕ
  pub stop_tx : Option ℕ
  pub delayed_eip : Option ℕ
  pub retry_handle : Option ℕ
  pub readiness_handle : Option ℕ
  pub proxybridge : Option ℕ
  pub proxybridge_started : Bool
  pub proxybridge_handle : Option ℕ

-- `State::new()`
abbrev pub new_state : State
new_state = record {
  session_active = false;
  awaiting = none;
  captcha_polling = false;
  captcha_poll_gen = 0;
  captcha_poll_handle = none;
  captcha_path = [];
  eip_options = blank_options;
  eip_opened = false;
  last_options = blank_options;
  ready = false;
  ready_wait_gen = 0;
  retry_attempt = 0;
  retry_generation = 0;
  child_pid = none;
  stdin_tx = none;
  stop_tx = none;
  delayed_eip = none;
  retry_handle = none;
  readiness_handle = none;
  proxybridge = none;
  proxybridge_started = false;
  proxybridge_handle = none;
}

-- What the code does besides changing the state, in order.
pub data Effect : Type 0 where
  emit : ProxyEvent → Effect
  show_window : Effect
  abort : ℕ → Effect
  remove_file : Text → Effect
  spawn_process : (pid : ℕ) (args : List Text) → Effect
  signal_process : (pid : ℕ) → Effect
  kill_process : (pid : ℕ) → Effect
  send_line : (channel : ℕ) → Text → Effect
  send_stop : (channel : ℕ) → Effect
  open_browser : LaunchOptions → Effect
  start_bridge : ℕ → Effect
  stop_bridge : ℕ → Effect
  reply : Reply → Effect

-- `if let Some(handle) = handle.take() { handle.abort() }`, as an effect.
abbrev pub abort_taken : Option ℕ → List Effect
abort_taken none = []
abort_taken (some handle) = abort handle ∷ []

abbrev pub emit_log : Text → Effect
emit_log line = emit (log line)

-- `wrapping_add(1)` on u64, and `saturating_add(1)` on u32.
abbrev pub next_generation : ℕ → ℕ
next_generation g = (g + 1) % 2 ^ 64

abbrev pub next_attempt : ℕ → ℕ
next_attempt n = if ltb n (2 ^ 32 - 1) then n + 1 else 2 ^ 32 - 1

-- `cancel_delayed_eip`, `cancel_retry`, `cancel_readiness` and `cancel_captcha_poll`.
unfoldable pub cancel_delayed_eip : State → State × List Effect
cancel_delayed_eip s = (record s { delayed_eip = none }, abort_taken s.delayed_eip)

unfoldable pub cancel_retry : State → State × List Effect
cancel_retry s = (record s { retry_handle = none }, abort_taken s.retry_handle)

unfoldable pub cancel_readiness : State → State × List Effect
cancel_readiness s = (record s { readiness_handle = none }, abort_taken s.readiness_handle)

unfoldable pub cancel_captcha_poll : State → State × List Effect
cancel_captcha_poll s = (
  record s { captcha_poll_handle = none; captcha_polling = false },
  abort_taken s.captcha_poll_handle,
)

pub record StateSnapshot : Type 0 where
  pub session_active : Bool
  pub ready : Bool
  pub retry_attempt : ℕ
  pub awaiting : Option Text
  pub child_pid : Option ℕ

unfoldable pub snapshot : State → StateSnapshot
snapshot s = record {
  session_active = s.session_active;
  ready = s.ready;
  retry_attempt = s.retry_attempt;
  awaiting = s.awaiting;
  child_pid = s.child_pid;
}

unfoldable is_running : State → Bool
is_running s = s.session_active

-- The manager's configuration, the platform, and the library functions whose code is elsewhere.
pub record Env : Type 0 where
  pub app_dir : Text
  pub platform : Platform
  pub elevated : Bool
  pub paths : Paths
  pub to_lowercase : Text → Text
  pub retry_base_delay : Duration
  pub retry_max_delay : Duration
  pub retry_jitter : JitterFn
  pub binary_path : Option Text
  pub round_secs : Duration → ℕ
  pub debug_duration : Duration → Text
  pub encode_base64 : List ℕ → Text
