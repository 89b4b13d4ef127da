-- ===== src/Manager/Action.antt =====
-- The code of src/backend/proxy/manager.rs cut at its locks. An action is the code of one critical
-- section, with what follows it up to the next lock or await; a thread is a list of actions.
use zju_connect_gui.Base.{ℕ, List, [], Bool, Option}
use zju_connect_gui.Base.Results.{Result}
use zju_connect_gui.Text.{Text}
use zju_connect_gui.Launch.{LaunchOptions}
use zju_connect_gui.Manager.State.{ProxyState, InputKind, StartError, Reply, State, Effect}

-- How far `supervise_child` is: waiting for the child, in the grace period, or killing it.
pub data Phase : Type 0 where
  watching in_grace killing : Phase

-- What a retry is scheduled for: the child's exit, or a start that failed.
pub data Cause : Type 0 where
  after_exit : (descr : Text) → Cause
  after_failed_start : StartError → Cause

pub data Action : Type 0 where
  -- `start`
  start_check : LaunchOptions → Action
  start_reset : LaunchOptions → Action
  start_spawn : LaunchOptions → (captcha_path : Text) (generation : ℕ) → Action
  cleanup_failed_start : (generation : ℕ) → StartError → Action
  -- `stop` and `submit_input`
  stop_session : Action
  submit_input : (value : Text) (kind : Option Text) → Action
  -- `emit_state_with_details`, a return, and `runtime.spawn`
  emit_state : ProxyState → (message : Option Text) (attempt delay : ℕ) → Action
  give_reply : Reply → Action
  spawn_task : Action → Action
  -- `supervise_child` and `handle_process_exit`
  supervise : Phase → (pid generation : ℕ) → Action
  child_gone : (generation : ℕ) → Action
  process_exit : (generation : ℕ) (descr : Text) → Action
  -- the lines of the child
  log_line : Text → Action
  check_ready_line : (trimmed : Text) → Action
  request_input : InputKind → (prompt : Text) → Action
  request_captcha : Action
  store_captcha_handle : (task : ℕ) → Action
  captcha_poll : Action
  captcha_poll_end : Action
  -- readiness
  begin_ready_wait : (bind : Text) → Action
  store_readiness_handle : (task : ℕ) → Action
  ready_poll : (dial : Text) (generation : ℕ) → Action
  mark_ready : (generation : ℕ) → Action
  -- the delayed EIP page
  schedule_eip : (generation : ℕ) → Action
  store_eip_handle : (task : ℕ) → Action
  eip_wake : (generation : ℕ) → LaunchOptions → Action
  eip_open : (generation : ℕ) → LaunchOptions → Action
  eip_mark : (generation : ℕ) → Action
  -- reconnecting
  schedule_retry : Cause → Action
  store_retry_handle : (task : ℕ) → Action
  announce_retry : Cause → (attempt delay : ℕ) → Action
  retry_wake : (generation : ℕ) → Action
  retry_recheck : (generation : ℕ) → LaunchOptions → Action
  retry_prepare : (generation : ℕ) → LaunchOptions → Action
  retry_spawn : LaunchOptions → (captcha_path : Text) (generation : ℕ) → Action
  -- ProxyBridge
  start_proxybridge : LaunchOptions → Action
  load_proxybridge : LaunchOptions → Action
  register_proxybridge : (bridge task : ℕ) → Action

abbrev pub Thread : Type 0
Thread = List Action

-- What the supervised child or its environment does next.
pub data ChildEvent : Type 0 where
  line : Text → ChildEvent
  partial : Text → ChildEvent
  captcha_written : ChildEvent
  stop_received : (signalled : Bool) → ChildEvent
  grace_expired : ChildEvent
  exited : (descr : Text) → ChildEvent

-- The answers of the environment to the calls of one action. An action reads those of its calls.
pub record Answer : Type 0 where
  pub binary_exists : Bool
  pub spawned : Result ℕ Text  -- the process id
  pub task : ℕ  -- the handle of a spawned task
  pub child : ChildEvent
  pub captcha : Option (List ℕ)  -- `poll_for_stable_captcha`: the bytes, or an error or timeout
  pub now_ms : ℕ
  pub tcp_connected : Bool
  pub eip_error : Option Text
  pub line_sent : Bool  -- whether the receiver of `stdin_tx` is still there
  pub bridge : Result ℕ Text  -- `ProxyBridge::load`
  pub driver_error : Option Text  -- `ensure_windivert_driver`
  pub bridge_error : Option Text  -- `ProxyBridge::start`

-- What one action does: the new state, the effects in order, the rest of its own thread that it
-- adds, and the tasks that it spawns.
pub record Outcome : Type 0 where
  pub state : State
  pub effects : List Effect
  pub next : Thread
  pub spawned : List Action

abbrev pub done : State → Outcome
done s = record { state = s; effects = []; next = []; spawned = [] }

abbrev pub go_on : State → Thread → Outcome
go_on s next = record { state = s; effects = []; next = next; spawned = [] }

abbrev pub effects_then : State → List Effect → Thread → Outcome
effects_then s effects next = record { state = s; effects = effects; next = next; spawned = [] }

-- `emit_state`, which reports attempt 0 and delay 0.
abbrev pub report : ProxyState → Option Text → Action
report state message = emit_state state message 0 0
