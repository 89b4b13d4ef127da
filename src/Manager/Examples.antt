-- ===== src/Manager/Examples.antt =====
-- Runs of the manager on Linux with a program file that is there, and the states that they reach.
use zju_connect_gui.Base.{ℕ, ◌≡◌, ◌≤◌, ◌↔◌, ◌⊎◌, refl, [], ◌∷◌, ◌++◌, true, false, none, some}
use zju_connect_gui.Base.Results.{ok, err}
use zju_connect_gui.Text.{
  Text, codes, trim, is_whitespace, is_empty, text_eq, lower_ascii, to_ascii_lowercase, starts_with,
}
use zju_connect_gui.Launch.{
  LaunchOptions, linux, normalize_launch_options, validate, build_args, or_default,
}
use zju_connect_gui.Launch.Examples.{submitted}
use zju_connect_gui.Proxybridge.{Paths, is_active}
use zju_connect_gui.Retry.{from_secs, no_jitter}
use zju_connect_gui.Manager.State.{
  State, Env, StartError, new_state, next_generation, next_attempt, send_line, cancel_retry,
  cancel_delayed_eip,
}
use zju_connect_gui.Manager.Action.{
  Answer, grace_expired, start_check, stop_session, process_exit, supervise, watching, give_reply,
  mark_ready, ready_poll, retry_wake, retry_recheck, eip_wake, eip_mark, done,
}
use zju_connect_gui.Manager.Action.{start_reset}
use zju_connect_gui.Manager.Start.{
  prepare_options, requires_elevation, captcha_path_of, step_start_check, claim_session,
}
use zju_connect_gui.Manager.Startup.{MayStart, start_registers, start_refused, stop_ends}
use zju_connect_gui.Manager.Exec.{exec}
use zju_connect_gui.Manager.System.{
  System, Reach, initial, call, run, call_start, call_stop, advance, entry,
}
use zju_connect_gui.Manager.State.{start_result}
use zju_connect_gui.Manager.Idle.{IsIdle, ReachUnstarted, ReachUnstarted-IsIdle, called, stepped}
use zju_connect_gui.Manager.Alone.{run_alone, processes}
use zju_connect_gui.Manager.Reconnect.{IsDropped, reconnects}
use zju_connect_gui.Manager.Input.{step_submit_input}
use zju_connect_gui.Manager.Submission.{IsAccepted, step_submit_input_iff, step_submit_input_cases}
use zju_connect_gui.Manager.Stop.{step_stop}
use zju_connect_gui.Manager.Stale.{by_stop, Renews-exec}
use zju_connect_gui.Manager.Exit.{
  decide_exit_action, ignore, emit_stopped, awaiting_blocked, reconnect,
}
use zju_connect_gui.Manager.Exits.{IsStale, IsCurrent, decide_exit_action_cases}
use zju_connect_gui.Manager.OneChild.{Reach-IsOneChild}
use zju_connect_gui.Manager.OneChild.Balance.{supervised_by, registered}

abbrev pub paths : Paths
paths = record { is_absolute = starts_with (codes "/"); join = λ a b. a ++ (codes "/" ++ b) }

abbrev pub env : Env
env = record {
  app_dir = codes "/opt/zju";
  platform = linux;
  elevated = false;
  paths = paths;
  to_lowercase = to_ascii_lowercase;
  retry_base_delay = from_secs 1;
  retry_max_delay = from_secs 60;
  retry_jitter = no_jitter;
  binary_path = none;
  round_secs = λ d. 1;
  debug_duration = λ d. codes "1s";
  encode_base64 = λ bs. [];
}

abbrev pub answer : Answer
answer = record {
  binary_exists = true;
  spawned = ok 7;
  task = 1;
  child = grace_expired;
  captcha = none;
  now_ms = 0;
  tcp_connected = false;
  eip_error = none;
  line_sent = true;
  bridge = err [];
  driver_error = none;
  bridge_error = none;
}

-- The first two actions of a start.
abbrev claimed : System
claimed = advance [] [] [] [] (exec env (start_check submitted) answer new_state)

abbrev options : LaunchOptions
options = prepare_options env submitted

abbrev reset : System
reset = advance claimed.trace [] [] [] (exec env (start_reset options) answer claimed.state)

claimed-Reach : Reach env initial claimed
unfolding entry
claimed-Reach =
    Reach.next (Reach.next Reach.here (call (call_start submitted) refl))
      (run [] (start_check submitted) [] [] answer refl refl)

options-valid : validate options ≡ ok tt
unfolding validate normalize_launch_options to_ascii_lowercase lower_ascii text_eq is_empty trim
    or_default is_whitespace prepare_options starts_with
options-valid = refl

submitted-MayStart : MayStart env submitted new_state
submitted-MayStart = record {
  valid = options-valid;
  allowed =
      unfold requires_elevation is_active prepare_options normalize_launch_options starts_with
        or_default is_empty trim in
      refl;
  no_child = refl;
}

claimed-threads : claimed.threads ≡ (start_reset options ∷ []) ∷ []
unfolding exec step_start_check claim_session cancel_retry cancel_delayed_eip requires_elevation
    is_active validate normalize_launch_options to_ascii_lowercase lower_ascii text_eq is_empty trim
    or_default is_whitespace prepare_options starts_with
claimed-threads = refl

reset-Reach : Reach env initial reset
reset-Reach =
    Reach.next claimed-Reach (run [] (start_reset options) [] [] answer claimed-threads refl)

Reach-IsOneChild_example :
    (supervised_by reset.threads ≡ registered reset.state.child_pid)
    × (supervised_by reset.threads ≤ 1)
Reach-IsOneChild_example = Reach-IsOneChild env {w = reset} reset-Reach

-- A session with child 7 registered under generation 1, and the same after its child is gone.
abbrev pub active : State
active = record new_state {
  session_active = true;
  retry_generation = 1;
  child_pid = some 7;
  stdin_tx = some 7;
  awaiting = some (codes "sms");
  last_options = options;
}

abbrev dropped : State
dropped = record active { child_pid = none; stdin_tx = none; awaiting = none }

stopped-ReachUnstarted :
    ReachUnstarted env initial (advance [] [] [] [] (exec env stop_session answer new_state))
unfolding entry
stopped-ReachUnstarted =
    stepped [] stop_session [] [] answer (called call_stop ReachUnstarted.here refl) refl refl refl

ReachUnstarted-IsIdle_example :
    IsIdle (advance [] [] [] [] (exec env stop_session answer new_state)).state
ReachUnstarted-IsIdle_example =
    ReachUnstarted-IsIdle env {w = initial}
      {u = advance [] [] [] [] (exec env stop_session answer new_state)} (refl, refl)
      stopped-ReachUnstarted

dropped-IsDropped : IsDropped dropped 1
dropped-IsDropped = record { active = refl; current = refl; no_prompt = refl; no_child = refl }

reconnects_example :
    let exit_run = run_alone 8 env answer (process_exit 1 (codes "exit 1") ∷ []) dropped in
    let wake_run = run_alone 8 env answer exit_run.spawned exit_run.state in
    (exit_run.left ≡ [])
    × (wake_run.left ≡ [])
    × (wake_run.spawned ≡ supervise watching 7 (next_generation 1) ∷ [])
    × (wake_run.state.child_pid ≡ some 7)
    × (wake_run.state.session_active ≡ true)
    × (wake_run.state.retry_attempt ≡ next_attempt 0)
    × (processes wake_run.effects ≡ (7, build_args options (captcha_path_of env)) ∷ [])
reconnects_example = reconnects env answer 1 7 (codes "exit 1") dropped dropped-IsDropped refl refl

start_registers_example :
    let r = run_alone 8 env answer (start_check submitted ∷ []) new_state in
    (r.left ≡ [])
    × (r.spawned ≡ supervise watching 7 (next_generation 0) ∷ [])
    × (processes r.effects ≡ (7, build_args options (captcha_path_of env)) ∷ [])
    × (r.state.session_active ≡ true)
    × (r.state.child_pid ≡ some 7)
    × (r.state.ready ≡ false)
    × (r.state.awaiting ≡ none)
    × (r.state.eip_opened ≡ false)
    × (r.state.last_options ≡ options)
    × (r.state.retry_generation ≡ next_generation 0)
start_registers_example =
    start_registers env answer submitted 7 new_state submitted-MayStart refl refl

start_refused_example :
    let r = exec env (start_check submitted) answer active in
    (r.state ≡ active)
    × (r.effects ≡ [])
    × (r.spawned ≡ [])
    × ((e : StartError) × (r.next ≡ give_reply (start_result (err e)) ∷ []))
start_refused_example = start_refused env answer submitted 7 active refl

abbrev no_binary : Answer
no_binary = record answer { binary_exists = false }

stop_ends_example :
    let r = run_alone 4 env answer (stop_session ∷ []) active in
    (r.left ≡ [])
    × (r.spawned ≡ [])
    × (r.state.session_active ≡ false)
    × (r.state.ready ≡ false)
    × (r.state.awaiting ≡ none)
    × (r.state.stop_tx ≡ none)
    × (r.state.proxybridge_started ≡ false)
    × (r.state.child_pid ≡ some 7)
    × (r.state.retry_generation ≡ next_generation 1)
stop_ends_example = stop_ends env answer active

step_submit_input_iff_example :
    ((channel : ℕ) × ((step_submit_input
          (codes " 123456 ")
          (some (codes "sms"))
          true
          active).effects
        ≡ send_line channel (trim (codes " 123456 ")) ∷ []))
    ↔ IsAccepted (codes " 123456 ") (some (codes "sms")) true active
step_submit_input_iff_example =
    step_submit_input_iff (codes " 123456 ") (some (codes "sms")) true active

step_submit_input_cases_example :
    let o = step_submit_input (codes "123456") (some (codes "callback")) true active in
    ((o.effects ≡ []) × (o.state ≡ active))
    ⊎ ((o.state.awaiting ≡ none)
        × (o.state.stdin_tx ≡ some 7)
        × ((channel : ℕ) × (o.effects ≡ send_line channel (trim (codes "123456")) ∷ [])))
step_submit_input_cases_example =
    step_submit_input_cases (codes "123456") (some (codes "callback")) true active

abbrev ended : State
ended = (step_stop active).state

Renews-exec_example :
    (exec env (ready_poll [] 1) answer ended ≡ done ended)
    × (exec env (mark_ready 1) answer ended ≡ done ended)
    × (exec env (retry_wake 1) answer ended ≡ done ended)
    × (exec env (retry_recheck 1 options) answer ended ≡ done ended)
    × (exec env (eip_wake 1 options) answer ended ≡ done ended)
    × (exec env (eip_mark 1) answer ended ≡ done ended)
Renews-exec_example = Renews-exec env answer [] options active ended ended (by_stop refl) refl

decide_exit_action_cases_example :
    let (t, effects, action) = decide_exit_action dropped 1 in
    (IsStale dropped 1 × (t ≡ dropped) × (effects ≡ []) × (action ≡ ignore))
    ⊎ ((dropped.session_active ≡ false)
        × (t.session_active ≡ false)
        × (t.ready ≡ false)
        × (t.retry_generation ≡ 1)
        × (action ≡ emit_stopped))
    ⊎ (IsCurrent dropped 1
        × ((reason : Text) × (dropped.awaiting ≡ some reason) × (action ≡ awaiting_blocked reason))
        × (t.session_active ≡ false)
        × (t.awaiting ≡ none)
        × (t.ready ≡ false))
    ⊎ (IsCurrent dropped 1
        × (dropped.awaiting ≡ none)
        × (t.session_active ≡ true)
        × (t.ready ≡ false)
        × (t.eip_opened ≡ false)
        × (t.retry_attempt ≡ 0)
        × (t.retry_generation ≡ next_generation 1)
        × (action ≡ reconnect))
decide_exit_action_cases_example = decide_exit_action_cases dropped 1
