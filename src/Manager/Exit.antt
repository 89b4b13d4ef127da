-- ===== src/Manager/Exit.antt =====
-- The child's exit: `decide_exit_action`, `handle_process_exit`, and the reconnect.
use zju_connect_gui.Base.{
  ℕ, List, [], ◌∷◌, ◌++◌, Bool, false, not, ◌&&◌, Option, none, some, ◌==◌, is_some, if◌then◌else◌,
}
use zju_connect_gui.Text.{Text, codes}
use zju_connect_gui.Text.Decimal.{to_decimal}
use zju_connect_gui.Launch.{LaunchOptions}
use zju_connect_gui.Retry.{next_retry_delay, format_retry_delay}
use zju_connect_gui.Manager.State.{
  State, Env, Effect, StartError, stopped, retrying, connecting, emit_log, next_generation,
  next_attempt, cancel_delayed_eip, cancel_captcha_poll, cancel_retry, start_error_text,
  session_stopped,
}
use zju_connect_gui.Manager.Start.{spawn_child, captcha_path_of}
use zju_connect_gui.Manager.Action.{
  Thread, Answer, Outcome, Cause, after_exit, after_failed_start, spawn_task, emit_state,
  schedule_retry, store_retry_handle, announce_retry, retry_wake, retry_recheck, retry_prepare,
  retry_spawn, done, go_on, effects_then, report,
}

pub data ExitAction : Type 0 where
  ignore emit_stopped : ExitAction
  awaiting_blocked : Text → ExitAction
  reconnect : ExitAction

-- What is reset when the exit ends the session.
abbrev session_over : State → State
session_over s = record s {
  session_active = false;
  awaiting = none;
  eip_opened = false;
  ready_wait_gen = 0;
  retry_attempt = 0;
}

-- The three outcomes of an exit of the current session.
abbrev decide_current : Option Text → State → State × ExitAction
decide_current (some reason) s = (session_over s, awaiting_blocked reason)
decide_current none s =
    (record s { retry_generation = next_generation s.retry_generation }, reconnect)

unfoldable pub decide_exit_action : State → ℕ → State × List Effect × ExitAction
unfolding cancel_delayed_eip cancel_captcha_poll
decide_exit_action s generation =
    let (s1, aborted_eip) = cancel_delayed_eip s in
    let (s2, aborted_poll) = cancel_captcha_poll s1 in
    let ended = record s2 { ready = false } in
    let inactive = record ended { eip_opened = false; ready_wait_gen = 0; retry_attempt = 0 } in
    let (decided, action) = decide_current s.awaiting ended in
    if s.session_active && not (generation == s.retry_generation)
    then (s, [], ignore)
    else if s.session_active
    then (decided, aborted_eip ++ aborted_poll, action)
    else (inactive, aborted_eip ++ aborted_poll, emit_stopped)

abbrev paused_text : Text → Text
paused_text reason =
    codes "[reconnect] process exited while awaiting "
    ++ (reason ++ codes "; automatic reconnect paused until manual restart")

abbrev blocked_text : Text → Text
blocked_text reason = codes "连接在等待 " ++ (reason ++ codes " 时中断，请手动重新连接")

abbrev after_decision : Text → State × List Effect × ExitAction → Outcome
after_decision descr (s, effects, ignore) = effects_then s effects []
after_decision descr (s, effects, emit_stopped) = effects_then s effects (report stopped none ∷ [])
after_decision descr (s, effects, awaiting_blocked reason) =
    effects_then s (effects ++ emit_log (paused_text reason) ∷ [])
      (report stopped (some (blocked_text reason)) ∷ [])
after_decision descr (s, effects, reconnect) =
    effects_then s effects (schedule_retry (after_exit descr) ∷ [])

-- `handle_process_exit`; `descr` is the text of the exit status or of the error.
unfoldable pub step_process_exit : ℕ → Text → State → Outcome
unfolding decide_exit_action
step_process_exit generation descr s = after_decision descr (decide_exit_action s generation)

-- `schedule_retry`: the attempt is counted, the timer spawned, its handle stored.
unfoldable pub step_schedule_retry : Env → Answer → Cause → State → Outcome
step_schedule_retry env answer cause s =
    let attempt = next_attempt s.retry_attempt in
    let delay =
      next_retry_delay attempt env.retry_base_delay env.retry_max_delay env.retry_jitter in
    go_on (record s { retry_attempt = attempt })
      (spawn_task (retry_wake s.retry_generation)
        ∷ store_retry_handle answer.task
        ∷ announce_retry cause attempt delay
        ∷ [])

unfoldable pub step_store_retry_handle : ℕ → State → Outcome
unfolding cancel_retry
step_store_retry_handle task s =
    let (s1, aborted) = cancel_retry s in
    effects_then (record s1 { retry_handle = some task }) aborted []

abbrev delay_text : Env → ℕ → Text
delay_text env delay = format_retry_delay env.round_secs env.debug_duration delay

abbrev retry_log : Env → Cause → ℕ → ℕ → Text
retry_log env (after_exit descr) attempt delay =
    codes "[reconnect] process exited ("
    ++ (descr
        ++ (codes "), retrying in "
            ++ (delay_text env delay ++ (codes " (attempt " ++ (to_decimal attempt ++ codes ")")))))
retry_log env (after_failed_start e) attempt delay =
    codes "[reconnect] retry start failed: "
    ++ (start_error_text e
        ++ (codes "; retrying in "
            ++ (delay_text env delay ++ (codes " (attempt " ++ (to_decimal attempt ++ codes ")")))))

abbrev retry_message : Env → Cause → ℕ → ℕ → Text
retry_message env (after_exit descr) attempt delay =
    codes "连接已断开，将在 "
    ++ (delay_text env delay ++ (codes " 后重试（第 " ++ (to_decimal attempt ++ codes " 次）")))
retry_message env (after_failed_start e) attempt delay =
    codes "重新连接失败，将在 "
    ++ (delay_text env delay ++ (codes " 后重试（第 " ++ (to_decimal attempt ++ codes " 次）")))

unfoldable pub step_announce_retry : Env → Cause → ℕ → ℕ → State → Outcome
step_announce_retry env cause attempt delay s =
    effects_then s (emit_log (retry_log env cause attempt delay) ∷ [])
      (emit_state retrying (some (retry_message env cause attempt delay)) attempt delay ∷ [])

-- The guard of `run_retry_attempt`, which is tested twice.
unfoldable may_retry : State → ℕ → Bool
may_retry s generation =
    generation == s.retry_generation
    && s.session_active
    && not (is_some s.awaiting)
    && not (is_some s.child_pid)

unfoldable pub step_retry_wake : ℕ → State → Outcome
unfolding may_retry
step_retry_wake generation s =
    if may_retry s generation
    then go_on s (retry_recheck generation s.last_options ∷ [])
    else done s

unfoldable pub step_retry_recheck : ℕ → LaunchOptions → State → Outcome
unfolding may_retry
step_retry_recheck generation o s =
    if may_retry s generation
    then go_on s (report connecting (some (codes "正在重新连接...")) ∷ retry_prepare generation o ∷ [])
    else done s

unfoldable pub step_retry_prepare : Env → ℕ → LaunchOptions → State → Outcome
step_retry_prepare env generation o s =
    let captcha_path = captcha_path_of env in
    go_on (record s { captcha_path = captcha_path; eip_options = o })
      (retry_spawn o captcha_path generation ∷ [])

-- A child that lost its session steps aside; any other failure is retried.
unfoldable pub after_retry_error : StartError → Thread
after_retry_error session_stopped = []
after_retry_error e = schedule_retry (after_failed_start e) ∷ []

unfoldable pub step_retry_spawn : Env → Answer → LaunchOptions → Text → ℕ → State → Outcome
unfolding spawn_child after_retry_error
step_retry_spawn env answer o captcha_path generation s =
    spawn_child env answer o captcha_path generation s [] after_retry_error
