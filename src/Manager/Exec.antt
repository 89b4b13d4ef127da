-- ===== src/Manager/Exec.antt =====
-- One action of the manager, whichever it is: `supervise_child`, the handlers of the child's lines,
-- and the dispatch to the steps of the sibling modules.
use zju_connect_gui.Base.{ℕ, [], ◌∷◌, ◌++◌, true, false, Option, none, some, if◌then◌else◌}
use zju_connect_gui.Text.{Text, codes, trim, is_empty}
use zju_connect_gui.Logs.{DetectedPrompt, classify_prompt, is_vpn_started, is_route_added}
use zju_connect_gui.Logs
use zju_connect_gui.Manager.State.{
  State, Env, sms, callback, emit_log, signal_process, kill_process, reply,
}
use zju_connect_gui.Manager.Action.{
  Action, Thread, Phase, watching, in_grace, killing, ChildEvent, Answer, Outcome, line, partial,
  captcha_written, stop_received, grace_expired, exited, start_check, start_reset, start_spawn,
  cleanup_failed_start, stop_session, submit_input, emit_state, give_reply, spawn_task, supervise,
  child_gone, process_exit, log_line, check_ready_line, request_input, request_captcha,
  store_captcha_handle, captcha_poll, captcha_poll_end, begin_ready_wait, store_readiness_handle,
  ready_poll, mark_ready, schedule_eip, store_eip_handle, eip_wake, eip_open, eip_mark,
  schedule_retry, store_retry_handle, announce_retry, retry_wake, retry_recheck, retry_prepare,
  retry_spawn, start_proxybridge, load_proxybridge, register_proxybridge, done, go_on, effects_then,
}
use zju_connect_gui.Manager.Start.{
  step_start_check, step_start_reset, step_start_spawn, step_cleanup,
}
use zju_connect_gui.Manager.Stop.{step_stop, step_emit_state}
use zju_connect_gui.Manager.Input.{step_submit_input, step_request_input}
use zju_connect_gui.Manager.Captcha.{step_request_captcha, step_captcha_poll, step_captcha_poll_end}
use zju_connect_gui.Manager.Ready.{
  step_begin_ready_wait, step_store_readiness_handle, step_ready_poll, step_mark_ready,
  step_schedule_eip, step_store_eip_handle, step_eip_wake, step_eip_open, step_eip_mark,
}
use zju_connect_gui.Manager.Exit.{
  step_process_exit, step_schedule_retry, step_store_retry_handle, step_announce_retry,
  step_retry_wake, step_retry_recheck, step_retry_prepare, step_retry_spawn,
}
use zju_connect_gui.Manager.Bridge.{
  step_start_proxybridge, step_load_proxybridge, step_register_proxybridge,
}

-- `detect_prompt_and_react`
unfoldable pub react : Option DetectedPrompt → Thread
react none = []
react (some Logs.sms) = request_input sms (codes "Please enter the SMS code") ∷ []
react (some Logs.callback) = request_input callback (codes "Please enter the callback URL") ∷ []
react (some Logs.captcha) = request_captcha ∷ []

abbrev detect_prompt_and_react : Env → Text → Thread
detect_prompt_and_react env text = react (classify_prompt env.to_lowercase text)

-- `handle_log_line`, up to its lock.
unfoldable pub step_log_line : Env → Text → State → Outcome
step_log_line env text s =
    let trimmed = trim text in
    if is_empty trimmed
    then done s
    else effects_then s (emit_log trimmed ∷ [])
        (detect_prompt_and_react env trimmed ++ check_ready_line trimmed ∷ [])

-- The rest of `handle_log_line`: which line means that the tunnel is up depends on the mode.
unfoldable pub step_check_ready_line : Text → State → Outcome
step_check_ready_line trimmed s =
    let wait = go_on s (begin_ready_wait s.eip_options.http_bind ∷ []) in
    if s.eip_options.tun_mode
    then if is_route_added trimmed then wait else done s
    else if is_vpn_started trimmed
    then wait
    else done s

abbrev with_task : State → Action → Action → Outcome
with_task s own task = record { state = s; effects = []; next = own ∷ []; spawned = task ∷ [] }

-- A partial line is only searched for a prompt.
abbrev with_thread : State → Action → Thread → Outcome
with_thread s own tasks = record { state = s; effects = []; next = own ∷ []; spawned = tasks }

-- `supervise_child`: the readers and the captcha monitor work beside the wait for the exit or for
-- the stop request; a signal is followed by a kill when the grace period is over.
unfoldable pub supervise_step : Env → Phase → ℕ → ℕ → ChildEvent → State → Outcome
supervise_step env phase pid generation (line l) s =
    with_task s (supervise phase pid generation) (log_line l)
supervise_step env phase pid generation (partial l) s =
    with_thread s (supervise phase pid generation) (detect_prompt_and_react env l)
supervise_step env phase pid generation captcha_written s =
    with_task s (supervise phase pid generation) request_captcha
supervise_step env watching pid generation (stop_received true) s =
    effects_then s (signal_process pid ∷ []) (supervise in_grace pid generation ∷ [])
supervise_step env watching pid generation (stop_received false) s =
    effects_then s (kill_process pid ∷ []) (supervise in_grace pid generation ∷ [])
supervise_step env in_grace pid generation grace_expired s =
    effects_then s (kill_process pid ∷ []) (supervise killing pid generation ∷ [])
supervise_step env phase pid generation (exited descr) s =
    go_on s (child_gone generation ∷ process_exit generation descr ∷ [])
supervise_step env phase pid generation _ s = go_on s (supervise phase pid generation ∷ [])

-- The teardown in `supervise_child`.
unfoldable pub step_child_gone : State → Outcome
step_child_gone s = done (record s { child_pid = none; stdin_tx = none; stop_tx = none })

-- One action, with the environment's answers.
unfoldable pub exec : Env → Action → Answer → State → Outcome
exec env (start_check o) answer s = step_start_check env o s
exec env (start_reset o) answer s = step_start_reset env o s
exec env (start_spawn o path g) answer s = step_start_spawn env answer o path g s
exec env (cleanup_failed_start g e) answer s = step_cleanup g e s
exec env stop_session answer s = step_stop s
exec env (submit_input value kind) answer s = step_submit_input value kind answer.line_sent s
exec env (emit_state state message attempt delay) answer s =
    step_emit_state state message attempt delay s
exec env (give_reply r) answer s = effects_then s (reply r ∷ []) []
exec env (spawn_task a) answer s = record { state = s; effects = []; next = []; spawned = a ∷ [] }
exec env (supervise phase pid g) answer s = supervise_step env phase pid g answer.child s
exec env (child_gone g) answer s = step_child_gone s
exec env (process_exit g descr) answer s = step_process_exit g descr s
exec env (log_line l) answer s = step_log_line env l s
exec env (check_ready_line l) answer s = step_check_ready_line l s
exec env (request_input kind prompt) answer s = step_request_input kind prompt s
exec env request_captcha answer s = step_request_captcha answer s
exec env (store_captcha_handle t) answer s = done (record s { captcha_poll_handle = some t })
exec env captcha_poll answer s = step_captcha_poll env answer s
exec env captcha_poll_end answer s = step_captcha_poll_end s
exec env (begin_ready_wait bind) answer s = step_begin_ready_wait answer bind s
exec env (store_readiness_handle t) answer s = step_store_readiness_handle t s
exec env (ready_poll dial g) answer s = step_ready_poll answer dial g s
exec env (mark_ready g) answer s = step_mark_ready env g s
exec env (schedule_eip g) answer s = step_schedule_eip answer g s
exec env (store_eip_handle t) answer s = step_store_eip_handle t s
exec env (eip_wake g o) answer s = step_eip_wake g o s
exec env (eip_open g o) answer s = step_eip_open answer g o s
exec env (eip_mark g) answer s = step_eip_mark g s
exec env (schedule_retry cause) answer s = step_schedule_retry env answer cause s
exec env (store_retry_handle t) answer s = step_store_retry_handle t s
exec env (announce_retry cause n d) answer s = step_announce_retry env cause n d s
exec env (retry_wake g) answer s = step_retry_wake g s
exec env (retry_recheck g o) answer s = step_retry_recheck g o s
exec env (retry_prepare g o) answer s = step_retry_prepare env g o s
exec env (retry_spawn o path g) answer s = step_retry_spawn env answer o path g s
exec env (start_proxybridge o) answer s = step_start_proxybridge o s
exec env (load_proxybridge o) answer s = step_load_proxybridge env answer s
exec env (register_proxybridge b t) answer s = step_register_proxybridge b t s
