-- ===== src/Manager/Session/Refines.antt =====
-- The manager implements what `Session` promises.
use zju_connect_gui.Base.{refl, [], arith}
use zju_connect_gui.Manager.State.{State, Env}
use zju_connect_gui.Manager.Action.{
  Action, Answer, start_check, start_reset, start_spawn, cleanup_failed_start, stop_session,
  submit_input, emit_state, give_reply, spawn_task, supervise, child_gone, process_exit, log_line,
  check_ready_line, request_input, request_captcha, store_captcha_handle, captcha_poll,
  captcha_poll_end, begin_ready_wait, store_readiness_handle, ready_poll, mark_ready, schedule_eip,
  store_eip_handle, eip_wake, eip_open, eip_mark, schedule_retry, store_retry_handle,
  announce_retry, retry_wake, retry_recheck, retry_prepare, retry_spawn, start_proxybridge,
  load_proxybridge, register_proxybridge,
}
use zju_connect_gui.Manager.Start.{step_start_reset, step_start_spawn}
use zju_connect_gui.Manager.Stop.{step_emit_state}
use zju_connect_gui.Manager.Input.{step_request_input}
use zju_connect_gui.Manager.Captcha.{step_request_captcha, step_captcha_poll, step_captcha_poll_end}
use zju_connect_gui.Manager.Ready.{
  step_begin_ready_wait, step_store_readiness_handle, step_ready_poll, step_mark_ready,
  step_schedule_eip, step_store_eip_handle, step_eip_wake, step_eip_open, step_eip_mark,
}
use zju_connect_gui.Manager.Exit.{
  step_schedule_retry, step_store_retry_handle, step_announce_retry, step_retry_wake,
  step_retry_recheck, step_retry_prepare, step_retry_spawn, after_retry_error,
}
use zju_connect_gui.Manager.Bridge.{
  step_start_proxybridge, step_load_proxybridge, step_register_proxybridge,
}
use zju_connect_gui.Manager.Exec.{step_log_line, step_check_ready_line, step_child_gone, exec}
use zju_connect_gui.Manager.Idle.{supervise_step-keeps}
use zju_connect_gui.Manager.Session.{quiet, SessionStep, stays, activate, reap}
use zju_connect_gui.Manager.Session.Steps.{
  session_of, kind_of, quiet_step, ending_step, step_start_check-IsKept, step_submit_input-IsKept,
  step_cleanup-IsEnded, step_stop-IsEnded, step_process_exit-IsEnded, spawn_child-step,
}

-- Every action of the manager, with every answer of its environment, is a step of the session of the
-- kind that the action may take, or leaves the session as it is.
pub exec-step :
    (env : Env) (a : Action) (answer : Answer) (s : State)
    → SessionStep (kind_of a) (session_of s) (session_of (exec env a answer s).state)
unfolding exec
exec-step env (start_check o) answer s =
    quiet_step quiet s (exec env (start_check o) answer s).state refl
      (step_start_check-IsKept env o s)
exec-step env (start_reset o) answer s = unfold step_start_reset in activate refl
exec-step env (start_spawn o path g) answer s =
    unfold step_start_spawn in spawn_child-step env answer o path g s _ _
exec-step env (cleanup_failed_start g e) answer s =
    ending_step s (exec env (cleanup_failed_start g e) answer s).state (step_cleanup-IsEnded g e s)
exec-step env stop_session answer s =
    ending_step s (exec env stop_session answer s).state (step_stop-IsEnded s)
exec-step env (submit_input value kind) answer s =
    quiet_step quiet s (exec env (submit_input value kind) answer s).state refl
      (step_submit_input-IsKept value kind answer.line_sent s)
exec-step env (supervise phase pid g) answer s =
    rw (supervise_step-keeps env phase pid g answer.child s) (stays refl)
exec-step env (child_gone g) answer s = unfold step_child_gone in reap refl
exec-step env (process_exit g descr) answer s =
    ending_step s (exec env (process_exit g descr) answer s).state
      (step_process_exit-IsEnded g descr s)
exec-step env (log_line l) answer s =
    quiet_step quiet s (exec env (log_line l) answer s).state refl
      (unfold step_log_line in ground arith)
exec-step env captcha_poll answer s =
    quiet_step quiet s (exec env captcha_poll answer s).state refl
      (unfold step_captcha_poll in ground arith)
exec-step env (begin_ready_wait bind) answer s =
    quiet_step quiet s (exec env (begin_ready_wait bind) answer s).state refl
      (unfold step_begin_ready_wait in ground arith)
exec-step env (ready_poll dial g) answer s =
    quiet_step quiet s (exec env (ready_poll dial g) answer s).state refl
      (unfold step_ready_poll in ground arith)
exec-step env (mark_ready g) answer s =
    quiet_step quiet s (exec env (mark_ready g) answer s).state refl
      (unfold step_mark_ready in ground arith)
exec-step env (load_proxybridge o) answer s =
    quiet_step quiet s (exec env (load_proxybridge o) answer s).state refl
      (unfold step_load_proxybridge in ground arith)
exec-step env (retry_spawn o path g) answer s =
    unfold step_retry_spawn in spawn_child-step env answer o path g s [] after_retry_error
exec-step env (spawn_task a) answer s = stays refl
exec-step env (emit_state state message k d) answer s = unfold step_emit_state in stays refl
exec-step env (give_reply r) answer s = stays refl
exec-step env (check_ready_line l) answer s =
    quiet_step quiet s (exec env (check_ready_line l) answer s).state refl
      (unfold step_check_ready_line in ground arith)
exec-step env (request_input kind prompt) answer s =
    quiet_step quiet s (exec env (request_input kind prompt) answer s).state refl
      (unfold step_request_input in ground arith)
exec-step env request_captcha answer s =
    quiet_step quiet s (exec env request_captcha answer s).state refl
      (unfold step_request_captcha in ground arith)
exec-step env (store_captcha_handle t) answer s = stays refl
exec-step env captcha_poll_end answer s =
    quiet_step quiet s (exec env captcha_poll_end answer s).state refl
      (unfold step_captcha_poll_end in ground arith)
exec-step env (store_readiness_handle t) answer s = unfold step_store_readiness_handle in stays refl
exec-step env (schedule_eip g) answer s = unfold step_schedule_eip in stays refl
exec-step env (store_eip_handle t) answer s = unfold step_store_eip_handle in stays refl
exec-step env (eip_wake g o) answer s =
    quiet_step quiet s (exec env (eip_wake g o) answer s).state refl
      (unfold step_eip_wake in ground arith)
exec-step env (eip_open g o) answer s =
    quiet_step quiet s (exec env (eip_open g o) answer s).state refl
      (unfold step_eip_open in ground arith)
exec-step env (eip_mark g) answer s =
    quiet_step quiet s (exec env (eip_mark g) answer s).state refl
      (unfold step_eip_mark in ground arith)
exec-step env (schedule_retry cause) answer s = unfold step_schedule_retry in stays refl
exec-step env (store_retry_handle t) answer s = unfold step_store_retry_handle in stays refl
exec-step env (announce_retry cause k d) answer s = unfold step_announce_retry in stays refl
exec-step env (retry_wake g) answer s =
    quiet_step quiet s (exec env (retry_wake g) answer s).state refl
      (unfold step_retry_wake in ground arith)
exec-step env (retry_recheck g o) answer s =
    quiet_step quiet s (exec env (retry_recheck g o) answer s).state refl
      (unfold step_retry_recheck in ground arith)
exec-step env (retry_prepare g o) answer s = unfold step_retry_prepare in stays refl
exec-step env (start_proxybridge o) answer s =
    quiet_step quiet s (exec env (start_proxybridge o) answer s).state refl
      (unfold step_start_proxybridge in ground arith)
exec-step env (register_proxybridge b t) answer s =
    quiet_step quiet s (exec env (register_proxybridge b t) answer s).state refl
      (unfold step_register_proxybridge in ground arith)
