-- ===== src/Manager/Idle.antt =====
-- A stopped session stays stopped, under every interleaving.
use zju_connect_gui.Base.{
  ℕ, ◌≡◌, refl, List, [], ◌∷◌, ◌++◌, Bool, true, false, Option, none, arith, if◌then◌else◌,
}
use zju_connect_gui.Base.Results.{Result, ok, err}
use zju_connect_gui.Text.{Text}
use zju_connect_gui.Launch.{LaunchOptions, build_args}
use zju_connect_gui.Manager.State.{State, Env, StartError, binary_missing}
use zju_connect_gui.Manager.Action.{
  Action, Thread, Phase, watching, in_grace, killing, ChildEvent, Answer, line, partial,
  captcha_written, stop_received, grace_expired, exited, start_check, start_reset, start_spawn,
  cleanup_failed_start, stop_session, submit_input, emit_state, give_reply, spawn_task, supervise,
  child_gone, process_exit, log_line, check_ready_line, request_input, request_captcha,
  store_captcha_handle, captcha_poll, captcha_poll_end, begin_ready_wait, store_readiness_handle,
  ready_poll, mark_ready, schedule_eip, store_eip_handle, eip_wake, eip_open, eip_mark,
  schedule_retry, store_retry_handle, announce_retry, retry_wake, retry_recheck, retry_prepare,
  retry_spawn, start_proxybridge, load_proxybridge, register_proxybridge, go_on,
}
use zju_connect_gui.Manager.Start.{
  step_start_check, step_start_spawn, step_cleanup, spawn_child, spawn_result, spawn_guard_violated,
  bin_path,
}
use zju_connect_gui.Manager.Stop.{step_stop, step_emit_state}
use zju_connect_gui.Manager.Input.{step_submit_input, step_request_input}
use zju_connect_gui.Manager.Captcha.{step_request_captcha, step_captcha_poll, step_captcha_poll_end}
use zju_connect_gui.Manager.Ready.{
  step_begin_ready_wait, step_store_readiness_handle, step_ready_poll, step_mark_ready,
  step_schedule_eip, step_store_eip_handle, step_eip_wake, step_eip_open, step_eip_mark,
}
use zju_connect_gui.Manager.Exit.{
  step_process_exit, step_schedule_retry, step_store_retry_handle, step_announce_retry,
  step_retry_wake, step_retry_recheck, step_retry_prepare, step_retry_spawn, after_retry_error,
}
use zju_connect_gui.Manager.Bridge.{
  step_start_proxybridge, step_load_proxybridge, step_register_proxybridge,
}
use zju_connect_gui.Manager.Exec.{
  step_log_line, step_check_ready_line, supervise_step, step_child_gone, exec,
}
use zju_connect_gui.Manager.System.{System, Call, entry, advance}

-- No session is active and no child is registered.
abbrev pub IsIdle : State → Type 0
IsIdle s = (s.session_active ≡ false) × (s.child_pid ≡ none)

-- The one action that activates a session: the second lock of `start`.
abbrev activates : Action → Bool
activates (start_reset o) = true
activates _ = false

module _ (args : List Text) (g : ℕ) (s : State) (after_ok : Thread)
    (after_err : StartError → Thread) (h : IsIdle s) where
  spawn_result-IsIdle :
      (r : Result ℕ Text) → IsIdle (spawn_result r args g s after_ok after_err).state
  unfolding spawn_guard_violated
  spawn_result-IsIdle (ok pid) = ground arith
  spawn_result-IsIdle (err e) = h

spawn_child-IsIdle :
    (env : Env) (answer : Answer) (o : LaunchOptions) (path : Text) (g : ℕ) (s : State)
    (after_ok : Thread) (after_err : StartError → Thread)
    → IsIdle s
    → IsIdle (spawn_child env answer o path g s after_ok after_err).state
unfolding spawn_child
spawn_child-IsIdle env answer o path g s after_ok after_err h = if_cases answer.binary_exists
  where
    if_cases :
        (exists : Bool)
        → IsIdle
            (if exists
              then spawn_result answer.spawned (build_args o path) g s after_ok after_err
              else go_on s (after_err (binary_missing (bin_path env env.binary_path)))).state
    if_cases true = spawn_result-IsIdle (build_args o path) g s after_ok after_err h answer.spawned
    if_cases false = h

pub supervise_step-keeps :
    (env : Env) (phase : Phase) (pid g : ℕ) (event : ChildEvent) (s : State)
    → (supervise_step env phase pid g event s).state ≡ s
unfolding supervise_step
supervise_step-keeps env phase pid g (line l) s = refl
supervise_step-keeps env phase pid g (partial l) s = refl
supervise_step-keeps env phase pid g captcha_written s = refl
supervise_step-keeps env watching pid g (stop_received true) s = refl
supervise_step-keeps env watching pid g (stop_received false) s = refl
supervise_step-keeps env in_grace pid g (stop_received b) s = refl
supervise_step-keeps env killing pid g (stop_received b) s = refl
supervise_step-keeps env watching pid g grace_expired s = refl
supervise_step-keeps env in_grace pid g grace_expired s = refl
supervise_step-keeps env killing pid g grace_expired s = refl
supervise_step-keeps env phase pid g (exited descr) s = refl

step_submit_input-IsIdle :
    (value : Text) (kind : Option Text) (sent : Bool) (s : State)
    → IsIdle s
    → IsIdle (step_submit_input value kind sent s).state
unfolding step_submit_input
step_submit_input-IsIdle value kind sent s h = ground arith

step_start_check-IsIdle :
    (env : Env) (o : LaunchOptions) (s : State) → IsIdle s → IsIdle (step_start_check env o s).state
unfolding step_start_check
step_start_check-IsIdle env o s h = ground arith

exec-IsIdle :
    (env : Env) (a : Action) (answer : Answer) (s : State)
    → activates a ≡ false
    → IsIdle s
    → IsIdle (exec env a answer s).state
unfolding exec
exec-IsIdle env (start_check o) answer s n h = step_start_check-IsIdle env o s h
exec-IsIdle env (start_reset o) answer s n h = cc
exec-IsIdle env (start_spawn o path g) answer s n h =
    unfold step_start_spawn in spawn_child-IsIdle env answer o path g s _ _ h
exec-IsIdle env (cleanup_failed_start g e) answer s n h = unfold step_cleanup in ground arith
exec-IsIdle env stop_session answer s n h = unfold step_stop in ground arith
exec-IsIdle env (submit_input value kind) answer s n h =
    step_submit_input-IsIdle value kind answer.line_sent s h
exec-IsIdle env (supervise phase pid g) answer s n h =
    rw (supervise_step-keeps env phase pid g answer.child s) h
exec-IsIdle env (child_gone g) answer s n h = unfold step_child_gone in (h.0, refl)
exec-IsIdle env (process_exit g descr) answer s n h = unfold step_process_exit in ground arith
exec-IsIdle env (log_line l) answer s n h = unfold step_log_line in ground arith
exec-IsIdle env captcha_poll answer s n h = unfold step_captcha_poll in ground arith
exec-IsIdle env (begin_ready_wait bind) answer s n h = unfold step_begin_ready_wait in ground arith
exec-IsIdle env (ready_poll dial g) answer s n h = unfold step_ready_poll in ground arith
exec-IsIdle env (mark_ready g) answer s n h = unfold step_mark_ready in ground arith
exec-IsIdle env (load_proxybridge o) answer s n h = unfold step_load_proxybridge in ground arith
exec-IsIdle env (retry_spawn o path g) answer s n h =
    unfold step_retry_spawn in spawn_child-IsIdle env answer o path g s [] after_retry_error h
exec-IsIdle env (spawn_task a) answer s n h = h
exec-IsIdle env (emit_state state message k d) answer s n h = unfold step_emit_state in h
exec-IsIdle env (give_reply r) answer s n h = h
exec-IsIdle env (check_ready_line l) answer s n h = unfold step_check_ready_line in ground arith
exec-IsIdle env (request_input kind prompt) answer s n h = unfold step_request_input in ground arith
exec-IsIdle env request_captcha answer s n h = unfold step_request_captcha in ground arith
exec-IsIdle env (store_captcha_handle t) answer s n h = h
exec-IsIdle env captcha_poll_end answer s n h = unfold step_captcha_poll_end in ground arith
exec-IsIdle env (store_readiness_handle t) answer s n h = unfold step_store_readiness_handle in h
exec-IsIdle env (schedule_eip g) answer s n h = unfold step_schedule_eip in h
exec-IsIdle env (store_eip_handle t) answer s n h = unfold step_store_eip_handle in h
exec-IsIdle env (eip_wake g o) answer s n h = unfold step_eip_wake in ground arith
exec-IsIdle env (eip_open g o) answer s n h = unfold step_eip_open in ground arith
exec-IsIdle env (eip_mark g) answer s n h = unfold step_eip_mark in ground arith
exec-IsIdle env (schedule_retry cause) answer s n h = unfold step_schedule_retry in h
exec-IsIdle env (store_retry_handle t) answer s n h = unfold step_store_retry_handle in h
exec-IsIdle env (announce_retry cause k d) answer s n h = unfold step_announce_retry in h
exec-IsIdle env (retry_wake g) answer s n h = unfold step_retry_wake in ground arith
exec-IsIdle env (retry_recheck g o) answer s n h = unfold step_retry_recheck in ground arith
exec-IsIdle env (retry_prepare g o) answer s n h = unfold step_retry_prepare in h
exec-IsIdle env (start_proxybridge o) answer s n h = unfold step_start_proxybridge in ground arith
exec-IsIdle env (register_proxybridge b t) answer s n h =
    unfold step_register_proxybridge in ground arith

-- A run in which no `start` gets as far as its second lock. Calls of `start` that are refused, of
-- `stop` and of `submit_input` are in it, and every task that is left over.
pub data ReachUnstarted (env : Env) (w : System) : System → Type 0 where
  here : ReachUnstarted env w w
  called :
      {u v : System} (c : Call)
      → ReachUnstarted env w u
      → v ≡ record u { threads = (entry c ∷ []) ∷ u.threads }
      → ReachUnstarted env w v
  stepped :
      {u v : System} (before : List Thread) (a : Action) (rest : Thread) (after : List Thread)
      (answer : Answer)
      → ReachUnstarted env w u
      → activates a ≡ false
      → u.threads ≡ before ++ ((a ∷ rest) ∷ after)
      → v ≡ advance u.trace before rest after (exec env a answer u.state)
      → ReachUnstarted env w v

-- From a state in which no session is active and no child is registered, that stays so as long as
-- no `start` takes its second lock, whatever is called and whichever other actions run, timers,
-- polls, retries and late exits included.
pub ReachUnstarted-IsIdle :
    (env : Env) {w u : System} → IsIdle w.state → ReachUnstarted env w u → IsIdle u.state
ReachUnstarted-IsIdle env {w} {u} h here = h
ReachUnstarted-IsIdle env {w} {u} h (called c r e) = rw e (ReachUnstarted-IsIdle env h r)
ReachUnstarted-IsIdle env {w} {u} h (stepped before a rest after answer r n e1 e2) =
    rw e2 (exec-IsIdle env a answer _ n (ReachUnstarted-IsIdle env h r))
