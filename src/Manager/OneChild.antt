-- ===== src/Manager/OneChild.antt =====
-- At most one supervised child process, under every interleaving.
pub mod Balance
use zju_connect_gui.Base.{ℕ, ◌+◌, ◌≤◌, ◌≡◌, refl, List, [], ◌∷◌, ◌++◌, Option, arith}
use zju_connect_gui.Manager.State.{State, Env}
use zju_connect_gui.Manager.Action.{
  Action, Thread, Answer, Outcome, start_check, start_reset, start_spawn, cleanup_failed_start,
  stop_session, submit_input, emit_state, give_reply, spawn_task, supervise, child_gone,
  process_exit, log_line, check_ready_line, request_input, request_captcha, store_captcha_handle,
  captcha_poll, captcha_poll_end, begin_ready_wait, store_readiness_handle, ready_poll, mark_ready,
  schedule_eip, store_eip_handle, eip_wake, eip_open, eip_mark, schedule_retry, store_retry_handle,
  announce_retry, retry_wake, retry_recheck, retry_prepare, retry_spawn, start_proxybridge,
  load_proxybridge, register_proxybridge,
}
use zju_connect_gui.Manager.Start.{step_start_reset, step_start_spawn}
use zju_connect_gui.Manager.Stop.{step_emit_state}
use zju_connect_gui.Manager.Input.{step_request_input}
use zju_connect_gui.Manager.Captcha.{step_request_captcha, step_captcha_poll_end}
use zju_connect_gui.Manager.Ready.{
  step_store_readiness_handle, step_schedule_eip, step_store_eip_handle, step_eip_wake,
  step_eip_open, step_eip_mark,
}
use zju_connect_gui.Manager.Exit.{
  step_schedule_retry, step_store_retry_handle, step_announce_retry, step_retry_wake,
  step_retry_recheck, step_retry_prepare, step_retry_spawn, after_retry_error,
}
use zju_connect_gui.Manager.Bridge.{step_start_proxybridge, step_register_proxybridge}
use zju_connect_gui.Manager.Exec.{step_check_ready_line, exec}
use zju_connect_gui.Manager.System.{
  System, Call, entry, tasks, Step, call, run, Reach, here, next, initial,
}
use zju_connect_gui.Manager.OneChild.Balance.{
  supervised, supervised_by, registered, supervised_in-append, supervised_by-append,
  supervised_by-tasks, IsBalanced, spawn_child-IsBalanced, after_retry_error-none,
  step_start_check-IsBalanced, step_submit_input-IsBalanced, step_cleanup-IsBalanced,
  step_stop-IsBalanced, step_process_exit-IsBalanced, step_mark_ready-IsBalanced,
  step_begin_ready_wait-IsBalanced, step_load_proxybridge-IsBalanced, step_ready_poll-IsBalanced,
  step_captcha_poll-IsBalanced, step_log_line-IsBalanced, supervise_step-IsBalanced,
  step_child_gone-IsBalanced,
}

registered-le : (p : Option ℕ) → registered p ≤ 1
registered-le p = ground arith

exec-IsBalanced :
    (env : Env) (a : Action) (answer : Answer) (s : State)
    → supervised a ≤ registered s.child_pid
    → IsBalanced (supervised a) s (exec env a answer s)
unfolding exec
exec-IsBalanced env (start_check o) answer s h = step_start_check-IsBalanced env o s
exec-IsBalanced env (start_spawn o path g) answer s h =
    unfold step_start_spawn in spawn_child-IsBalanced env answer o path g s _ _ refl (λ e. refl)
exec-IsBalanced env (cleanup_failed_start g e) answer s h = step_cleanup-IsBalanced g e s
exec-IsBalanced env stop_session answer s h = step_stop-IsBalanced s
exec-IsBalanced env (submit_input value kind) answer s h =
    step_submit_input-IsBalanced value kind answer.line_sent s
exec-IsBalanced env (supervise phase pid g) answer s h =
    supervise_step-IsBalanced env phase pid g answer.child s
exec-IsBalanced env (child_gone g) answer s h =
    step_child_gone-IsBalanced s (omega (arith, registered-le s.child_pid))
exec-IsBalanced env (process_exit g descr) answer s h = step_process_exit-IsBalanced g descr s
exec-IsBalanced env (log_line l) answer s h = step_log_line-IsBalanced env l s
exec-IsBalanced env captcha_poll answer s h = step_captcha_poll-IsBalanced env answer s
exec-IsBalanced env (begin_ready_wait bind) answer s h =
    step_begin_ready_wait-IsBalanced answer bind s
exec-IsBalanced env (ready_poll dial g) answer s h = step_ready_poll-IsBalanced answer dial g s
exec-IsBalanced env (mark_ready g) answer s h = step_mark_ready-IsBalanced env g s
exec-IsBalanced env (load_proxybridge o) answer s h = step_load_proxybridge-IsBalanced env answer s
exec-IsBalanced env (retry_spawn o path g) answer s h =
    unfold step_retry_spawn in
    spawn_child-IsBalanced env answer o path g s [] after_retry_error refl after_retry_error-none
exec-IsBalanced env (spawn_task a) answer s h = omega arith
exec-IsBalanced env (start_reset o) answer s h = unfold step_start_reset in omega arith
exec-IsBalanced env (emit_state state message n d) answer s h =
    unfold step_emit_state in omega arith
exec-IsBalanced env (give_reply r) answer s h = omega arith
exec-IsBalanced env (check_ready_line l) answer s h = unfold step_check_ready_line in ground arith
exec-IsBalanced env (request_input kind prompt) answer s h =
    unfold step_request_input in ground arith
exec-IsBalanced env request_captcha answer s h = unfold step_request_captcha in ground arith
exec-IsBalanced env (store_captcha_handle t) answer s h = omega arith
exec-IsBalanced env captcha_poll_end answer s h = unfold step_captcha_poll_end in ground arith
exec-IsBalanced env (store_readiness_handle t) answer s h =
    unfold step_store_readiness_handle in omega arith
exec-IsBalanced env (schedule_eip g) answer s h = unfold step_schedule_eip in omega arith
exec-IsBalanced env (store_eip_handle t) answer s h = unfold step_store_eip_handle in omega arith
exec-IsBalanced env (eip_wake g o) answer s h = unfold step_eip_wake in ground arith
exec-IsBalanced env (eip_open g o) answer s h = unfold step_eip_open in ground arith
exec-IsBalanced env (eip_mark g) answer s h = unfold step_eip_mark in ground arith
exec-IsBalanced env (schedule_retry cause) answer s h = unfold step_schedule_retry in omega arith
exec-IsBalanced env (store_retry_handle t) answer s h =
    unfold step_store_retry_handle in omega arith
exec-IsBalanced env (announce_retry cause n d) answer s h =
    unfold step_announce_retry in omega arith
exec-IsBalanced env (retry_wake g) answer s h = unfold step_retry_wake in ground arith
exec-IsBalanced env (retry_recheck g o) answer s h = unfold step_retry_recheck in ground arith
exec-IsBalanced env (retry_prepare g o) answer s h = unfold step_retry_prepare in omega arith
exec-IsBalanced env (start_proxybridge o) answer s h = unfold step_start_proxybridge in ground arith
exec-IsBalanced env (register_proxybridge b t) answer s h =
    unfold step_register_proxybridge in ground arith

-- As many supervised children as are registered.
abbrev IsOneChild : System → Type 0
IsOneChild w = supervised_by w.threads ≡ registered w.state.child_pid

entry-none : (c : Call) → supervised (entry c) ≡ 0
unfolding entry
entry-none c = ground arith

advance-IsOneChild :
    (before : List Thread) (a : Action) (rest : Thread) (after : List Thread) (s : State)
    (o : Outcome)
    → supervised_by (before ++ ((a ∷ rest) ∷ after)) ≡ registered s.child_pid
    → IsBalanced (supervised a) s o
    → supervised_by (before ++ ((o.next ++ rest) ∷ (after ++ tasks o.spawned)))
      ≡ registered o.state.child_pid
advance-IsOneChild before a rest after s o h balance = omega (
  arith,
  supervised_by-append before ((a ∷ rest) ∷ after),
  supervised_by-append before ((o.next ++ rest) ∷ (after ++ tasks o.spawned)),
  supervised_in-append o.next rest,
  supervised_by-append after (tasks o.spawned),
  supervised_by-tasks o.spawned,
)

Step-IsOneChild : (env : Env) {w u : System} → Step env w u → IsOneChild w → IsOneChild u
Step-IsOneChild env {w} {u} (call c e) h = rw e (omega (arith, entry-none c))
Step-IsOneChild env {w} {u} (run before a rest after answer e1 e2) h =
    let counted = rw e1 at h in
    rw e2 (
      advance-IsOneChild before a rest after w.state (exec env a answer w.state) counted (
        exec-IsBalanced env a answer w.state
          (omega (arith, counted, supervised_by-append before ((a ∷ rest) ∷ after)))))

-- From the start of the program, whatever is called and however the threads interleave, the number
-- of children that are supervised is that of the children registered in the state, which is at
-- most one.
pub Reach-IsOneChild :
    (env : Env) {w : System}
    → Reach env initial w
    → (supervised_by w.threads ≡ registered w.state.child_pid) × (supervised_by w.threads ≤ 1)
Reach-IsOneChild env r = let h = invariant r in (h, omega (arith, h, registered-le _))
  where
    invariant : {w : System} → Reach env initial w → IsOneChild w
    invariant here = refl
    invariant (next r st) = Step-IsOneChild env st (invariant r)
