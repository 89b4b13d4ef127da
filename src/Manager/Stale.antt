-- ===== src/Manager/Stale.antt =====
-- Tasks of an older generation, and the browser page.
use zju_connect_gui.Base.{ℕ, ◌≡◌, ◌≢◌, Bool, true, false, [], ◌∷◌, arith, ◌&&◌, not, ◌∙◌, none}
use zju_connect_gui.Text.{Text}
use zju_connect_gui.Launch.{LaunchOptions}
use zju_connect_gui.Manager.State.{State, Env, next_generation}
use zju_connect_gui.Manager.Action.{
  Thread, Answer, mark_ready, ready_poll, retry_wake, retry_recheck, eip_wake, eip_mark,
  schedule_eip, done,
}
use zju_connect_gui.Manager.Ready.{step_ready_poll, step_mark_ready, step_eip_wake, step_eip_mark}
use zju_connect_gui.Manager.Stop.{step_stop}
use zju_connect_gui.Manager.Start.{claim_session}
use zju_connect_gui.Manager.Exit.{decide_exit_action, step_retry_wake, step_retry_recheck}
use zju_connect_gui.Manager.Exec.{exec}

-- A task of a generation other than the current one changes nothing, does nothing and ends, at
-- each of these points where it takes the lock: the readiness poll, the switch to connected, the
-- retry timer and its second check, the delayed page and its mark.
exec_stale :
    (env : Env) (answer : Answer) (generation : ℕ) (dial : Text) (o : LaunchOptions) (s : State)
    → generation ≢ s.retry_generation
    → (exec env (ready_poll dial generation) answer s ≡ done s)
      × (exec env (mark_ready generation) answer s ≡ done s)
      × (exec env (retry_wake generation) answer s ≡ done s)
      × (exec env (retry_recheck generation o) answer s ≡ done s)
      × (exec env (eip_wake generation o) answer s ≡ done s)
      × (exec env (eip_mark generation) answer s ≡ done s)
unfolding exec step_ready_poll step_mark_ready step_retry_wake step_retry_recheck step_eip_wake
    step_eip_mark
exec_stale env answer generation dial o s stale =
    (ground arith, ground arith, ground arith, ground arith, ground arith, ground arith)

next_generation_ne : (g : ℕ) → g ≢ next_generation g
next_generation_ne g e = omega arith

-- What gives a session's state a new generation: a stop, a start that finds no child, and the exit of the
-- child of an active session that waits for no input.
pub data Renews (s t : State) : Type 0 where
  by_stop : t ≡ (step_stop s).state → Renews s t
  by_start : (o : LaunchOptions) → s.child_pid ≡ none → t ≡ (claim_session o s).state → Renews s t
  by_exit :
      s.session_active ≡ true
      → s.awaiting ≡ none
      → t ≡ (decide_exit_action s s.retry_generation).0
      → Renews s t

Renews-next_generation :
    (s t : State) → Renews s t → t.retry_generation ≡ next_generation s.retry_generation
unfolding step_stop claim_session decide_exit_action
Renews-next_generation s t (by_stop e) = rw e (ground arith)
Renews-next_generation s t (by_start o free e) = rw e (ground arith)
Renews-next_generation s t (by_exit active waits e) = rw e (ground arith)

-- Once a stop, a start that finds no child, or the exit of the child of an active session that waits for
-- no input has taken a state `s` to `t`, then in every state `u` of the generation of `t` the tasks of the
-- session in `s` change nothing, do nothing and end, at each of these points where they take the lock: the
-- readiness poll, the switch to connected, the retry timer and its second check, the delayed page and its
-- mark.
pub Renews-exec :
    (env : Env) (answer : Answer) (dial : Text) (o : LaunchOptions) (s t u : State)
    → Renews s t
    → u.retry_generation ≡ t.retry_generation
    → let generation = s.retry_generation in
      (exec env (ready_poll dial generation) answer u ≡ done u)
      × (exec env (mark_ready generation) answer u ≡ done u)
      × (exec env (retry_wake generation) answer u ≡ done u)
      × (exec env (retry_recheck generation o) answer u ≡ done u)
      × (exec env (eip_wake generation o) answer u ≡ done u)
      × (exec env (eip_mark generation) answer u ≡ done u)
Renews-exec env answer dial o s t u renews e =
    exec_stale env answer s.retry_generation dial o u (λ same.
      next_generation_ne s.retry_generation (same ∙ (e ∙ Renews-next_generation s t renews)))

-- Whether a thread schedules the page.
abbrev schedules_page : Thread → Bool
schedules_page [] = false
schedules_page (schedule_eip g ∷ thread) = true
schedules_page (_ ∷ thread) = schedules_page thread

-- In an active session that is not ready, the switch to connected under its generation makes it
-- ready and sets the attempts to zero, and schedules the page exactly when the options ask for it
-- and it was not opened in this session.
mark_ready-schedules_page :
    (env : Env) (answer : Answer) (s : State)
    → s.session_active ≡ true
    → s.ready ≡ false
    → let r = exec env (mark_ready s.retry_generation) answer s in
      (r.state.ready ≡ true)
      × (r.state.retry_attempt ≡ 0)
      × (schedules_page r.next ≡ (s.eip_options.eip_auto_open && not s.eip_opened))
unfolding exec step_mark_ready
mark_ready-schedules_page env answer s active waiting = ground arith
