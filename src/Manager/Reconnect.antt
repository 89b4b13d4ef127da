-- ===== src/Manager/Reconnect.antt =====
-- A lost connection is taken up again.
use zju_connect_gui.Base.{ℕ, ◌≡◌, true, [], ◌∷◌, none, some, arith, ◌∙◌, ap}
use zju_connect_gui.Base.Results.{ok}
use zju_connect_gui.Text.{Text}
use zju_connect_gui.Launch.{build_args}
use zju_connect_gui.Manager.State.{State, Env, next_generation, next_attempt}
use zju_connect_gui.Manager.Action.{Answer, process_exit, retry_wake, watching, supervise}
use zju_connect_gui.Manager.Start.{captcha_path_of}
use zju_connect_gui.Manager.Stop
use zju_connect_gui.Manager.Exit
use zju_connect_gui.Manager.Exec.{exec}
use zju_connect_gui.Manager.Alone.{run_alone, processes}

-- The state in which the handler of an exit finds a session that wants to go on.
pub record IsDropped (s : State) (generation : ℕ) : Type 0 where
  pub active : s.session_active ≡ true
  pub current : generation ≡ s.retry_generation
  pub no_prompt : s.awaiting ≡ none
  pub no_child : s.child_pid ≡ none

-- The exit of a child whose session goes on: one timer is left for the next generation.
exit_schedules :
    (env : Env) (answer : Answer) (generation : ℕ) (descr : Text) (s : State)
    → IsDropped s generation
    → let exit_run = run_alone 8 env answer (process_exit generation descr ∷ []) s in
      (exit_run.left ≡ [])
      × (exit_run.spawned ≡ retry_wake (next_generation generation) ∷ [])
      × IsDropped exit_run.state (next_generation generation)
      × (exit_run.state.last_options ≡ s.last_options)
      × (exit_run.state.retry_attempt ≡ next_attempt s.retry_attempt)
unfolding run_alone exec Exit.step_process_exit Exit.step_schedule_retry
    Exit.step_store_retry_handle Exit.step_announce_retry Stop.step_emit_state
exit_schedules env answer generation descr s h = ground arith

-- The timer of a session that is still the same: the child is started with the last options.
wake_registers :
    (env : Env) (answer : Answer) (generation pid : ℕ) (s : State)
    → IsDropped s generation
    → answer.binary_exists ≡ true
    → answer.spawned ≡ ok pid
    → let wake_run = run_alone 8 env answer (retry_wake generation ∷ []) s in
      (wake_run.left ≡ [])
      × (wake_run.spawned ≡ supervise watching pid generation ∷ [])
      × (wake_run.state.child_pid ≡ some pid)
      × (wake_run.state.stdin_tx ≡ some pid)
      × (wake_run.state.retry_attempt ≡ s.retry_attempt)
      × (wake_run.state.session_active ≡ true)
      × (processes wake_run.effects ≡ (pid, build_args s.last_options (captcha_path_of env)) ∷ [])
unfolding run_alone exec Exit.step_retry_wake Exit.step_retry_recheck Exit.step_retry_prepare
    Exit.step_retry_spawn Stop.step_emit_state
wake_registers env answer generation pid s h found spawned = ground arith

-- The exit of the active session's child is handled while no input is awaited and no child is
-- registered, and nothing else happens until the timer that this leaves has run. Then, if the
-- program file is there and can be started, a child is registered under the next generation and is
-- the only one that is supervised, started as the only process with the options of the last start;
-- the session is active, and the attempts have gone up by one. Both threads run to their ends.
pub reconnects :
    (env : Env) (answer : Answer) (generation pid : ℕ) (descr : Text) (s : State)
    → IsDropped s generation
    → answer.binary_exists ≡ true
    → answer.spawned ≡ ok pid
    → let exit_run = run_alone 8 env answer (process_exit generation descr ∷ []) s in
      let wake_run = run_alone 8 env answer exit_run.spawned exit_run.state in
      (exit_run.left ≡ [])
      × (wake_run.left ≡ [])
      × (wake_run.spawned ≡ supervise watching pid (next_generation generation) ∷ [])
      × (wake_run.state.child_pid ≡ some pid)
      × (wake_run.state.session_active ≡ true)
      × (wake_run.state.retry_attempt ≡ next_attempt s.retry_attempt)
      × (processes wake_run.effects ≡ (pid, build_args s.last_options (captcha_path_of env)) ∷ [])
reconnects env answer generation pid descr s h found spawned =
    let exit_run = run_alone 8 env answer (process_exit generation descr ∷ []) s in
    let (ended, timer, dropped, same, counted) = exit_schedules env answer generation descr s h in
    let (done_, supervised, child, stdin, attempts, active, started) =
      wake_registers env answer (next_generation generation) pid exit_run.state dropped found
        spawned in
    (
      ended,
      rw timer done_,
      rw timer supervised,
      rw timer child,
      rw timer active,
      rw timer (attempts ∙ counted),
      rw timer (started ∙ ap (λ o. (pid, build_args o (captcha_path_of env)) ∷ []) same),
    )
