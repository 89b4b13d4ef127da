-- ===== src/Manager/Startup.antt =====
-- What `start` and `stop` do when nothing comes between.
use zju_connect_gui.Base.{
  ℕ, ◌≡◌, true, false, [], ◌∷◌, none, some, arith, refl, ap, Bool-cases, inl, inr,
}
use zju_connect_gui.Base.Results.{Result, ok, err}
use zju_connect_gui.Launch.{LaunchOptions, ValidationError, validate, build_args}
use zju_connect_gui.Manager.State.{
  State, Env, StartError, already_running, validation, needs_elevation, start_result,
  next_generation,
}
use zju_connect_gui.Manager.Action.{
  Answer, start_check, start_reset, stop_session, give_reply, supervise, watching,
}
use zju_connect_gui.Manager.Start
use zju_connect_gui.Manager.Start.{
  captcha_path_of, prepare_options, requires_elevation, step_start_check, claim_session,
  check_validated, refuse,
}
use zju_connect_gui.Manager.Stop
use zju_connect_gui.Manager.Exec.{exec}
use zju_connect_gui.Manager.Alone.{run_alone, processes}

-- The options are valid, need no rights that are missing, and no child is registered.
pub record MayStart (env : Env) (o : LaunchOptions) (s : State) : Type 0 where
  pub valid : validate (prepare_options env o) ≡ ok tt
  pub allowed : requires_elevation env.platform env.elevated (prepare_options env o) ≡ false
  pub no_child : s.child_pid ≡ none

start_claims :
    (env : Env) (answer : Answer) (o : LaunchOptions) (s : State)
    → MayStart env o s
    → (exec env (start_check o) answer s).next ≡ start_reset (prepare_options env o) ∷ []
unfolding exec step_start_check
start_claims env answer o s h = ground arith

-- A start with valid options that need no missing rights, with no child registered and a program
-- file that can be started, runs to its end: the session is active under the next generation, with
-- its own options, not ready, awaiting nothing and with the page not opened; exactly one process
-- is started, with the arguments built from the options, it is registered, and its supervision
-- under that generation is the only task.
pub start_registers :
    (env : Env) (answer : Answer) (o : LaunchOptions) (pid : ℕ) (s : State)
    → MayStart env o s
    → answer.binary_exists ≡ true
    → answer.spawned ≡ ok pid
    → let r = run_alone 8 env answer (start_check o ∷ []) s in
      (r.left ≡ [])
      × (r.spawned ≡ supervise watching pid (next_generation s.retry_generation) ∷ [])
      × (processes r.effects ≡ (pid, build_args (prepare_options env o) (captcha_path_of env)) ∷ [])
      × (r.state.session_active ≡ true)
      × (r.state.child_pid ≡ some pid)
      × (r.state.ready ≡ false)
      × (r.state.awaiting ≡ none)
      × (r.state.eip_opened ≡ false)
      × (r.state.last_options ≡ prepare_options env o)
      × (r.state.retry_generation ≡ next_generation s.retry_generation)
unfolding run_alone exec step_start_check Start.step_start_reset Start.step_start_spawn
    Stop.step_emit_state
start_registers env answer o pid s h found spawned = ground arith

claim_refused :
    (o : LaunchOptions) (pid : ℕ) (s : State)
    → s.child_pid ≡ some pid
    → claim_session o s ≡ refuse s already_running
unfolding claim_session
claim_refused o pid s registered = rw registered

check_refused :
    (env : Env) (o : LaunchOptions) (pid : ℕ) (s : State) (r : Result (Unit {0}) ValidationError)
    → s.child_pid ≡ some pid
    → (e : StartError) × (check_validated env o s r ≡ refuse s e)
check_refused env o pid s (err e) registered = (validation e, refl)
check_refused env o pid s (ok _) registered =
    elim (Bool-cases (requires_elevation env.platform env.elevated o)) [
      | inl missing_rights ↦ (needs_elevation, rw missing_rights)
      | inr allowed ↦ (already_running, rw allowed (claim_refused o pid s registered))
    ]

-- A registered child refuses a second start, whatever the options: the state is left as it was,
-- nothing is done or spawned, and all that is left of the call is to return an error.
pub start_refused :
    (env : Env) (answer : Answer) (o : LaunchOptions) (pid : ℕ) (s : State)
    → s.child_pid ≡ some pid
    → let r = exec env (start_check o) answer s in
      (r.state ≡ s)
      × (r.effects ≡ [])
      × (r.spawned ≡ [])
      × ((e : StartError) × (r.next ≡ give_reply (start_result (err e)) ∷ []))
unfolding exec step_start_check
start_refused env answer o pid s registered =
    let (e, same) =
      check_refused env (prepare_options env o) pid s (validate (prepare_options env o))
        registered in
    (
      ap (λ r. r.state) same,
      ap (λ r. r.effects) same,
      ap (λ r. r.spawned) same,
      (e, ap (λ r. r.next) same),
    )

-- A start that passes its checks, with no child registered, and finds no program file ends the
-- session that it opened: the call runs to its end, no task is spawned, no session is active, no
-- child is registered and nothing is awaited.
start_missing_binary :
    (env : Env) (answer : Answer) (o : LaunchOptions) (s : State)
    → MayStart env o s
    → answer.binary_exists ≡ false
    → let r = run_alone 8 env answer (start_check o ∷ []) s in
      (r.left ≡ [])
      × (r.spawned ≡ [])
      × (r.state.session_active ≡ false)
      × (r.state.child_pid ≡ none)
      × (r.state.awaiting ≡ none)
unfolding run_alone exec step_start_check Start.step_start_reset Start.step_start_spawn
    Start.step_cleanup Stop.step_emit_state
start_missing_binary env answer o s h missing =
    (ground arith, ground arith, ground arith, ground arith, ground arith)

-- A call of `stop` runs to its end without a new task and leaves no session active, not ready,
-- nothing awaited, no stop channel and no bridge marked as started; the child's registration is
-- left as it was, and the generation is the next one.
pub stop_ends :
    (env : Env) (answer : Answer) (s : State)
    → let r = run_alone 4 env answer (stop_session ∷ []) s in
      (r.left ≡ [])
      × (r.spawned ≡ [])
      × (r.state.session_active ≡ false)
      × (r.state.ready ≡ false)
      × (r.state.awaiting ≡ none)
      × (r.state.stop_tx ≡ none)
      × (r.state.proxybridge_started ≡ false)
      × (r.state.child_pid ≡ s.child_pid)
      × (r.state.retry_generation ≡ next_generation s.retry_generation)
unfolding run_alone exec Stop.step_stop Stop.step_emit_state
stop_ends env answer s = ground arith
