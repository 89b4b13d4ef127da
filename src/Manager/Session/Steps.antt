-- ===== src/Manager/Session/Steps.antt =====
-- Lemmas on the steps of the manager's actions, seen as steps of the session.
use zju_connect_gui.Base.{
  ℕ, ◌≡◌, refl, List, Bool, true, false, Option, none, ◌⊎◌, inl, inr, some, Bool-cases, arith,
  if◌then◌else◌,
}
use zju_connect_gui.Base.Results.{Result, ok, err}
use zju_connect_gui.Text.{Text}
use zju_connect_gui.Launch.{LaunchOptions, build_args}
use zju_connect_gui.Manager.State.{State, Env, StartError, binary_missing}
use zju_connect_gui.Manager.Action.{
  Action, Thread, Answer, start_reset, start_spawn, cleanup_failed_start, stop_session, child_gone,
  process_exit, retry_spawn, go_on,
}
use zju_connect_gui.Manager.Start.{
  step_start_check, step_cleanup, spawn_child, spawn_result, register_or_kill, spawn_guard_violated,
  bin_path,
}
use zju_connect_gui.Manager.Stop.{step_stop}
use zju_connect_gui.Manager.Input.{step_submit_input}
use zju_connect_gui.Manager.Exit.{step_process_exit}
use zju_connect_gui.Manager.Session.{
  Session, Kind, quiet, activating, spawning, reaping, ending, SessionStep, stays, register, end,
  may_stay,
}

abbrev pub session_of : State → Session
session_of s = record { active = s.session_active; child = s.child_pid }

abbrev pub kind_of : Action → Kind
kind_of (start_reset o) = activating
kind_of (start_spawn o path g) = spawning
kind_of (retry_spawn o path g) = spawning
kind_of (child_gone g) = reaping
kind_of (cleanup_failed_start g e) = ending
kind_of stop_session = ending
kind_of (process_exit g descr) = ending
kind_of _ = quiet

-- The state keeps both.
abbrev pub IsKept : State → State → Type 0
IsKept s t = (t.session_active ≡ s.session_active) × (t.child_pid ≡ s.child_pid)

session_of-IsKept : (s t : State) → IsKept s t → session_of t ≡ session_of s
session_of-IsKept s t (e, f) = cc

pub quiet_step :
    (k : Kind) (s t : State)
    → may_stay k ≡ true
    → IsKept s t
    → SessionStep k (session_of s) (session_of t)
quiet_step k s t may h = rw (session_of-IsKept s t h) (stays may)

-- An action of the kind that ends a session keeps the child, and the session or not.
abbrev IsEnded : State → State → Type 0
IsEnded s t =
    (t.child_pid ≡ s.child_pid)
    × ((t.session_active ≡ s.session_active) ⊎ (t.session_active ≡ false))

pub ending_step : (s t : State) → IsEnded s t → SessionStep ending (session_of s) (session_of t)
ending_step s t (e, inl kept) = quiet_step ending s t refl (kept, e)
ending_step s t (e, inr over) = end cc

pub step_start_check-IsKept :
    (env : Env) (o : LaunchOptions) (s : State) → IsKept s (step_start_check env o s).state
unfolding step_start_check
step_start_check-IsKept env o s = ground arith

pub step_submit_input-IsKept :
    (value : Text) (kind : Option Text) (sent : Bool) (s : State)
    → IsKept s (step_submit_input value kind sent s).state
unfolding step_submit_input
step_submit_input-IsKept value kind sent s = ground arith

pub step_cleanup-IsEnded :
    (g : ℕ) (e : StartError) (s : State) → IsEnded s (step_cleanup g e s).state
unfolding step_cleanup
step_cleanup-IsEnded g e s = ground arith

pub step_stop-IsEnded : (s : State) → IsEnded s (step_stop s).state
unfolding step_stop
step_stop-IsEnded s = ground arith

pub step_process_exit-IsEnded :
    (g : ℕ) (descr : Text) (s : State) → IsEnded s (step_process_exit g descr s).state
unfolding step_process_exit
step_process_exit-IsEnded g descr s = ground arith

session-eq :
    (a : Session) {active : Bool} {child : Option ℕ}
    → a.active ≡ active
    → a.child ≡ child
    → a ≡ record { active = active; child = child }
session-eq a e f = cc

passed_lem :
    (g : ℕ) (s : State)
    → spawn_guard_violated s g ≡ false
    → (s.session_active ≡ true) × (s.child_pid ≡ none)
unfolding spawn_guard_violated
passed_lem g s h = ground arith

module _ (args : List Text) (g : ℕ) (s : State) (after_ok : Thread)
    (after_err : StartError → Thread) where
  register_or_kill-step :
      (pid : ℕ)
      → SessionStep spawning
          (session_of s)
          (session_of (register_or_kill pid args g s after_ok after_err).state)
  register_or_kill-step pid = elim (Bool-cases (spawn_guard_violated s g)) [
    | inl violated ↦ rw violated (stays refl)
    | inr passed ↦
        let (active, free) = passed_lem g s passed in
        register pid (session-eq (session_of s) active free) (
          rw passed
            (session-eq (record { active = s.session_active; child = some pid }) active refl))
  ]

  spawn_result-step :
      (r : Result ℕ Text)
      → SessionStep spawning
          (session_of s)
          (session_of (spawn_result r args g s after_ok after_err).state)
  spawn_result-step (ok pid) = register_or_kill-step pid
  spawn_result-step (err e) = stays refl

pub spawn_child-step :
    (env : Env) (answer : Answer) (o : LaunchOptions) (path : Text) (g : ℕ) (s : State)
    (after_ok : Thread) (after_err : StartError → Thread)
    → SessionStep spawning
        (session_of s)
        (session_of (spawn_child env answer o path g s after_ok after_err).state)
unfolding spawn_child
spawn_child-step env answer o path g s after_ok after_err = if_cases answer.binary_exists
  where
    if_cases :
        (exists : Bool)
        → SessionStep spawning (session_of s) (
            session_of
              (if exists
                then spawn_result answer.spawned (build_args o path) g s after_ok after_err
                else go_on s (after_err (binary_missing (bin_path env env.binary_path)))).state)
    if_cases true = spawn_result-step (build_args o path) g s after_ok after_err answer.spawned
    if_cases false = stays refl
