-- ===== src/Manager/OneChild/Balance.antt =====
-- What each operation does to the number of supervised children.
use zju_connect_gui.Base.{
  ℕ, ◌+◌, ◌≡◌, refl, List, [], ◌∷◌, ◌++◌, Bool, true, false, Option, none, some, arith,
  if◌then◌else◌,
}
use zju_connect_gui.Base.Results.{Result, ok, err}
use zju_connect_gui.Text.{Text, trim}
use zju_connect_gui.Logs.{DetectedPrompt, classify_prompt}
use zju_connect_gui.Launch.{LaunchOptions, build_args}
use zju_connect_gui.Manager.State.{
  State, Env, StartError, session_stopped, spawn_failed, binary_missing,
}
use zju_connect_gui.Manager.Action.{
  Action, Thread, Phase, watching, in_grace, killing, ChildEvent, Answer, Outcome, line, partial,
  captcha_written, stop_received, grace_expired, exited, spawn_task, supervise, child_gone,
  check_ready_line, go_on,
}
use zju_connect_gui.Manager.Start.{
  step_start_check, step_cleanup, spawn_child, register_or_kill, spawn_result, spawn_guard_violated,
  bin_path,
}
use zju_connect_gui.Manager.Stop.{step_stop}
use zju_connect_gui.Manager.Input.{step_submit_input}
use zju_connect_gui.Manager.Captcha.{step_captcha_poll}
use zju_connect_gui.Manager.Ready.{step_begin_ready_wait, step_ready_poll, step_mark_ready}
use zju_connect_gui.Manager.Exit.{step_process_exit, after_retry_error}
use zju_connect_gui.Manager.Bridge.{step_load_proxybridge}
use zju_connect_gui.Manager.Exec.{react, step_log_line, supervise_step, step_child_gone}
use zju_connect_gui.Manager.System.{tasks}

-- The supervised children that an action, a thread and a list of threads stand for: one for each
-- supervising task, spawned or about to be, up to the teardown.
abbrev pub supervised : Action → ℕ
supervised (spawn_task a) = supervised a
supervised (supervise phase pid g) = 1
supervised (child_gone g) = 1
supervised _ = 0

abbrev supervised_in : Thread → ℕ
supervised_in [] = 0
supervised_in (a ∷ as') = supervised a + supervised_in as'

abbrev pub supervised_by : List Thread → ℕ
supervised_by [] = 0
supervised_by (t ∷ ts) = supervised_in t + supervised_by ts

-- Whether a child is registered, as a number.
abbrev pub registered : Option ℕ → ℕ
registered none = 0
registered (some pid) = 1

pub supervised_in-append :
    (s t : Thread) → supervised_in (s ++ t) ≡ supervised_in s + supervised_in t
supervised_in-append [] t = omega arith
supervised_in-append (a ∷ s) t = omega (arith, supervised_in-append s t)

pub supervised_by-append :
    (s t : List Thread) → supervised_by (s ++ t) ≡ supervised_by s + supervised_by t
supervised_by-append [] t = omega arith
supervised_by-append (a ∷ s) t = omega (arith, supervised_by-append s t)

pub supervised_by-tasks : (as' : List Action) → supervised_by (tasks as') ≡ supervised_in as'
supervised_by-tasks [] = refl
supervised_by-tasks (a ∷ as') = omega (arith, supervised_by-tasks as')

-- What an outcome adds and takes away agrees with the registration.
abbrev pub IsBalanced : ℕ → State → Outcome → Type 0
IsBalanced before s o =
    supervised_in o.next + supervised_in o.spawned + registered s.child_pid
    ≡ before + registered o.state.child_pid

module _ (args : List Text) (g : ℕ) (s : State) (after_ok : Thread)
    (after_err : StartError → Thread) (h : supervised_in after_ok ≡ 0)
    (k : (e : StartError) → supervised_in (after_err e) ≡ 0) where
  register_or_kill-IsBalanced :
      (pid : ℕ) → IsBalanced 0 s (register_or_kill pid args g s after_ok after_err)
  unfolding spawn_guard_violated
  register_or_kill-IsBalanced pid = ground (arith, k session_stopped)

  spawn_result-IsBalanced :
      (r : Result ℕ Text) → IsBalanced 0 s (spawn_result r args g s after_ok after_err)
  spawn_result-IsBalanced (ok pid) = register_or_kill-IsBalanced pid
  spawn_result-IsBalanced (err e) = omega (arith, k (spawn_failed e))

pub spawn_child-IsBalanced :
    (env : Env) (answer : Answer) (o : LaunchOptions) (path : Text) (g : ℕ) (s : State)
    (after_ok : Thread) (after_err : StartError → Thread)
    → supervised_in after_ok ≡ 0
    → ((e : StartError) → supervised_in (after_err e) ≡ 0)
    → IsBalanced 0 s (spawn_child env answer o path g s after_ok after_err)
unfolding spawn_child
spawn_child-IsBalanced env answer o path g s after_ok after_err h k = if_cases answer.binary_exists
  where
    if_cases :
        (exists : Bool)
        → IsBalanced 0 s (
            if exists
            then spawn_result answer.spawned (build_args o path) g s after_ok after_err
            else go_on s (after_err (binary_missing (bin_path env env.binary_path))))
    if_cases true =
        spawn_result-IsBalanced (build_args o path) g s after_ok after_err h k answer.spawned
    if_cases false = omega (arith, k (binary_missing (bin_path env env.binary_path)))

pub after_retry_error-none : (e : StartError) → supervised_in (after_retry_error e) ≡ 0
unfolding after_retry_error
after_retry_error-none session_stopped = refl
after_retry_error-none _ = refl

pub step_start_check-IsBalanced :
    (env : Env) (o : LaunchOptions) (s : State) → IsBalanced 0 s (step_start_check env o s)
unfolding step_start_check
step_start_check-IsBalanced env o s = ground arith

pub step_submit_input-IsBalanced :
    (value : Text) (kind : Option Text) (sent : Bool) (s : State)
    → IsBalanced 0 s (step_submit_input value kind sent s)
unfolding step_submit_input
step_submit_input-IsBalanced value kind sent s = ground arith

pub step_cleanup-IsBalanced :
    (g : ℕ) (e : StartError) (s : State) → IsBalanced 0 s (step_cleanup g e s)
unfolding step_cleanup
step_cleanup-IsBalanced g e s = ground arith

pub step_stop-IsBalanced : (s : State) → IsBalanced 0 s (step_stop s)
unfolding step_stop
step_stop-IsBalanced s = ground arith

pub step_process_exit-IsBalanced :
    (g : ℕ) (descr : Text) (s : State) → IsBalanced 0 s (step_process_exit g descr s)
unfolding step_process_exit
step_process_exit-IsBalanced g descr s = ground arith

pub step_mark_ready-IsBalanced :
    (env : Env) (g : ℕ) (s : State) → IsBalanced 0 s (step_mark_ready env g s)
unfolding step_mark_ready
step_mark_ready-IsBalanced env g s = ground arith

pub step_begin_ready_wait-IsBalanced :
    (answer : Answer) (bind : Text) (s : State)
    → IsBalanced 0 s (step_begin_ready_wait answer bind s)
unfolding step_begin_ready_wait
step_begin_ready_wait-IsBalanced answer bind s = ground arith

pub step_load_proxybridge-IsBalanced :
    (env : Env) (answer : Answer) (s : State) → IsBalanced 0 s (step_load_proxybridge env answer s)
unfolding step_load_proxybridge
step_load_proxybridge-IsBalanced env answer s = ground arith

pub step_ready_poll-IsBalanced :
    (answer : Answer) (dial : Text) (g : ℕ) (s : State)
    → IsBalanced 0 s (step_ready_poll answer dial g s)
unfolding step_ready_poll
step_ready_poll-IsBalanced answer dial g s = ground arith

pub step_captcha_poll-IsBalanced :
    (env : Env) (answer : Answer) (s : State) → IsBalanced 0 s (step_captcha_poll env answer s)
unfolding step_captcha_poll
step_captcha_poll-IsBalanced env answer s = ground arith

react-none : (prompt : Option DetectedPrompt) → supervised_in (react prompt) ≡ 0
unfolding react
react-none prompt = ground arith

pub step_log_line-IsBalanced :
    (env : Env) (text : Text) (s : State) → IsBalanced 0 s (step_log_line env text s)
unfolding step_log_line
step_log_line-IsBalanced env text s =
    let prompt = classify_prompt env.to_lowercase (trim text) in
    ground (
      arith,
      react-none prompt,
      supervised_in-append (react prompt) (check_ready_line (trim text) ∷ []),
    )

pub supervise_step-IsBalanced :
    (env : Env) (phase : Phase) (pid g : ℕ) (event : ChildEvent) (s : State)
    → IsBalanced 1 s (supervise_step env phase pid g event s)
unfolding supervise_step
supervise_step-IsBalanced env phase pid g (line l) s = omega arith
supervise_step-IsBalanced env phase pid g (partial l) s =
    omega (arith, react-none (classify_prompt env.to_lowercase l))
supervise_step-IsBalanced env phase pid g captcha_written s = omega arith
supervise_step-IsBalanced env watching pid g (stop_received true) s = omega arith
supervise_step-IsBalanced env watching pid g (stop_received false) s = omega arith
supervise_step-IsBalanced env in_grace pid g (stop_received b) s = omega arith
supervise_step-IsBalanced env killing pid g (stop_received b) s = omega arith
supervise_step-IsBalanced env watching pid g grace_expired s = omega arith
supervise_step-IsBalanced env in_grace pid g grace_expired s = omega arith
supervise_step-IsBalanced env killing pid g grace_expired s = omega arith
supervise_step-IsBalanced env phase pid g (exited descr) s = omega arith

pub step_child_gone-IsBalanced :
    (s : State) → registered s.child_pid ≡ 1 → IsBalanced 1 s (step_child_gone s)
unfolding step_child_gone
step_child_gone-IsBalanced s h = omega arith
