-- ===== src/Manager/Start.antt =====
-- `start`, `cleanup_failed_start`, `spawn_child` and its guard.
use zju_connect_gui.Base.{
  ℕ, List, [], ◌∷◌, ◌++◌, Bool, true, false, not, ◌&&◌, ◌||◌, Option, none, some, ◌==◌, is_some,
  if◌then◌else◌,
}
use zju_connect_gui.Base.Results.{Result, ok, err}
use zju_connect_gui.Text.{Text, codes}
use zju_connect_gui.Launch.{
  LaunchOptions, ValidationError, Platform, windows, linux, macos, normalize_launch_options,
  validate, build_args,
}
use zju_connect_gui.Proxybridge.{is_active}
use zju_connect_gui.Manager.State.{
  State, Env, Effect, StartError, start_result, already_running, binary_missing, validation,
  spawn_failed, needs_elevation, session_stopped, running, stopped, abort_taken, remove_file,
  spawn_process, kill_process, stop_bridge, next_generation, cancel_retry, cancel_delayed_eip,
  cancel_captcha_poll,
}
use zju_connect_gui.Manager.Action.{
  Thread, Answer, Outcome, start_reset, start_spawn, cleanup_failed_start, give_reply, spawn_task,
  supervise, watching, go_on, effects_then, report,
}

unfoldable pub requires_elevation : Platform → Bool → LaunchOptions → Bool
unfolding is_active
requires_elevation macos elevated o = false
requires_elevation windows elevated o = (o.tun_mode || is_active windows o) && not elevated
requires_elevation linux elevated o = (o.tun_mode || is_active linux o) && not elevated

-- The normal form, with the client data file below the application's folder.
unfoldable pub prepare_options : Env → LaunchOptions → LaunchOptions
prepare_options env options =
    let o = normalize_launch_options env.to_lowercase options in
    if env.paths.is_absolute o.client_data_file
    then o
    else record o { client_data_file = env.paths.join env.app_dir o.client_data_file }

abbrev pub refuse : State → StartError → Outcome
refuse s e = go_on s (give_reply (start_result (err e)) ∷ [])

-- The first lock: a registered child refuses; otherwise the generation is bumped.
unfoldable pub claim_session : LaunchOptions → State → Outcome
unfolding cancel_retry cancel_delayed_eip
claim_session o s =
    let bumped = record s { retry_generation = next_generation s.retry_generation } in
    let (s1, aborted_retry) = cancel_retry bumped in
    let (s2, aborted_eip) = cancel_delayed_eip s1 in
    if is_some s.child_pid
    then refuse s already_running
    else effects_then s2 (aborted_retry ++ aborted_eip) (start_reset o ∷ [])

abbrev pub check_validated :
    Env → LaunchOptions → State → Result (Unit {0}) ValidationError → Outcome
check_validated env o s (err e) = refuse s (validation e)
check_validated env o s (ok _) =
    if requires_elevation env.platform env.elevated o
    then refuse s needs_elevation
    else claim_session o s

-- `start` up to the end of its first lock.
unfoldable pub step_start_check : Env → LaunchOptions → State → Outcome
unfolding claim_session
step_start_check env options s =
    let o = prepare_options env options in check_validated env o s (validate o)

abbrev pub captcha_path_of : Env → Text
captcha_path_of env = env.paths.join env.app_dir (codes "gui_captcha.png")

-- The second lock of `start`, and the removal of an old captcha file.
unfoldable pub step_start_reset : Env → LaunchOptions → State → Outcome
unfolding cancel_captcha_poll
step_start_reset env o s =
    let captcha_path = captcha_path_of env in
    let reset = record s {
      captcha_path = captcha_path;
      eip_options = o;
      eip_opened = false;
      last_options = o;
      ready = false;
      ready_wait_gen = 0;
      session_active = true;
      retry_attempt = 0;
      awaiting = none;
    } in
    let (s1, aborted) = cancel_captcha_poll reset in
    effects_then s1 (aborted ++ remove_file captcha_path ∷ [])
      (start_spawn o captcha_path s.retry_generation ∷ [])

unfoldable cleanup_failed_start_should_skip : State → ℕ → Bool
cleanup_failed_start_should_skip s generation =
    not (s.retry_generation == generation) || is_some s.child_pid

-- `stop_proxybridge`: the library is stopped if it was started, and its log task is aborted.
abbrev bridge_stopped : Bool → Option ℕ → List Effect
bridge_stopped true (some bridge) = stop_bridge bridge ∷ []
bridge_stopped _ _ = []

unfoldable pub stop_proxybridge : Option ℕ → Option ℕ → Bool → List Effect
stop_proxybridge bridge handle started = bridge_stopped started bridge ++ abort_taken handle

unfoldable pub step_cleanup : ℕ → StartError → State → Outcome
unfolding cleanup_failed_start_should_skip cancel_captcha_poll stop_proxybridge
step_cleanup generation e s =
    let ended = record s { session_active = false; awaiting = none } in
    let (s1, aborted) = cancel_captcha_poll ended in
    let cleared = record s1 {
      child_pid = none;
      stdin_tx = none;
      stop_tx = none;
      proxybridge = none;
      proxybridge_handle = none;
      proxybridge_started = false;
    } in
    if cleanup_failed_start_should_skip s generation
    then refuse s e
    else effects_then cleared
        (aborted ++ stop_proxybridge s.proxybridge s.proxybridge_handle s.proxybridge_started)
        (report stopped none ∷ give_reply (start_result (err e)) ∷ [])

unfoldable pub spawn_guard_violated : State → ℕ → Bool
spawn_guard_violated s generation =
    not s.session_active || not (generation == s.retry_generation) || is_some s.child_pid

-- `spawn_child` for a caller that goes on with `after_ok`, or on an error with `after_err`.
abbrev pub register_or_kill : ℕ → List Text → ℕ → State → Thread → (StartError → Thread) → Outcome
register_or_kill pid args generation s after_ok after_err =
    if spawn_guard_violated s generation
    then effects_then s (spawn_process pid args ∷ kill_process pid ∷ []) (after_err session_stopped)
    else effects_then (record s { child_pid = some pid; stdin_tx = some pid; stop_tx = some pid })
        (spawn_process pid args ∷ [])
        (report running none ∷ spawn_task (supervise watching pid generation) ∷ after_ok)

abbrev pub spawn_result :
    Result ℕ Text → List Text → ℕ → State → Thread → (StartError → Thread) → Outcome
spawn_result (err e) args generation s after_ok after_err = go_on s (after_err (spawn_failed e))
spawn_result (ok pid) args generation s after_ok after_err =
    register_or_kill pid args generation s after_ok after_err

unfoldable pub binary_path_under : Env → Text
binary_path_under env =
    let bin = env.paths.join env.app_dir (codes "bin") in
    elim env.platform [
      | windows ↦ env.paths.join bin (codes "zju-connect.exe")
      | linux ↦ env.paths.join bin (codes "zju-connect")
      | macos ↦ env.paths.join bin (codes "zju-connect")
    ]

abbrev pub bin_path : Env → Option Text → Text
bin_path env (some path) = path
bin_path env none = binary_path_under env

unfoldable pub spawn_child :
    Env → Answer → LaunchOptions → Text → ℕ → State → Thread → (StartError → Thread) → Outcome
unfolding spawn_guard_violated
spawn_child env answer o captcha_path generation s after_ok after_err =
    if answer.binary_exists
    then spawn_result answer.spawned (build_args o captcha_path) generation s after_ok after_err
    else go_on s (after_err (binary_missing (bin_path env env.binary_path)))

unfoldable pub step_start_spawn : Env → Answer → LaunchOptions → Text → ℕ → State → Outcome
unfolding spawn_child
step_start_spawn env answer o captcha_path generation s =
    spawn_child env answer o captcha_path generation s (give_reply (start_result (ok tt)) ∷ [])
      (λ e. cleanup_failed_start generation e ∷ [])
