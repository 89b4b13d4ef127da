-- ===== src/Manager/Bridge.antt =====
-- `start_proxybridge`: the check, the loading outside the lock, and the registration.
use zju_connect_gui.Base.{ℕ, [], ◌∷◌, ◌++◌, true, Option, none, some, if◌then◌else◌}
use zju_connect_gui.Base.Results.{Result, ok, err}
use zju_connect_gui.Text.{Text, codes}
use zju_connect_gui.Launch.{LaunchOptions, Platform, windows, linux, macos}
use zju_connect_gui.Manager.State.{State, Env, abort, emit_log, start_bridge, stop_bridge}
use zju_connect_gui.Manager.Action.{
  Answer, Outcome, load_proxybridge, register_proxybridge, done, go_on, effects_then,
}

unfoldable pub install_hint : Platform → Text
install_hint windows =
    codes
      "The bundled WinDivert driver is installed automatically when missing. If this still fails, install ProxyBridge (includes the WinDivert driver) from https://interceptsuite.com/download/proxybridge."
install_hint linux =
    codes
      "Install ProxyBridge (libnetfilter-queue + root required) from https://interceptsuite.com/download/proxybridge, or bundle it next to this app."
install_hint macos = []

unfoldable pub step_start_proxybridge : LaunchOptions → State → Outcome
step_start_proxybridge o s =
    if s.proxybridge_started then done s else go_on s (load_proxybridge o ∷ [])

-- A failure aborts the log task and is logged; the session goes on without the bridge.
abbrev bridge_failed : Answer → Text → State → Outcome
bridge_failed answer message s = effects_then s (abort answer.task ∷ emit_log message ∷ []) []

abbrev start_loaded : Answer → ℕ → Option Text → State → Outcome
start_loaded answer bridge (some e) s =
    bridge_failed answer (codes "[proxybridge] failed to start: " ++ e) s
start_loaded answer bridge none s =
    effects_then s (start_bridge bridge ∷ []) (register_proxybridge bridge answer.task ∷ [])

-- The driver is needed on Windows only.
abbrev driver_problem : Platform → Option Text → Option Text
driver_problem windows problem = problem
driver_problem linux problem = none
driver_problem macos problem = none

abbrev check_driver : Env → Answer → ℕ → Option Text → State → Outcome
check_driver env answer bridge (some e) s =
    bridge_failed answer
      (codes "[proxybridge] WinDivert driver unavailable: "
        ++ (e ++ (codes " " ++ install_hint env.platform)))
      s
check_driver env answer bridge none s = start_loaded answer bridge answer.bridge_error s

abbrev check_loaded : Env → Answer → Result ℕ Text → State → Outcome
check_loaded env answer (err e) s =
    bridge_failed answer
      (codes "[proxybridge] failed to load ProxyBridge library: "
        ++ (e ++ (codes " " ++ install_hint env.platform)))
      s
check_loaded env answer (ok bridge) s =
    check_driver env answer bridge (driver_problem env.platform answer.driver_error) s

unfoldable pub step_load_proxybridge : Env → Answer → State → Outcome
step_load_proxybridge env answer s = check_loaded env answer answer.bridge s

unfoldable pub step_register_proxybridge : ℕ → ℕ → State → Outcome
step_register_proxybridge bridge task s =
    let registered = record s {
      proxybridge = some bridge;
      proxybridge_started = true;
      proxybridge_handle = some task;
    } in
    if s.session_active
    then effects_then registered (emit_log (codes "[proxybridge] started") ∷ []) []
    else effects_then s (stop_bridge bridge ∷ abort task ∷ []) []
