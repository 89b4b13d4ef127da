-- ===== src/Manager/Session/Examples.antt =====
-- The second lock of a start, as a step of the session.
use zju_connect_gui.Manager.State.{new_state}
use zju_connect_gui.Manager.Action.{start_reset}
use zju_connect_gui.Manager.Exec.{exec}
use zju_connect_gui.Manager.Examples.{env, answer}
use zju_connect_gui.Launch.Examples.{submitted}
use zju_connect_gui.Manager.Session.{SessionStep, activating}
use zju_connect_gui.Manager.Session.Steps.{session_of}
use zju_connect_gui.Manager.Session.Refines.{exec-step}

exec-step_example :
    SessionStep activating
      (session_of new_state)
      (session_of (exec env (start_reset submitted) answer new_state).state)
exec-step_example = exec-step env (start_reset submitted) answer new_state
