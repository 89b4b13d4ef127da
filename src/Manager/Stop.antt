-- ===== src/Manager/Stop.antt =====
-- `stop`, and the reports of the state.
use Prim.Native.Nat.{◌/◌}
use zju_connect_gui.Base.{
  ℕ, List, [], ◌∷◌, ◌++◌, false, Option, none, some, is_some, if◌then◌else◌, ◌%◌, ◌^◌,
}
use zju_connect_gui.Text.{Text}
use zju_connect_gui.Manager.State.{
  State, Effect, ProxyState, stop_result, stopped, abort_taken, send_stop, emit, state_report,
  next_generation, cancel_captcha_poll,
}
use zju_connect_gui.Manager.Start.{stop_proxybridge}
use zju_connect_gui.Manager.Action.{Outcome, give_reply, effects_then, report}

abbrev stop_sent : Option ℕ → List Effect
stop_sent none = []
stop_sent (some channel) = send_stop channel ∷ []

-- The lock of `stop`, and what follows it: ProxyBridge first, then the tasks, then the child.
unfoldable pub step_stop : State → Outcome
unfolding cancel_captcha_poll stop_proxybridge
step_stop s =
    let ended = record s {
      retry_generation = next_generation s.retry_generation;
      session_active = false;
      retry_attempt = 0;
      ready = false;
      ready_wait_gen = 0;
      awaiting = none;
    } in
    let (s1, aborted) = cancel_captcha_poll ended in
    let taken = record s1 {
      stop_tx = none;
      retry_handle = none;
      readiness_handle = none;
      delayed_eip = none;
      proxybridge = none;
      proxybridge_handle = none;
      proxybridge_started = false;
    } in
    let torn_down =
      aborted
      ++ (stop_proxybridge s.proxybridge s.proxybridge_handle s.proxybridge_started
          ++ (abort_taken s.retry_handle
              ++ (abort_taken s.readiness_handle ++ abort_taken s.delayed_eip))) in
    if is_some s.child_pid
    then effects_then taken (torn_down ++ stop_sent s.stop_tx) (give_reply stop_result ∷ [])
    else effects_then taken torn_down (report stopped none ∷ give_reply stop_result ∷ [])

-- `emit_state_with_details`: the report reads the state under its own lock. `as_millis() as u64`.
unfoldable pub step_emit_state : ProxyState → Option Text → ℕ → ℕ → State → Outcome
step_emit_state state message attempt delay s =
    effects_then s
      (emit (
          state_report (record {
            state = state;
            message = message;
            awaiting = s.awaiting;
            running = s.session_active;
            retry_attempt = attempt;
            retry_delay_ms = delay / 1000000 % 2 ^ 64;
          }))
        ∷ [])
      []
