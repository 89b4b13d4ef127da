-- ===== src/Manager/Ready.antt =====
-- Readiness: the wait for the HTTP proxy, the switch to connected, and the delayed EIP page.
use zju_connect_gui.Base.{
  ℕ, [], ◌∷◌, ◌++◌, Bool, true, not, ◌&&◌, ◌||◌, Option, none, some, ◌==◌, ltb, if◌then◌else◌,
}
use zju_connect_gui.Text.{Text, codes, is_empty}
use zju_connect_gui.Launch.{LaunchOptions}
use zju_connect_gui.Readiness.{readiness_dial_address}
use zju_connect_gui.Retry.{Duration, from_secs}
use zju_connect_gui.Proxybridge.{is_active}
use zju_connect_gui.Manager.State.{
  State, Env, connected, emit_log, open_browser, cancel_readiness, cancel_delayed_eip,
}
use zju_connect_gui.Manager.Action.{
  Action, Thread, Answer, Outcome, spawn_task, store_readiness_handle, ready_poll, mark_ready,
  schedule_eip, store_eip_handle, eip_wake, eip_open, eip_mark, start_proxybridge, done, go_on,
  effects_then, report,
}

unfoldable pub step_begin_ready_wait : Answer → Text → State → Outcome
step_begin_ready_wait answer bind s =
    let generation = s.retry_generation in
    let waiting = record s { ready_wait_gen = generation } in
    let dial = readiness_dial_address bind in
    if not s.session_active || s.ready || s.ready_wait_gen == generation
    then done s
    else if is_empty dial
    then go_on waiting (mark_ready generation ∷ [])
    else go_on waiting
        (spawn_task (ready_poll dial generation) ∷ store_readiness_handle answer.task ∷ [])

unfoldable pub step_store_readiness_handle : ℕ → State → Outcome
unfolding cancel_readiness
step_store_readiness_handle task s =
    let (s1, aborted) = cancel_readiness s in
    effects_then (record s1 { readiness_handle = some task }) aborted []

unfoldable should_continue_ready_wait : State → ℕ → Bool
should_continue_ready_wait s generation =
    s.session_active
    && not s.ready
    && s.retry_generation == generation
    && s.ready_wait_gen == generation

-- One round of the poll loop.
unfoldable pub step_ready_poll : Answer → Text → ℕ → State → Outcome
unfolding should_continue_ready_wait
step_ready_poll answer dial generation s =
    if should_continue_ready_wait s generation
    then if answer.tcp_connected
      then go_on s (mark_ready generation ∷ [])
      else go_on s (ready_poll dial generation ∷ [])
    else done s

abbrev thread_if : Bool → Action → Thread
thread_if test action = if test then action ∷ [] else []

unfoldable pub step_mark_ready : Env → ℕ → State → Outcome
step_mark_ready env generation s =
    let marked = record s { ready = true; ready_wait_gen = 0; retry_attempt = 0 } in
    let opens = s.eip_options.eip_auto_open && not s.eip_opened in
    let bridges = is_active env.platform s.eip_options in
    if not (generation == s.retry_generation) || not s.session_active || s.ready
    then done s
    else go_on marked (
        report connected (some (codes "已启动"))
        ∷ (thread_if opens (schedule_eip generation)
            ++ thread_if bridges (start_proxybridge s.eip_options)))

-- The pause before the page opens.
unfoldable clamp_eip_open_delay : Duration → Duration
clamp_eip_open_delay delay =
    if ltb delay (from_secs 3)
    then from_secs 3
    else if ltb (from_secs 5) delay
    then from_secs 5
    else delay

unfoldable pub step_schedule_eip : Answer → ℕ → State → Outcome
step_schedule_eip answer generation s =
    go_on s (spawn_task (eip_wake generation s.eip_options) ∷ store_eip_handle answer.task ∷ [])

unfoldable pub step_store_eip_handle : ℕ → State → Outcome
unfolding cancel_delayed_eip
step_store_eip_handle task s =
    let (s1, aborted) = cancel_delayed_eip s in
    effects_then (record s1 { delayed_eip = some task }) aborted []

unfoldable eip_valid : State → ℕ → Bool
eip_valid s generation = s.retry_generation == generation && s.session_active && s.ready

-- The task after its pause: the check under the lock, the opener, and the mark under the lock.
unfoldable pub step_eip_wake : ℕ → LaunchOptions → State → Outcome
unfolding eip_valid
step_eip_wake generation o s =
    if eip_valid s generation then go_on s (eip_open generation o ∷ []) else done s

abbrev eip_opened_or : Option Text → ℕ → LaunchOptions → State → Outcome
eip_opened_or (some e) generation o s =
    effects_then s (emit_log (codes "[eip] failed to open EIP URL: " ++ e) ∷ []) []
eip_opened_or none generation o s = effects_then s (open_browser o ∷ []) (eip_mark generation ∷ [])

unfoldable pub step_eip_open : Answer → ℕ → LaunchOptions → State → Outcome
step_eip_open answer generation o s = eip_opened_or answer.eip_error generation o s

unfoldable pub step_eip_mark : ℕ → State → Outcome
unfolding eip_valid
step_eip_mark generation s =
    if eip_valid s generation then done (record s { eip_opened = true }) else done s
