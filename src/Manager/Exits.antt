-- ===== src/Manager/Exits.antt =====
-- What the exit of a child leads to.
use zju_connect_gui.Base.{ℕ, ◌≡◌, ◌≢◌, ◌⊎◌, true, false, [], none, some, arith}
use zju_connect_gui.Text.{Text}
use zju_connect_gui.Manager.State.{State, next_generation}
use zju_connect_gui.Manager.Exit.{
  ignore, emit_stopped, awaiting_blocked, reconnect, decide_exit_action,
}

-- A child of an older generation, while a session is active.
abbrev pub IsStale : State → ℕ → Type 0
IsStale s generation = (s.session_active ≡ true) × (generation ≢ s.retry_generation)

-- The child of the session that is active.
abbrev pub IsCurrent : State → ℕ → Type 0
IsCurrent s generation = (s.session_active ≡ true) × (generation ≡ s.retry_generation)

-- The exit is decided in one of four ways. A stale exit, in an active session of another
-- generation, changes nothing and does nothing. When no session is active, the exit is reported as
-- stopped, no session becomes active or ready, and the generation stays. An exit of the current
-- session while input is awaited ends the session and names what was awaited. Any other exit of
-- the current session keeps it active with its browser flag and its attempts, makes it not ready,
-- takes the next generation and asks for a reconnect.
pub decide_exit_action_cases :
    (s : State) (generation : ℕ)
    → let (t, effects, action) = decide_exit_action s generation in
      (IsStale s generation × (t ≡ s) × (effects ≡ []) × (action ≡ ignore))
      ⊎ ((s.session_active ≡ false)
          × (t.session_active ≡ false)
          × (t.ready ≡ false)
          × (t.retry_generation ≡ s.retry_generation)
          × (action ≡ emit_stopped))
      ⊎ (IsCurrent s generation
          × ((reason : Text) × (s.awaiting ≡ some reason) × (action ≡ awaiting_blocked reason))
          × (t.session_active ≡ false)
          × (t.awaiting ≡ none)
          × (t.ready ≡ false))
      ⊎ (IsCurrent s generation
          × (s.awaiting ≡ none)
          × (t.session_active ≡ true)
          × (t.ready ≡ false)
          × (t.eip_opened ≡ s.eip_opened)
          × (t.retry_attempt ≡ s.retry_attempt)
          × (t.retry_generation ≡ next_generation s.retry_generation)
          × (action ≡ reconnect))
unfolding decide_exit_action
decide_exit_action_cases s generation = ground arith
