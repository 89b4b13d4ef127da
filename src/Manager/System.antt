-- ===== src/Manager/System.antt =====
-- The manager under every interleaving: any thread may take the next step, and the web handlers may
-- call it at any moment. An aborted task is not taken out, so that what holds here does not rest on
-- when an abort takes effect.
use zju_connect_gui.Base.{List, [], ◌∷◌, ◌++◌, Option, ◌≡◌}
use zju_connect_gui.Text.{Text}
use zju_connect_gui.Launch.{LaunchOptions}
use zju_connect_gui.Manager.State.{State, Env, Effect, new_state}
use zju_connect_gui.Manager.Action.{
  Action, Thread, Answer, Outcome, start_check, stop_session, submit_input,
}
use zju_connect_gui.Manager.Exec.{exec}

pub record System : Type 0 where
  pub state : State
  pub threads : List Thread
  pub trace : List Effect

-- The calls that come from outside.
pub data Call : Type 0 where
  call_start : LaunchOptions → Call
  call_stop : Call
  call_submit : Text → Option Text → Call

unfoldable pub entry : Call → Action
entry (call_start o) = start_check o
entry call_stop = stop_session
entry (call_submit value kind) = submit_input value kind

-- Each spawned task is a thread of its own.
abbrev pub tasks : List Action → List Thread
tasks [] = []
tasks (a ∷ as') = (a ∷ []) ∷ tasks as'

-- The system after the first action of one thread, which stands between `before` and `after`.
abbrev pub advance : List Effect → List Thread → Thread → List Thread → Outcome → System
advance trace before rest after o = record {
  state = o.state;
  threads = before ++ ((o.next ++ rest) ∷ (after ++ tasks o.spawned));
  trace = trace ++ o.effects;
}

pub data Step (env : Env) (w u : System) : Type 0 where
  call : (c : Call) → u ≡ record w { threads = (entry c ∷ []) ∷ w.threads } → Step env w u
  run :
      (before : List Thread) (a : Action) (rest : Thread) (after : List Thread) (answer : Answer)
      → w.threads ≡ before ++ ((a ∷ rest) ∷ after)
      → u ≡ advance w.trace before rest after (exec env a answer w.state)
      → Step env w u

pub data Reach (env : Env) (w : System) : System → Type 0 where
  here : Reach env w w
  next : {u v : System} → Reach env w u → Step env u v → Reach env w v

-- The system when the program starts.
abbrev pub initial : System
initial = record { state = new_state; threads = []; trace = [] }
