-- ===== src/Manager/Alone.antt =====
-- One thread of the manager run alone, with the same answers throughout: what the calls do when
-- nothing comes between.
use zju_connect_gui.Base.{ℕ, zero, suc, List, [], ◌∷◌, ◌++◌}
use zju_connect_gui.Text.{Text}
use zju_connect_gui.Manager.State.{State, Env, Effect, spawn_process}
use zju_connect_gui.Manager.Action.{Action, Thread, Answer}
use zju_connect_gui.Manager.Exec.{exec}

-- `left` is what the rounds did not reach: none where they are enough.
pub record Alone : Type 0 where
  pub state : State
  pub effects : List Effect
  pub spawned : List Action
  pub left : Thread

abbrev pub behind : List Effect → List Action → Alone → Alone
behind effects spawned a = record a {
  effects = effects ++ a.effects;
  spawned = spawned ++ a.spawned;
}

unfoldable pub run_alone : (rounds : ℕ) → Env → Answer → Thread → State → Alone
run_alone rounds env answer [] s = record { state = s; effects = []; spawned = []; left = [] }
run_alone zero env answer (a ∷ rest) s = record {
  state = s;
  effects = [];
  spawned = [];
  left = a ∷ rest;
}
run_alone (suc rounds) env answer (a ∷ rest) s =
    let o = exec env a answer s in
    behind o.effects o.spawned (run_alone rounds env answer (o.next ++ rest) o.state)

-- The processes that the effects start, with their arguments.
abbrev pub processes : List Effect → List (ℕ × List Text)
processes [] = []
processes (spawn_process pid args ∷ effects) = (pid, args) ∷ processes effects
processes (_ ∷ effects) = processes effects
