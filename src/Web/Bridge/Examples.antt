-- ===== src/Web/Bridge/Examples.antt =====
-- A page that reads from a channel of three events, and falls behind.
use zju_connect_gui.Base.{ℕ, ◌+◌, ◌-◌, List, [], ◌∷◌, length, drop, ltb, if◌then◌else◌}
use zju_connect_gui.Web.Bridge.Stream.{Received, nothing, value, lagged, Move, emits, takes}

abbrev first_of : List ℕ → Received ℕ
first_of [] = nothing
first_of (e ∷ rest) = value e

abbrev recv : List ℕ → ℕ → Received ℕ
recv sent rx =
    if ltb (rx + 3) (length sent) then lagged (length sent - (rx + 3)) else first_of (drop rx sent)

abbrev slow : List (Move ℕ)
slow = takes ∷ emits 3 ∷ emits 4 ∷ emits 5 ∷ emits 6 ∷ emits 7 ∷ takes ∷ takes ∷ []
