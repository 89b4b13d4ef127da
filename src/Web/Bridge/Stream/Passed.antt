-- ===== src/Web/Bridge/Stream/Passed.antt =====
-- What the first page is passed, and when an event is lost.
use zju_connect_gui.Base.{ℕ, ◌≤◌, ◌<◌, ◌≡◌, ◌≢◌, ◌⊎◌, List, [], ◌∷◌, ◌++◌, length, drop}
use zju_connect_gui.Web.Bridge.{Receiver, received}
use zju_connect_gui.Web.Bridge.Stream.{Stream, Move, emits, takes}

module _ {ℓ} {Event : Type ℓ} where
  -- The events that are emitted among the moves.
  abbrev pub emitted : List (Move Event) → List Event
  emitted [] = []
  emitted (emits e ∷ rest) = e ∷ emitted rest
  emitted (takes ∷ rest) = emitted rest

  -- Either nothing was lost of the events `due`: what was passed on and what waits in the channel are
  -- these, in order; or a lag was logged, and they are more than the capacity.
  abbrev pub IsPassed : (capacity : ℕ) → (due : List Event) → Stream Event → Type ℓ
  IsPassed capacity due s =
      ((s.logged ≡ []) × (s.passed ++ received s.rx s.bridge ≡ due))
      ⊎ ((s.logged ≢ []) × (capacity < length due))

  -- The same for what was sent from the position `start` on.
  abbrev IsFrom : (capacity : ℕ) → (start : Receiver Event) → Stream Event → Type ℓ
  IsFrom capacity start s =
      (start ≤ s.rx)
      × (s.rx ≤ length s.bridge.sent)
      × IsPassed capacity (drop start s.bridge.sent) s
