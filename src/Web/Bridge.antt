-- ===== src/Web/Bridge.antt =====
-- src/web/bridge.rs: the events that are broadcast to the page, and the buffer of those before the
-- first page is connected. An event is already in the form that is sent. Of the broadcast
-- channel the bridge has the history of what was sent; a receiver is the position where it was opened.
-- What the channel still holds, and gives a receiver that is slow, is said in Web/Bridge/Stream.
pub mod Replay
pub mod Stream
mod Examples
use zju_connect_gui.Base.{
  ℕ, List, [], ◌∷◌, ◌++◌, Bool, true, false, leb, length, drop, if◌then◌else◌,
}

abbrev pub pending_capacity : ℕ
pending_capacity = 256

module _ {ℓ} (Event : Type ℓ) where
  pub record WebUiBridge : Type ℓ where
    pub sent : List Event
    pub first_subscriber : Bool
    pub events : List Event

  abbrev pub Receiver : Type 0
  Receiver = ℕ

module _ {ℓ} {Event : Type ℓ} where
  -- `WebUiBridge::new`
  abbrev pub new_bridge : WebUiBridge Event
  new_bridge = record { sent = []; first_subscriber = true; events = [] }

  -- What a receiver has been sent since it was opened.
  unfoldable pub received : Receiver Event → WebUiBridge Event → List Event
  received rx bridge = drop rx bridge.sent

  unfoldable pub push_pending : Event → List Event → List Event
  push_pending event events =
      (if leb pending_capacity (length events) then drop 1 events else events) ++ (event ∷ [])

  unfoldable pub emit_event : Event → WebUiBridge Event → WebUiBridge Event
  unfolding push_pending
  emit_event event bridge = record bridge {
    events = if bridge.first_subscriber then push_pending event bridge.events else bridge.events;
    sent = bridge.sent ++ (event ∷ []);
  }

  unfoldable pub subscribe : WebUiBridge Event → WebUiBridge Event × Receiver Event
  subscribe bridge =
      let rx = length bridge.sent in
      if bridge.first_subscriber
      then (
        record bridge {
          first_subscriber = false;
          sent = bridge.sent ++ bridge.events;
          events = [];
        },
        rx,
      )
      else (bridge, rx)

  unfoldable pub emit_events : List Event → WebUiBridge Event → WebUiBridge Event
  unfolding emit_event
  emit_events [] bridge = bridge
  emit_events (event ∷ events) bridge = emit_events events (emit_event event bridge)
