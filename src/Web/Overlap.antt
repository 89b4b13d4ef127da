-- ===== src/Web/Overlap.antt =====
-- src/web/bridge.rs: `emit_event` and the first `subscribe` cut at the lock of the buffer, in any order of
-- their parts. `emit_event` buffers under the lock and sends after it; `subscribe` opens its receiver
-- before it takes the lock.
pub mod Sound
pub mod Kept
pub mod Delivered
mod Examples
use zju_connect_gui.Base.{
  ℕ, zero, suc, List, [], ◌∷◌, ◌++◌, Bool, true, false, Option, none, some, length, drop,
  if◌then◌else◌,
}
use zju_connect_gui.Web.Bridge.{WebUiBridge, new_bridge, push_pending, received}

module _ {ℓ} (Event : Type ℓ) where
  -- The parts: an event is buffered; the event at a place among those that are not yet sent is sent;
  -- the first page's receiver is opened; and the buffer is replayed.
  pub data Part : Type ℓ where
    buffers : Event → Part
    sends : (place : ℕ) → Part
    opens replays : Part

  -- The bridge, the events between their two parts, and the receiver of the first page.
  pub record Overlap : Type ℓ where
    pub bridge : WebUiBridge Event
    pub unsent : List Event
    pub rx : Option ℕ

module _ {ℓ} {Event : Type ℓ} where
  abbrev pub initial : Overlap Event
  initial = record { bridge = new_bridge; unsent = []; rx = none }

  -- The event at a place and the others, if there is one.
  abbrev pub with_head : Event → Option (Event × List Event) → Option (Event × List Event)
  with_head x none = none
  with_head x (some (event, rest)) = some (event, x ∷ rest)

  unfoldable pub pick : ℕ → List Event → Option (Event × List Event)
  pick n [] = none
  pick zero (x ∷ xs) = some (x, xs)
  pick (suc n) (x ∷ xs) = with_head x (pick n xs)

  unfoldable pub buffer_event : Event → WebUiBridge Event → WebUiBridge Event
  unfolding push_pending
  buffer_event event bridge = record bridge {
    events = if bridge.first_subscriber then push_pending event bridge.events else bridge.events;
  }

  unfoldable pub send_event : Event → WebUiBridge Event → WebUiBridge Event
  send_event event bridge = record bridge { sent = bridge.sent ++ (event ∷ []) }

  unfoldable pub replay : WebUiBridge Event → WebUiBridge Event
  replay bridge =
      if bridge.first_subscriber
      then record bridge {
        first_subscriber = false;
        sent = bridge.sent ++ bridge.events;
        events = [];
      }
      else bridge

  abbrev pub send_picked : Option (Event × List Event) → Overlap Event → Overlap Event
  send_picked none w = w
  send_picked (some (event, rest)) w = record w {
    bridge = send_event event w.bridge;
    unsent = rest;
  }

  abbrev pub open_first : Option ℕ → Overlap Event → Overlap Event
  open_first none w = record w { rx = some (length w.bridge.sent) }
  open_first (some rx) w = w

  -- The replay follows the opening in the same call.
  abbrev pub replay_opened : Option ℕ → Overlap Event → Overlap Event
  replay_opened none w = w
  replay_opened (some rx) w = record w { bridge = replay w.bridge }

  unfoldable pub take_part : Part Event → Overlap Event → Overlap Event
  unfolding buffer_event pick send_event replay
  take_part (buffers event) w = record w {
    bridge = buffer_event event w.bridge;
    unsent = w.unsent ++ (event ∷ []);
  }
  take_part (sends place) w = send_picked (pick place w.unsent) w
  take_part opens w = open_first w.rx w
  take_part replays w = replay_opened w.rx w

  unfoldable pub take_parts : List (Part Event) → Overlap Event → Overlap Event
  unfolding take_part
  take_parts [] w = w
  take_parts (part ∷ parts) w = take_parts parts (take_part part w)

  -- The events of the calls that have begun, in order.
  abbrev pub begun : List (Part Event) → List Event
  begun [] = []
  begun (buffers event ∷ parts) = event ∷ begun parts
  begun (_ ∷ parts) = begun parts
