-- ===== src/Web/Bridge/Stream.antt =====
-- src/web/server.rs, `sse_handler`: the stream of events to one page, read from the broadcast channel of
-- the bridge. The channel is a library: `recv` is its answer to a receiver, over what was sent and the
-- position of the receiver. It holds the latest `capacity` events.
pub mod Passed
use zju_connect_gui.Base.{ℕ, ◌+◌, ◌≤◌, ◌<◌, ◌≡◌, List, [], ◌∷◌, ◌++◌, length, drop}
use zju_connect_gui.Web.Bridge.{WebUiBridge, Receiver, emit_event, subscribe}

-- The answer of `recv`. A receiver that has lagged is moved on by as many events as it has missed.
pub data Received {ℓ} (Event : Type ℓ) : Type ℓ where
  nothing : Received Event
  value : Event → Received Event
  lagged : (missed : ℕ) → Received Event

module _ {ℓ} (Event : Type ℓ) where
  -- What the channel documents: a receiver whose next event is still held gets it, one that has had all
  -- of them waits, and only one that is behind by more than the capacity lags, but not past the end.
  pub record IsBroadcast (capacity : ℕ) (recv : List Event → Receiver Event → Received Event)
      : Type ℓ where
    pub gives_value :
        (sent : List Event) (rx : Receiver Event) (e : Event) (rest : List Event)
        → drop rx sent ≡ e ∷ rest
        → length sent ≤ rx + capacity
        → recv sent rx ≡ value e
    pub waits :
        (sent : List Event) (rx : Receiver Event) → drop rx sent ≡ [] → recv sent rx ≡ nothing
    pub lags :
        (sent : List Event) (rx : Receiver Event)
        → rx + capacity < length sent
        → (missed : ℕ) × (recv sent rx ≡ lagged missed) × (rx + missed ≤ length sent)

  -- The page's stream: where its receiver stands, what was passed on, and the lags that were logged.
  pub record Stream : Type ℓ where
    pub bridge : WebUiBridge Event
    pub rx : Receiver Event
    pub passed : List Event
    pub logged : List ℕ

  -- The manager emits an event, or the stream takes one from the channel.
  pub data Move : Type ℓ where
    emits : Event → Move
    takes : Move

module _ {ℓ} {Event : Type ℓ} where
  -- The closure of `filter_map`: a lag is logged and passes nothing on.
  unfoldable pub filter_received : Received Event → Stream Event → Stream Event
  filter_received nothing s = s
  filter_received (value e) s = record s { rx = s.rx + 1; passed = s.passed ++ (e ∷ []) }
  filter_received (lagged missed) s = record s {
    rx = s.rx + missed;
    logged = s.logged ++ (missed ∷ []);
  }

  -- `sse_handler` up to the stream.
  unfoldable pub sse_handler : WebUiBridge Event → Stream Event
  unfolding subscribe
  sse_handler bridge =
      let (subscribed, rx) = subscribe bridge in
      record { bridge = subscribed; rx = rx; passed = []; logged = [] }

  module _ (recv : List Event → Receiver Event → Received Event) where
    unfoldable pub moves : List (Move Event) → Stream Event → Stream Event
    unfolding filter_received emit_event
    moves [] s = s
    moves (emits e ∷ rest) s = moves rest (record s { bridge = emit_event e s.bridge })
    moves (takes ∷ rest) s = moves rest (filter_received (recv s.bridge.sent s.rx) s)
