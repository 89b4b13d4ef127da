-- ===== src/Web/Bridge/Replay.antt =====
-- What the first page and later ones are sent.
use zju_connect_gui.Base.{
  ℕ, zero, suc, ◌+◌, ◌-◌, ◌≤◌, ◌≡◌, refl, ap, sym, ◌∙◌, List, [], ◌∷◌, ◌++◌, append_assoc,
  append-nil, true, false, leb, length, drop, arith, length-append, length-drop, leb→le, Bool-cases,
  inl, inr,
}
use zju_connect_gui.Web.Bridge.{
  pending_capacity, WebUiBridge, new_bridge, received, push_pending, emit_event, subscribe,
  emit_events,
}

module _ {ℓ} {Event : Type ℓ} where
  -- The latest of the events, as many as the buffer holds.
  abbrev pub latest : List Event → List Event
  latest events = drop (length events - pending_capacity) events

  drop-length : (xs ys : List Event) → drop (length xs) (xs ++ ys) ≡ ys
  drop-length [] ys = refl
  drop-length (x ∷ xs) ys = drop-length xs ys

  pub drop-append :
      (n : ℕ) (xs ys : List Event) → n ≤ length xs → drop n (xs ++ ys) ≡ drop n xs ++ ys
  drop-append zero xs ys h = refl
  drop-append (suc n) [] ys h = absurd (omega arith)
  drop-append (suc n) (x ∷ xs) ys h = drop-append n xs ys (omega arith)

  pub drop_one : (n : ℕ) (xs : List Event) → drop 1 (drop n xs) ≡ drop (suc n) xs
  drop_one zero xs = refl
  drop_one (suc n) [] = refl
  drop_one (suc n) (x ∷ xs) = drop_one n xs

  push_pending_full :
      (event : Event) (events : List Event)
      → leb pending_capacity (length events) ≡ true
      → push_pending event events ≡ drop 1 events ++ (event ∷ [])
  unfolding push_pending
  push_pending_full event events h = rw h refl

  pub push_pending_room :
      (event : Event) (events : List Event)
      → leb pending_capacity (length events) ≡ false
      → push_pending event events ≡ events ++ (event ∷ [])
  unfolding push_pending
  push_pending_room event events h = rw h refl

  -- Dropping from the longer list as many as the buffer cannot hold.
  latest-append :
      (n : ℕ) (event : Event) (seen : List Event)
      → length (seen ++ (event ∷ [])) - pending_capacity ≡ n
      → n ≤ length seen
      → latest (seen ++ (event ∷ [])) ≡ drop n seen ++ (event ∷ [])
  latest-append n event seen e h =
      ap (λ k. drop k (seen ++ (event ∷ []))) e ∙ drop-append n seen (event ∷ []) h

  push_pending-latest :
      (event : Event) (seen : List Event)
      → push_pending event (latest seen) ≡ latest (seen ++ (event ∷ []))
  push_pending-latest event seen =
      let k = length seen - pending_capacity in
      let kept = length-drop k seen in
      let longer = length-append seen (event ∷ []) in
      elim (Bool-cases (leb pending_capacity (length (latest seen)))) [
        | inl full ↦
            let enough = leb→le pending_capacity (length (latest seen)) full in
            push_pending_full event (latest seen) full
            ∙ (ap (λ es. es ++ (event ∷ [])) (drop_one k seen)
                ∙ sym (
                    latest-append (suc k) event seen (omega (arith, longer, kept, enough))
                      (omega (arith, kept, enough))))
        | inr room ↦
            push_pending_room event (latest seen) room
            ∙ sym (latest-append k event seen (room_lem room kept longer) (omega arith))
      ]
    where
      room_lem :
          leb pending_capacity (length (latest seen)) ≡ false
          → length (latest seen) ≡ length seen - (length seen - pending_capacity)
          → length (seen ++ (event ∷ [])) ≡ length seen + 1
          → length (seen ++ (event ∷ [])) - pending_capacity ≡ length seen - pending_capacity
      room_lem room kept longer = ground arith

  -- Only what was sent grows.
  pub sent-emit_events :
      (events : List Event) (bridge : WebUiBridge Event)
      → (emit_events events bridge).sent ≡ bridge.sent ++ events
  unfolding emit_events emit_event
  sent-emit_events [] bridge = sym (append-nil bridge.sent)
  sent-emit_events (event ∷ events) bridge =
      sent-emit_events events (emit_event event bridge)
      ∙ append_assoc bridge.sent (event ∷ []) events

  -- Before the first page the buffer holds the latest of the events.
  pub events-emit_events :
      (seen events : List Event) (bridge : WebUiBridge Event)
      → bridge.first_subscriber ≡ true
      → bridge.events ≡ latest seen
      → ((emit_events events bridge).first_subscriber ≡ true)
        × ((emit_events events bridge).events ≡ latest (seen ++ events))
  unfolding emit_events emit_event
  events-emit_events seen [] bridge waiting held =
      (waiting, held ∙ ap latest (sym (append-nil seen)))
  events-emit_events seen (event ∷ events) bridge waiting held =
      let (still, now) =
        events-emit_events (seen ++ (event ∷ [])) events (emit_event event bridge) waiting
          (rw waiting (ap (push_pending event) held ∙ push_pending-latest event seen)) in
      (still, now ∙ ap latest (append_assoc seen (event ∷ []) events))

  pub subscribe_first :
      (bridge : WebUiBridge Event)
      → bridge.first_subscriber ≡ true
      → ((subscribe bridge).0.sent ≡ bridge.sent ++ bridge.events)
        × ((subscribe bridge).1 ≡ length bridge.sent)
        × ((subscribe bridge).0.first_subscriber ≡ false)
  unfolding subscribe
  subscribe_first bridge waiting = (rw waiting refl, rw waiting refl, rw waiting refl)

  subscribe_later :
      (bridge : WebUiBridge Event)
      → bridge.first_subscriber ≡ false
      → subscribe bridge ≡ (bridge, length bridge.sent)
  unfolding subscribe
  subscribe_later bridge connected = rw connected refl

  -- The first page to connect is sent the latest events that were emitted before it, at most 256 of
  -- them, in order, and then every event that is emitted later, in order.
  pub subscribe_replay :
      (before after : List Event)
      → let (first, rx) = subscribe (emit_events before new_bridge) in
        (received rx (emit_events after first) ≡ latest before ++ after)
        × (first.first_subscriber ≡ false)
  unfolding received
  subscribe_replay before after =
      let bridge = emit_events before new_bridge in
      let (waiting, held) = events-emit_events [] before new_bridge refl refl in
      let (sent, at, connected) = subscribe_first bridge waiting in
      (
        ap (λ s. drop (subscribe bridge).1 s) (sent-emit_events after (subscribe bridge).0)
            ∙ (ap (λ s. drop (subscribe bridge).1 (s ++ after)) sent
                ∙ (ap (λ k. drop k (bridge.sent ++ bridge.events ++ after)) at
                    ∙ (ap (drop (length bridge.sent)) (append_assoc bridge.sent bridge.events after)
                        ∙ (drop-length bridge.sent (bridge.events ++ after)
                            ∙ ap (λ es. es ++ after) held)))),
        connected,
      )

  -- A page that connects after the first one is sent exactly the events that are emitted after it
  -- connected, whatever the bridge holds and has sent.
  subscribe_fresh :
      (bridge : WebUiBridge Event) (after : List Event)
      → bridge.first_subscriber ≡ false
      → let (second, rx) = subscribe bridge in received rx (emit_events after second) ≡ after
  unfolding received
  subscribe_fresh bridge after connected = rw (subscribe_later bridge connected) (
      ap (drop (length bridge.sent)) (sent-emit_events after bridge)
      ∙ drop-length bridge.sent after)
