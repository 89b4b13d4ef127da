-- ===== src/Web/Overlap/Sound.antt =====
-- The buffer and the receiver of the first page are in order after every part.
use zju_connect_gui.Base.{
  ℕ, suc, ◌+◌, ◌≤◌, ◌<◌, ◌≡◌, ◌⊎◌, inl, inr, refl, subst, List, [], ◌∷◌, ◌++◌, true, false, Option,
  none, some, length, arith, Bool-cases, length-append,
}
use zju_connect_gui.Web.Bridge.{WebUiBridge, pending_capacity}
use zju_connect_gui.Web.Bridge.Replay.{push_pending_room}
use zju_connect_gui.Web.Overlap.{
  Part, buffers, sends, opens, replays, Overlap, pick, buffer_event, send_event, replay,
  send_picked, open_first, replay_opened, take_part, begun,
}

module _ {ℓ} {Event : Type ℓ} where
  abbrev pub FitsIn : Option ℕ → List Event → Type 0
  FitsIn none sent = Unit
  FitsIn (some rx) sent = rx ≤ length sent

  FitsIn-append :
      (rx : Option ℕ) (sent more : List Event) → FitsIn rx sent → FitsIn rx (sent ++ more)
  FitsIn-append none sent more h = tt
  FitsIn-append (some rx) sent more h = omega (arith, length-append sent more)

  -- At most `n` events are buffered, a receiver was opened in the past, and it was before a replay.
  pub record IsSound (n : ℕ) (w : Overlap Event) : Type ℓ where
    pub few : length w.bridge.events ≤ n
    pub past : FitsIn w.rx w.bridge.sent
    pub listens : (w.bridge.first_subscriber ≡ true) ⊎ ((rx : ℕ) × (w.rx ≡ some rx))

  length-one :
      (events : List Event) (event : Event) (n : ℕ)
      → length events ≤ n
      → length (events ++ (event ∷ [])) ≤ suc n
  length-one events event n h = omega (arith, length-append events (event ∷ []))

  pub buffered :
      (event : Event) (bridge : WebUiBridge Event) (n : ℕ)
      → length bridge.events ≤ n
      → n < pending_capacity
      → bridge.first_subscriber ≡ true
      → (buffer_event event bridge).events ≡ bridge.events ++ (event ∷ [])
  unfolding buffer_event
  buffered event bridge n few room at = rw at (push_pending_room event bridge.events (ground arith))

  unbuffered :
      (event : Event) (bridge : WebUiBridge Event)
      → bridge.first_subscriber ≡ false
      → (buffer_event event bridge).events ≡ bridge.events
  unfolding buffer_event
  unbuffered event bridge at = rw at refl

  pub buffers-IsSound :
      (event : Event) (n : ℕ) (w : Overlap Event)
      → n < pending_capacity
      → IsSound n w
      → IsSound (suc n) (take_part (buffers event) w)
  unfolding take_part
  buffers-IsSound event n w room h = record {
    few = elim (Bool-cases w.bridge.first_subscriber) [
      | inl at ↦
          rw (buffered event w.bridge n h.few room at) (length-one w.bridge.events event n h.few)
      | inr at ↦ rw (unbuffered event w.bridge at) (omega (arith, h.few))
    ];
    past = unfold buffer_event in h.past;
    listens = unfold buffer_event in h.listens;
  }

  pub send_picked-IsSound :
      (n : ℕ) (w : Overlap Event) (o : Option (Event × List Event))
      → IsSound n w
      → IsSound n (send_picked o w)
  unfolding send_event
  send_picked-IsSound n w none h = h
  send_picked-IsSound n w (some (event, rest)) h = record {
    few = h.few;
    past = FitsIn-append w.rx w.bridge.sent (event ∷ []) h.past;
    listens = h.listens;
  }

  pub open_first-IsSound :
      (n : ℕ) (w : Overlap Event) (rx : Option ℕ) → IsSound n w → IsSound n (open_first rx w)
  open_first-IsSound n w none h = record {
    few = h.few;
    past = omega arith;
    listens = inr (length w.bridge.sent, refl);
  }
  open_first-IsSound n w (some rx) h = h

  pub replay_opened-IsSound :
      (n : ℕ) (w : Overlap Event) (rx : Option ℕ)
      → w.rx ≡ rx
      → IsSound n w
      → IsSound n (replay_opened rx w)
  replay_opened-IsSound n w none e h = h
  replay_opened-IsSound n w (some rx) e h = elim (Bool-cases w.bridge.first_subscriber) [
    | inl at ↦ record {
      few = unfold replay in rw at (omega arith);
      past = unfold replay in rw at (FitsIn-append w.rx w.bridge.sent w.bridge.events h.past);
      listens = inr (rx, e);
    }
    | inr at ↦ record {
      few = unfold replay in rw at h.few;
      past = unfold replay in rw at h.past;
      listens = inr (rx, e);
    }
  ]

  pub take_part-IsSound :
      (n : ℕ) (part : Part Event) (w : Overlap Event)
      → length (begun (part ∷ [])) + n ≤ pending_capacity
      → IsSound n w
      → IsSound (length (begun (part ∷ [])) + n) (take_part part w)
  unfolding take_part
  take_part-IsSound n (buffers event) w room h =
      subst (λ m. IsSound m (take_part (buffers event) w)) (omega arith)
        (buffers-IsSound event n w (omega arith) h)
  take_part-IsSound n (sends place) w room h =
      subst (λ m. IsSound m (send_picked (pick place w.unsent) w)) (omega arith)
        (send_picked-IsSound n w (pick place w.unsent) h)
  take_part-IsSound n opens w room h =
      subst (λ m. IsSound m (open_first w.rx w)) (omega arith) (open_first-IsSound n w w.rx h)
  take_part-IsSound n replays w room h =
      subst (λ m. IsSound m (replay_opened w.rx w)) (omega arith)
        (replay_opened-IsSound n w w.rx refl h)

  pub length-begun :
      (part : Part Event) (parts : List (Part Event))
      → length (begun (part ∷ parts)) ≡ length (begun (part ∷ [])) + length (begun parts)
  length-begun (buffers event) parts = omega arith
  length-begun (sends place) parts = omega arith
  length-begun opens parts = omega arith
  length-begun replays parts = omega arith
