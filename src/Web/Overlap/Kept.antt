-- ===== src/Web/Overlap/Kept.antt =====
-- An event that has begun is kept by every part: it waits in the buffer, flies, or has arrived.
use zju_connect_gui.Base.{
  ℕ, zero, suc, ◌+◌, ◌≤◌, ◌<◌, ◌≡◌, ◌⊎◌, inl, inr, refl, sym, subst, ◌∙◌, List, [], ◌∷◌, ◌++◌, Bool,
  true, false, Option, none, some, length, drop, arith, Bool-cases, Occurs, first, further,
  Occurs-append_left, Occurs-append_right,
}
use zju_connect_gui.Web.Bridge.{pending_capacity, received}
use zju_connect_gui.Web.Bridge.Replay.{drop-append}
use zju_connect_gui.Web.Overlap.{
  Part, buffers, sends, opens, replays, Overlap, with_head, pick, buffer_event, send_event, replay,
  send_picked, open_first, replay_opened, take_part, begun,
}
use zju_connect_gui.Web.Overlap.Sound.{FitsIn, IsSound, buffered}

pub true_ne_false : {b : Bool} → b ≡ true → b ≡ false → ⊥
true_ne_false e f = cc

none_ne : {rx : ℕ} → none ≡ some rx → ⊥
none_ne e = cc

module _ {ℓ} {Event : Type ℓ} where
  -- Where an event is that has begun: in the buffer while no page has connected; after that, on its way
  -- or received.
  pub data IsKept (event : Event) (w : Overlap Event) : Type ℓ where
    waits : w.bridge.first_subscriber ≡ true → Occurs event w.bridge.events → IsKept event w
    flies : w.bridge.first_subscriber ≡ false → Occurs event w.unsent → IsKept event w
    arrived :
        (rx : ℕ)
        → w.bridge.first_subscriber ≡ false
        → w.rx ≡ some rx
        → Occurs event (received rx w.bridge)
        → IsKept event w

  buffers-IsKept :
      (event : Event) (n : ℕ) (w : Overlap Event) (kept : Event)
      → n < pending_capacity
      → IsSound n w
      → IsKept kept w
      → IsKept kept (take_part (buffers event) w)
  unfolding take_part
  buffers-IsKept event n w kept room h (waits at here) = waits (unfold buffer_event in at) (
      rw (buffered event w.bridge n h.few room at)
        (Occurs-append_left kept w.bridge.events (event ∷ []) here))
  buffers-IsKept event n w kept room h (flies at here) =
      flies (unfold buffer_event in at) (Occurs-append_left kept w.unsent (event ∷ []) here)
  buffers-IsKept event n w kept room h (arrived rx at listens here) =
      arrived rx (unfold buffer_event in at) listens (unfold buffer_event received in here)

  pub buffers_new :
      (event : Event) (n : ℕ) (w : Overlap Event)
      → n < pending_capacity
      → IsSound n w
      → IsKept event (take_part (buffers event) w)
  unfolding take_part
  buffers_new event n w room h = elim (Bool-cases w.bridge.first_subscriber) [
    | inl at ↦ waits (unfold buffer_event in at) (
        rw (buffered event w.bridge n h.few room at)
          (Occurs-append_right event w.bridge.events (event ∷ []) (first refl)))
    | inr at ↦
        flies (unfold buffer_event in at)
          (Occurs-append_right event w.unsent (event ∷ []) (first refl))
  ]

  -- An event that is picked from is the picked one or one of the others.
  abbrev IsParted : Event → Option (Event × List Event) → Type ℓ
  IsParted kept none = Unit
  IsParted kept (some (event, rest)) = (event ≡ kept) ⊎ Occurs kept rest

  with_head_here :
      (kept x : Event) (o : Option (Event × List Event)) → x ≡ kept → IsParted kept (with_head x o)
  with_head_here kept x none e = tt
  with_head_here kept x (some (event, rest)) e = inr (first e)

  with_head_later :
      (kept x : Event) (o : Option (Event × List Event))
      → IsParted kept o
      → IsParted kept (with_head x o)
  with_head_later kept x none h = tt
  with_head_later kept x (some (event, rest)) (inl e) = inl e
  with_head_later kept x (some (event, rest)) (inr h) = inr (further h)

  pick-IsParted :
      (kept : Event) (n : ℕ) (xs : List Event) → Occurs kept xs → IsParted kept (pick n xs)
  unfolding pick
  pick-IsParted kept zero _ (first {x} {xs} e) = inl e
  pick-IsParted kept zero _ (further {x} {xs} h) = inr h
  pick-IsParted kept (suc n) _ (first {x} {xs} e) = with_head_here kept x (pick n xs) e
  pick-IsParted kept (suc n) _ (further {x} {xs} h) =
      with_head_later kept x (pick n xs) (pick-IsParted kept n xs h)

  -- A receiver that was opened gets what is sent.
  received_more :
      (kept : Event) (rx : ℕ) (sent more : List Event)
      → rx ≤ length sent
      → Occurs kept (drop rx sent) ⊎ Occurs kept more
      → Occurs kept (drop rx (sent ++ more))
  received_more kept rx sent more h (inl old) =
      subst (Occurs kept) (sym (drop-append rx sent more h))
        (Occurs-append_left kept (drop rx sent) more old)
  received_more kept rx sent more h (inr new) =
      subst (Occurs kept) (sym (drop-append rx sent more h))
        (Occurs-append_right kept (drop rx sent) more new)

  send_picked-IsKept :
      (kept : Event) (n : ℕ) (w : Overlap Event) (o : Option (Event × List Event))
      → IsSound n w
      → (Occurs kept w.unsent → IsParted kept o)
      → IsKept kept w
      → IsKept kept (send_picked o w)
  unfolding send_event received
  send_picked-IsKept kept n w none h parted k = k
  send_picked-IsKept kept n w (some (event, rest)) h parted (waits at here) = waits at here
  send_picked-IsKept kept n w (some (event, rest)) h parted (arrived rx at listens here) =
      arrived rx at listens (
        received_more kept rx w.bridge.sent (event ∷ [])
          (subst (λ o. FitsIn o w.bridge.sent) listens h.past) (inl here))
  send_picked-IsKept kept n w (some (event, rest)) h parted (flies at here) = elim (parted here) [
    | inr stays ↦ flies at stays
    | inl e ↦ elim h.listens [
      | inl waiting ↦ absurd (true_ne_false waiting at)
      | inr (rx, listens) ↦ arrived rx at listens (
          received_more kept rx w.bridge.sent (event ∷ [])
            (subst (λ o. FitsIn o w.bridge.sent) listens h.past) (inr (first e)))
    ]
  ]

  open_first-IsKept :
      (kept : Event) (n : ℕ) (w : Overlap Event) (rx : Option ℕ)
      → w.rx ≡ rx
      → IsKept kept w
      → IsKept kept (open_first rx w)
  open_first-IsKept kept n w none e (waits at here) = waits at here
  open_first-IsKept kept n w none e (flies at here) = flies at here
  open_first-IsKept kept n w none e (arrived rx at listens here) =
      absurd (none_ne (sym e ∙ listens))
  open_first-IsKept kept n w (some rx) e k = k

  replay_opened-IsKept :
      (kept : Event) (n : ℕ) (w : Overlap Event) (rx : Option ℕ)
      → w.rx ≡ rx
      → IsSound n w
      → IsKept kept w
      → IsKept kept (replay_opened rx w)
  unfolding replay received
  replay_opened-IsKept kept n w none e h k = k
  replay_opened-IsKept kept n w (some rx) e h (waits at here) = arrived rx (rw at refl) e (
      rw at (
        received_more kept rx w.bridge.sent w.bridge.events
          (subst (λ o. FitsIn o w.bridge.sent) e h.past) (inr here)))
  replay_opened-IsKept kept n w (some rx) e h (flies at here) = flies (rw at refl) here
  replay_opened-IsKept kept n w (some rx) e h (arrived rx1 at listens here) =
      arrived rx1 (rw at refl) listens (rw at here)

  pub take_part-IsKept :
      (kept : Event) (n : ℕ) (part : Part Event) (w : Overlap Event)
      → length (begun (part ∷ [])) + n ≤ pending_capacity
      → IsSound n w
      → IsKept kept w
      → IsKept kept (take_part part w)
  unfolding take_part
  take_part-IsKept kept n (buffers event) w room h k =
      buffers-IsKept event n w kept (omega arith) h k
  take_part-IsKept kept n (sends place) w room h k =
      send_picked-IsKept kept n w (pick place w.unsent) h (pick-IsParted kept place w.unsent) k
  take_part-IsKept kept n opens w room h k = open_first-IsKept kept n w w.rx refl k
  take_part-IsKept kept n replays w room h k = replay_opened-IsKept kept n w w.rx refl h k
