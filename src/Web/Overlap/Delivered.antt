-- ===== src/Web/Overlap/Delivered.antt =====
-- No event is lost to the first page, in whatever order the parts of the calls run.
use zju_connect_gui.Base.{
  ℕ, suc, ◌+◌, ◌≤◌, ◌≡◌, ◌⊎◌, inl, inr, refl, subst, List, [], ◌∷◌, false, some, length, arith,
  Occurs, first, further,
}
use zju_connect_gui.Web.Bridge.{pending_capacity, received}
use zju_connect_gui.Web.Overlap.{
  Part, buffers, sends, opens, replays, Overlap, initial, pick, take_part, take_parts, begun,
}
use zju_connect_gui.Web.Overlap.Sound.{
  IsSound, buffers-IsSound, send_picked-IsSound, open_first-IsSound, replay_opened-IsSound,
  take_part-IsSound, length-begun,
}
use zju_connect_gui.Web.Overlap.Kept.{
  true_ne_false, IsKept, buffers_new, take_part-IsKept, waits, flies, arrived,
}

module _ {ℓ} {Event : Type ℓ} where
  -- What is kept stays kept.
  take_parts-IsKept :
      (kept : Event) (n : ℕ) (parts : List (Part Event)) (w : Overlap Event)
      → length (begun parts) + n ≤ pending_capacity
      → IsSound n w
      → IsKept kept w
      → IsKept kept (take_parts parts w)
  unfolding take_parts
  take_parts-IsKept kept n [] w room h k = k
  take_parts-IsKept kept n (part ∷ parts) w room h k =
      let longer = length-begun part parts in
      take_parts-IsKept kept (length (begun (part ∷ [])) + n) parts (take_part part w)
        (omega (arith, longer, room)) (take_part-IsSound n part w (omega (arith, longer, room)) h)
        (take_part-IsKept kept n part w (omega (arith, longer, room)) h k)

  begun-IsKept :
      (event : Event) (n : ℕ) (parts : List (Part Event)) (w : Overlap Event)
      → length (begun parts) + n ≤ pending_capacity
      → IsSound n w
      → Occurs event (begun parts)
      → IsKept event (take_parts parts w)
  unfolding take_parts
  begun-IsKept event n [] w room h o = elim o [ ]
  begun-IsKept event n (buffers one ∷ parts) w room h (first e) =
      subst (λ x. IsKept x (take_parts parts (take_part (buffers one) w))) e
        (take_parts-IsKept one (suc n) parts (take_part (buffers one) w) (omega (arith, room))
          (buffers-IsSound one n w (omega (arith, room)) h)
          (buffers_new one n w (omega (arith, room)) h))
  begun-IsKept event n (buffers one ∷ parts) w room h (further o) =
      begun-IsKept event (suc n) parts (take_part (buffers one) w) (omega (arith, room))
        (buffers-IsSound one n w (omega (arith, room)) h) o
  begun-IsKept event n (sends place ∷ parts) w room h o =
      begun-IsKept event n parts (take_part (sends place) w) room
        (unfold take_part in send_picked-IsSound n w (pick place w.unsent) h) o
  begun-IsKept event n (opens ∷ parts) w room h o =
      begun-IsKept event n parts (take_part opens w) room
        (unfold take_part in open_first-IsSound n w w.rx h) o
  begun-IsKept event n (replays ∷ parts) w room h o =
      begun-IsKept event n parts (take_part replays w) room
        (unfold take_part in replay_opened-IsSound n w w.rx refl h) o

  abbrev pub IsDelivered : Event → Overlap Event → Type ℓ
  IsDelivered event w =
      Occurs event w.unsent ⊎ ((rx : ℕ) × (w.rx ≡ some rx) × Occurs event (received rx w.bridge))

  IsDelivered-IsKept :
      (event : Event) (w : Overlap Event)
      → w.bridge.first_subscriber ≡ false
      → IsKept event w
      → IsDelivered event w
  IsDelivered-IsKept event w connected (waits at here) = absurd (true_ne_false at connected)
  IsDelivered-IsKept event w connected (flies at here) = inl here
  IsDelivered-IsKept event w connected (arrived rx at listens here) = inr (rx, listens, here)

  -- In whatever order the parts of the calls run, as long as at most 256 events have begun: once the
  -- buffer was replayed to the first page, every event whose emission has begun, before or after that,
  -- has been sent to the receiver of that page since it was opened, or is still on its way.
  pub take_parts-IsDelivered :
      (event : Event) (parts : List (Part Event))
      → length (begun parts) ≤ pending_capacity
      → Occurs event (begun parts)
      → (take_parts parts initial).bridge.first_subscriber ≡ false
      → IsDelivered event (take_parts parts initial)
  take_parts-IsDelivered event parts room begins connected =
      IsDelivered-IsKept event (take_parts parts initial) connected (
        begun-IsKept event 0 parts initial (omega arith)
          (record { few = omega arith; past = tt; listens = inl refl }) begins)
