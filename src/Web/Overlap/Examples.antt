-- ===== src/Web/Overlap/Examples.antt =====
-- An event whose emission overlaps the first subscription.
use zju_connect_gui.Base.{ℕ, ◌≡◌, refl, arith, List, [], ◌∷◌, false, first, further}
use zju_connect_gui.Web.Bridge.{received, push_pending}
use zju_connect_gui.Web.Overlap.{
  Part, buffers, sends, opens, replays, initial, take_parts, pick, replay, send_event, buffer_event,
}
use zju_connect_gui.Web.Overlap.Delivered.{IsDelivered, take_parts-IsDelivered}

abbrev parts : List (Part ℕ)
parts = buffers 7 ∷ opens ∷ replays ∷ buffers 8 ∷ sends 1 ∷ sends 0 ∷ []

connected : (take_parts parts initial).bridge.first_subscriber ≡ false
unfolding take_parts buffer_event push_pending pick replay send_event
connected = refl

-- The first page receives event 7 twice.
twice : received 0 (take_parts parts initial).bridge ≡ 7 ∷ 8 ∷ 7 ∷ []
unfolding take_parts buffer_event push_pending pick replay send_event received
twice = refl

take_parts-IsDelivered_example : IsDelivered 8 (take_parts parts initial)
take_parts-IsDelivered_example =
    take_parts-IsDelivered 8 parts (omega arith) (further (first refl)) connected
