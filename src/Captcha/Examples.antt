-- ===== src/Captcha/Examples.antt =====
-- A file that appears after a round, is read too early, and is then complete.
use zju_connect_gui.Base.{ℕ, ◌≡◌, ◌≢◌, refl, List, [], ◌∷◌, ◌++◌, true, none, some, arith, is_some}
use zju_connect_gui.Captcha.{
  Observation, Bytes, poll, poll_for_stable_captcha, is_skipped, next_stable_count,
}
use zju_connect_gui.Captcha.Stable.{
  IsSeen, poll_for_stable_captcha_ends, poll_for_stable_captcha_sound,
}
use zju_connect_gui.Captcha.Stable.Rounds.{HasSize}

abbrev absent : Observation
absent = record { size = none; contents = none }

abbrev partial : Observation
partial = record { size = some 3; contents = some (1 ∷ []) }

abbrev image_bytes : Bytes
image_bytes = 1 ∷ 2 ∷ []

abbrev image : Observation
image = record { size = some 10; contents = some image_bytes }

abbrev rounds : List Observation
rounds = absent ∷ partial ∷ image ∷ image ∷ []

image-HasSize : HasSize image 10
image-HasSize = (refl, omega arith, omega arith)

poll_for_stable_captcha_ends_example :
    is_some (poll_for_stable_captcha ((absent ∷ partial ∷ []) ++ (image ∷ image ∷ []))) ≡ true
poll_for_stable_captcha_ends_example =
    poll_for_stable_captcha_ends 10 (absent ∷ partial ∷ []) image image 1 (2 ∷ []) [] image-HasSize
      image-HasSize refl

rounds-polled : poll_for_stable_captcha rounds ≡ some image_bytes
unfolding poll_for_stable_captcha poll is_skipped next_stable_count
rounds-polled = refl

poll_for_stable_captcha_sound_example :
    (before : List Observation) × (o : Observation) × (after : List Observation) × (size : ℕ)
    × (rounds ≡ before ++ (o ∷ after))
    × HasSize o size
    × (o.contents ≡ some image_bytes)
    × (image_bytes ≢ [])
    × IsSeen size before
poll_for_stable_captcha_sound_example =
    poll_for_stable_captcha_sound rounds image_bytes rounds-polled
