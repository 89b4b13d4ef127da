-- ===== src/Manager/Captcha.antt =====
-- `request_captcha` and its poll task.
use zju_connect_gui.Base.{
  ℕ, List, [], ◌∷◌, Bool, true, false, ◌&&◌, Option, none, some, ◌==◌, if◌then◌else◌,
}
use zju_connect_gui.Text.{codes}
use zju_connect_gui.Manager.State.{State, Env, awaiting, emit, need_captcha, show_window}
use zju_connect_gui.Manager.Input.{same_prompt}
use zju_connect_gui.Manager.Action.{
  Answer, Outcome, spawn_task, captcha_poll, captcha_poll_end, store_captcha_handle, done, go_on,
  effects_then, report,
}

-- `awaiting` becomes "captcha" even while a poll is running already.
unfoldable pub step_request_captcha : Answer → State → Outcome
step_request_captcha answer s =
    let waiting =
      if same_prompt s.awaiting (codes "captcha")
      then s
      else record s { awaiting = some (codes "captcha") } in
    let polling = record waiting {
      captcha_polling = true;
      captcha_poll_gen = s.retry_generation;
    } in
    if s.captcha_polling
    then done waiting
    else go_on polling
        (report awaiting none ∷ spawn_task captcha_poll ∷ store_captcha_handle answer.task ∷ [])

unfoldable owns_captcha_poll : State → Bool
owns_captcha_poll s = s.session_active && s.captcha_poll_gen == s.retry_generation

-- The poll is over; `captcha` holds the bytes of a file that is complete.
abbrev captcha_polled : Env → ℕ → Option (List ℕ) → State → Outcome
captcha_polled env now (some bytes) s =
    if owns_captcha_poll s
    then effects_then s (show_window ∷ emit (need_captcha (env.encode_base64 bytes) now) ∷ [])
        (captcha_poll_end ∷ [])
    else go_on s (captcha_poll_end ∷ [])
captcha_polled env now none s =
    if owns_captcha_poll s
    then go_on (record s { awaiting = none }) (report awaiting none ∷ captcha_poll_end ∷ [])
    else go_on s (captcha_poll_end ∷ [])

unfoldable pub step_captcha_poll : Env → Answer → State → Outcome
unfolding owns_captcha_poll
step_captcha_poll env answer s = captcha_polled env answer.now_ms answer.captcha s

unfoldable pub step_captcha_poll_end : State → Outcome
step_captcha_poll_end s =
    if s.captcha_poll_gen == s.retry_generation
    then done (record s { captcha_polling = false })
    else done s
