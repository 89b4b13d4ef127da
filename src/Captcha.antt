-- ===== src/Captcha.antt =====
-- src/backend/proxy/captcha.rs: the wait for a captcha file that is written completely. A round of
-- the poll sees the file's size and what reading it gives; the rounds up to the deadline are a list.
pub mod Stable
mod Examples
use zju_connect_gui.Base.{
  ℕ, suc, ◌*◌, List, [], ◌∷◌, Bool, true, false, ◌||◌, Option, none, some, ltb, ◌==◌, if◌then◌else◌,
}

abbrev pub Bytes : Type 0
Bytes = List ℕ

abbrev pub captcha_max_size : ℕ
captcha_max_size = 10 * 1024 * 1024

-- What a round sees: no size if the metadata cannot be read, no contents if the file cannot be.
pub record Observation : Type 0 where
  pub size : Option ℕ
  pub contents : Option Bytes

-- `size == 0 || size > CAPTCHA_MAX_SIZE`
unfoldable pub is_skipped : ℕ → Bool
is_skipped size = size == 0 || ltb captcha_max_size size

unfoldable pub next_stable_count : (size last_size stable_count : ℕ) → ℕ
next_stable_count size last_size stable_count = if size == last_size then suc stable_count else 0

-- The bytes that were read, if there are any; otherwise the loop goes on.
abbrev pub or_continue : Option Bytes → Option Bytes → Option Bytes
or_continue none rest = rest
or_continue (some []) rest = rest
or_continue (some (b ∷ bs)) rest = some (b ∷ bs)

unfoldable pub poll : (last_size stable_count : ℕ) → List Observation → Option Bytes
unfolding is_skipped next_stable_count
poll last_size stable_count [] = none
poll last_size stable_count (o ∷ rounds) = elim o.size [
  | none ↦ poll last_size stable_count rounds
  | some size ↦
      let stable = next_stable_count size last_size stable_count in
      let skipped = poll last_size stable_count rounds in
      let rest = poll size stable rounds in
      if is_skipped size
      then skipped
      else if ltb stable 1
      then rest
      else or_continue o.contents rest
]

unfoldable pub poll_for_stable_captcha : List Observation → Option Bytes
unfolding poll
poll_for_stable_captcha rounds = poll 0 0 rounds
