-- ===== src/Logs.antt =====
-- src/backend/proxy/logs.rs: the prompts in a line, and the stream of the child's output cut into
-- lines. Text is decoded by `String::from_utf8_lossy`, a parameter.
pub mod Lines
pub mod Pending
mod Examples
use zju_connect_gui.Base.{
  ℕ, zero, suc, ◌-◌, ◌*◌, List, [], ◌∷◌, ◌++◌, Bool, true, false, not, ◌&&◌, ◌||◌, Option, none,
  some, ltb, ◌==◌, length, drop, if◌then◌else◌,
}
use zju_connect_gui.Text.{Text, codes, trim, is_empty, contains, with_head}

pub data DetectedPrompt : Type 0 where
  sms callback captcha : DetectedPrompt

abbrev is_sms : (lower trimmed : Text) → Bool
is_sms lower trimmed =
    contains (codes "sms verification code") lower
    || contains (codes "sms code") lower
    || contains (codes "sms check code") lower
    || contains (codes "短信验证码") trimmed

abbrev is_captcha : (lower trimmed : Text) → Bool
is_captcha lower trimmed =
    contains (codes "graph check code") lower
    || contains (codes "graph code json") lower
    || contains (codes "rand code") lower
    || (contains (codes "captcha") lower && not (contains (codes "sms") lower))
    || contains (codes "图形验证码") trimmed

abbrev classify_trimmed : (lower trimmed : Text) → Option DetectedPrompt
classify_trimmed lower trimmed =
    if is_sms lower trimmed
    then some sms
    else if contains (codes "callback url") lower
    then some callback
    else if is_captcha lower trimmed
    then some captcha
    else none

unfoldable pub classify_prompt : (to_lowercase : Text → Text) → Text → Option DetectedPrompt
classify_prompt to_lowercase line =
    let trimmed = trim line in
    if is_empty trimmed then none else classify_trimmed (to_lowercase trimmed) trimmed

unfoldable pub is_vpn_started : Text → Bool
is_vpn_started line = contains (codes "VPN client started") (trim line)

unfoldable pub is_route_added : Text → Bool
is_route_added line = contains (codes "Add route to ") (trim line)

abbrev pub Bytes : Type 0
Bytes = List ℕ

abbrev pub max_pending_bytes : ℕ
max_pending_bytes = 64 * 1024

abbrev pub is_newline : ℕ → Bool
is_newline b = b == b'\r' || b == b'\n'

-- The bytes in front of the first newline, and those behind it.
unfoldable pub split_newline : Bytes → Option (Bytes × Bytes)
split_newline [] = none
split_newline (b ∷ bs) = if is_newline b then some ([], bs) else with_head b (split_newline bs)

-- The newlines that follow are consumed with it.
unfoldable pub skip_newlines : Bytes → Bytes
skip_newlines [] = []
skip_newlines (b ∷ bs) = if is_newline b then skip_newlines bs else b ∷ bs

-- The inner loop: the lines of the buffer in order, and what is left. Each round takes a byte at
-- least, so that as many rounds as there are bytes are enough.
abbrev pub add_line : Bytes → List Bytes × Bytes → List Bytes × Bytes
add_line line (lines, rest) = (line ∷ lines, rest)

unfoldable pub take_lines : (fuel : ℕ) → Bytes → List Bytes × Bytes
take_lines zero pending = ([], pending)
take_lines (suc fuel) pending = elim (split_newline pending) [
  | none ↦ ([], pending)
  | some parts ↦ add_line parts.0 (take_lines fuel (skip_newlines parts.1))
]

unfoldable pub drain_lines : Bytes → List Bytes × Bytes
unfolding take_lines
drain_lines pending = take_lines (length pending) pending

-- Only the tail is kept past the limit.
unfoldable pub cap_pending : Bytes → Bytes
cap_pending pending =
    if ltb max_pending_bytes (length pending)
    then drop (length pending - max_pending_bytes) pending
    else pending

-- What `consume_stream` passes to its two callbacks, in order.
pub data Delivery : Type 0 where
  on_line : Text → Delivery
  on_partial : Text → Delivery

module _ (decode : Bytes → Text) where
  abbrev pub deliver_lines : List Bytes → List Delivery
  deliver_lines [] = []
  deliver_lines (l ∷ ls) = on_line (decode l) ∷ deliver_lines ls

  abbrev pub unless_blank : (Text → Delivery) → Bytes → List Delivery
  unless_blank deliver pending =
      if is_empty (trim (decode pending)) then [] else deliver (decode pending) ∷ []

  -- One round of the outer loop: `n` bytes were read.
  unfoldable pub on_chunk : Bytes → Bytes → Bytes × List Delivery
  on_chunk pending chunk =
      let (lines, rest) = drain_lines (pending ++ chunk) in
      let kept = cap_pending rest in (kept, deliver_lines lines ++ unless_blank on_partial kept)

  -- The outer loop over the chunks that are read, up to the end of the stream or a read error.
  unfoldable pub consume_from : (at_end : Bool) → Bytes → List Bytes → List Delivery
  consume_from at_end pending [] = if at_end then unless_blank on_line pending else []
  consume_from at_end pending (chunk ∷ chunks) =
      let (kept, delivered) = on_chunk pending chunk in delivered ++ consume_from at_end kept chunks

  unfoldable pub consume_stream : (at_end : Bool) → List Bytes → List Delivery
  consume_stream at_end chunks = consume_from at_end [] chunks
