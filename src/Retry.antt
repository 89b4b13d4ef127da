-- ===== src/Retry.antt =====
-- src/backend/proxy/retry.rs: the delay before a reconnect, its jitter and its text.
-- A `Duration` is its number of nanoseconds; its maximum is 2^64 - 1 s and 999999999 ns.
pub mod Bounds
pub mod Growth
mod Examples
use Prim.Native.Nat.{min}
use zju_connect_gui.Base.{
  ℕ, zero, suc, ◌+◌, ◌-◌, ◌*◌, ◌/◌, ◌%◌, ◌^◌, List, ◌++◌, true, false, ltb, leb, ◌==◌,
  if◌then◌else◌,
}
use zju_connect_gui.Text.{Text, codes}
use zju_connect_gui.Text.Decimal.{to_decimal}

abbrev pub Duration : Type 0
Duration = ℕ

abbrev pub from_secs : ℕ → Duration
from_secs s = s * 1000000000

abbrev pub from_millis : ℕ → Duration
from_millis ms = ms * 1000000

abbrev pub max_duration : Duration
max_duration = from_secs (2 ^ 64 - 1) + 999999999

abbrev saturating_mul : Duration → ℕ → Duration
saturating_mul d k = min (d * k) max_duration

abbrev default_retry_base_delay : Duration
default_retry_base_delay = from_secs 1

abbrev default_retry_max_delay : Duration
default_retry_max_delay = from_secs 60

abbrev pub retry_floor : Duration
retry_floor = from_secs 1

-- `fn(Duration, u32) -> Duration`
abbrev pub JitterFn : Type 0
JitterFn = Duration → ℕ → Duration

-- The base delay and the cap in force: zero stands for the built-in value.
abbrev pub start_delay : Duration → Duration
start_delay base = if base == 0 then retry_floor else base

abbrev pub delay_cap : Duration → Duration
delay_cap max = if max == 0 then default_retry_max_delay else max

-- One round of the loop: twice the delay, at most the cap.
abbrev pub double_within : Duration → Duration → Duration
double_within cap delay =
    let doubled = saturating_mul delay 2 in if ltb cap doubled then cap else doubled

-- The loop `while i < attempt`, by the rounds left; it breaks at the cap.
unfoldable pub grow : ℕ → Duration → Duration → Duration
grow zero cap delay = delay
grow (suc rounds) cap delay = elim (leb cap delay) [
  | true ↦ delay
  | false ↦ grow rounds cap (double_within cap delay)
]

-- The floor first, the cap last.
unfoldable pub clamp_delay : Duration → Duration → Duration
clamp_delay cap delay =
    let raised = if ltb delay retry_floor then retry_floor else delay in
    if ltb cap raised then cap else raised

unfoldable pub next_retry_delay : ℕ → Duration → Duration → JitterFn → Duration
unfolding grow clamp_delay
next_retry_delay attempt base max jitter =
    let cap = delay_cap max in
    clamp_delay cap (jitter (grow (attempt - 1) cap (start_delay base)) attempt)

-- `spread_of` is `(nanos as f64 * JITTER_FRACTION) as i128`, and `draw` the generator's answer: it
-- stands for `gen_range(-spread..=spread)`, shifted up by the spread.
unfoldable pub default_jitter : (spread_of : ℕ → ℕ) (draw : ℕ → ℕ) → JitterFn
default_jitter spread_of draw delay attempt =
    let spread = spread_of delay in
    if delay == 0
    then retry_floor
    else if spread == 0
    then delay
    else if leb (delay + draw spread) spread
    then retry_floor
    else (delay + draw spread - spread) % 2 ^ 64

unfoldable pub no_jitter : JitterFn
no_jitter delay attempt = delay

-- `round_secs` is `delay.as_secs_f64().round() as u64`, and `debug` the text of `{:?}`.
unfoldable pub format_retry_delay :
    (round_secs : Duration → ℕ) (debug : Duration → Text) → Duration → Text
format_retry_delay round_secs debug delay =
    let total_seconds = round_secs delay in
    let minutes = total_seconds / 60 in
    let seconds = total_seconds % 60 in
    if total_seconds == 0
    then debug delay
    else if ltb total_seconds 60
    then to_decimal total_seconds ++ codes " 秒"
    else if seconds == 0
    then to_decimal minutes ++ codes " 分钟"
    else to_decimal minutes ++ codes " 分 " ++ to_decimal seconds ++ codes " 秒"
