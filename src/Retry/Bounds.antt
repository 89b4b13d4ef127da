-- ===== src/Retry/Bounds.antt =====
-- The range of the delay, whatever the jitter, and the window of the default jitter.
use Prim.Native.Nat.{min}
use zju_connect_gui.Base.{ℕ, ◌+◌, ◌-◌, ◌*◌, ◌≤◌, ◌<◌, arith}
use zju_connect_gui.Retry.{
  Duration, JitterFn, from_secs, retry_floor, start_delay, delay_cap, grow, clamp_delay,
  next_retry_delay, default_jitter,
}

clamp_delay_bounds :
    (cap delay : Duration)
    → (min retry_floor cap ≤ clamp_delay cap delay) × (clamp_delay cap delay ≤ cap)
unfolding clamp_delay
clamp_delay_bounds cap delay = ground arith

-- Whatever the jitter function returns, the delay is at most the cap in force (60 s where the
-- configured maximum is zero) and at least one second, or the cap where that is below one second.
pub next_retry_delay_bounds :
    (attempt : ℕ) (base max : Duration) (jitter : JitterFn)
    → let delay = next_retry_delay attempt base max jitter in
      (min retry_floor (delay_cap max) ≤ delay) × (delay ≤ delay_cap max)
unfolding next_retry_delay
next_retry_delay_bounds attempt base max jitter =
    clamp_delay_bounds (delay_cap max)
      (jitter (grow (attempt - 1) (delay_cap max) (start_delay base)) attempt)

-- For a delay of at most 60 s, a spread of at most a fifth of it and a draw in its range, the
-- default jitter moves the delay by at most the spread: nothing wraps around.
default_jitter_window :
    (spread_of draw : ℕ → ℕ) (delay : Duration) (attempt : ℕ)
    → 0 < delay
    → delay ≤ from_secs 60
    → 5 * spread_of delay ≤ delay
    → draw (spread_of delay) ≤ 2 * spread_of delay
    → let jittered = default_jitter spread_of draw delay attempt in
      (delay ≤ jittered + spread_of delay) × (jittered ≤ delay + spread_of delay)
unfolding default_jitter
default_jitter_window spread_of draw delay attempt positive short fifth drawn = ground arith
