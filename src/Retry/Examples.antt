-- ===== src/Retry/Examples.antt =====
-- The delays of the source's tests.
use zju_connect_gui.Base.{◌≡◌, ◌≤◌, ◌+◌, ◌-◌, ◌*◌, ◌^◌, min, max, refl, arith}
use zju_connect_gui.Retry.{
  from_secs, from_millis, next_retry_delay, no_jitter, delay_cap, retry_floor, start_delay,
}
use zju_connect_gui.Retry.Bounds.{next_retry_delay_bounds}
use zju_connect_gui.Retry.Growth.{next_retry_delay_exact}

doubling :
    (next_retry_delay 1 (from_secs 1) (from_secs 60) no_jitter ≡ from_secs 1)
    × (next_retry_delay 3 (from_secs 1) (from_secs 60) no_jitter ≡ from_secs 4)
    × (next_retry_delay 6 (from_secs 1) (from_secs 60) no_jitter ≡ from_secs 32)
    × (next_retry_delay 20 (from_secs 1) (from_secs 60) no_jitter ≡ from_secs 60)
    × (next_retry_delay 1 (from_millis 50) (from_secs 10) (λ d n. from_millis 10) ≡ from_secs 1)
unfolding next_retry_delay no_jitter
doubling = (refl, refl, refl, refl, refl)

next_retry_delay_exact_example :
    next_retry_delay 4 (from_secs 1) (from_secs 60) no_jitter
    ≡ min (delay_cap (from_secs 60)) (max retry_floor (start_delay (from_secs 1) * 2 ^ (4 - 1)))
next_retry_delay_exact_example = next_retry_delay_exact 4 (from_secs 1) (from_secs 60) (omega arith)

next_retry_delay_bounds_example :
    let delay = next_retry_delay 3 (from_secs 2) (from_secs 30) (λ d n. d + 5) in
    (min retry_floor (delay_cap (from_secs 30)) ≤ delay) × (delay ≤ delay_cap (from_secs 30))
next_retry_delay_bounds_example =
    next_retry_delay_bounds 3 (from_secs 2) (from_secs 30) (λ d n. d + 5)
