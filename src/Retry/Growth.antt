-- ===== src/Retry/Growth.antt =====
-- Without jitter the delay doubles with each attempt, up to the cap.
use Prim.Native.Nat.{min, max}
use native.Mathlib.Nat.{pow-suc}
use zju_connect_gui.Base.{
  ℕ, zero, suc, ◌-◌, ◌*◌, ◌^◌, ◌≤◌, ◌<◌, ◌≡◌, ◌∙◌, sym, arith, leb, leb→le, true, false, Bool-cases,
  inl, inr, ap,
}
use zju_connect_gui.Retry.{
  Duration, max_duration, retry_floor, start_delay, delay_cap, double_within, grow, clamp_delay,
  next_retry_delay, no_jitter,
}

double_within_lem :
    (cap delay : Duration) → cap ≤ max_duration → double_within cap delay ≡ min cap (delay * 2)
double_within_lem cap delay fits = ground arith

regroup : (d p : ℕ) → d * 2 * p ≡ d * (2 * p)
regroup d p = omega arith

double : (n : ℕ) → 2 ^ suc n ≡ 2 * 2 ^ n
double n = rw pow-suc (omega arith)

pow_mono : (m n : ℕ) → m ≤ n → 2 ^ m ≤ 2 ^ n
pow_mono m zero h = let e : m ≡ 0 = omega arith in rw e (omega arith)
pow_mono zero (suc n) h = rw double (omega (arith, pow_mono zero n (omega arith)))
pow_mono (suc m) (suc n) h = rw (double m, double n) (omega (arith, pow_mono m n (omega arith)))

mul_mono_right : (x : ℕ) {p q : ℕ} → p ≤ q → x * p ≤ x * q
mul_mono_right x h = grind arith

le-mul_pos : (x p : ℕ) → 0 < p → x ≤ x * p
le-mul_pos x p pos = grind arith

mul_mono_left : (x y p : ℕ) → x ≤ y → x * p ≤ y * p
mul_mono_left x y p h = grind arith

min-mul : (cap a p : ℕ) → 0 < p → min cap (min cap a * p) ≡ min cap (a * p)
min-mul cap a p pos = elim (Bool-cases (leb cap a)) [
  | inl over ↦
      let least : min cap a ≡ cap = ground arith in
      rw least (
        omega (
          arith,
          leb→le cap a over,
          le-mul_pos cap p pos,
          mul_mono_left cap a p (leb→le cap a over),
        ))
  | inr under ↦ let least : min cap a ≡ a = ground arith in rw least
]

pow_pos : (n : ℕ) → 0 < 2 ^ n
pow_pos zero = omega arith
pow_pos (suc n) = rw pow-suc (omega (arith, pow_pos n))

-- Once at the cap, growing further changes nothing that the cap leaves visible.
min-at_cap : (cap d p : ℕ) → 0 < p → cap ≤ d → min cap d ≡ min cap (d * p)
min-at_cap cap d p pos h = omega (arith, le-mul_pos d p pos)

grow_reached : (rounds cap delay : ℕ) → leb cap delay ≡ true → grow (suc rounds) cap delay ≡ delay
unfolding grow
grow_reached rounds cap delay h = ground arith

grow_below :
    (rounds cap delay : ℕ)
    → leb cap delay ≡ false
    → grow (suc rounds) cap delay ≡ grow rounds cap (double_within cap delay)
unfolding grow
grow_below rounds cap delay h = ground arith

grow_capped :
    (rounds : ℕ) (cap delay : Duration)
    → cap ≤ max_duration
    → min cap (grow rounds cap delay) ≡ min cap (delay * 2 ^ rounds)
grow_capped zero cap delay fits = unfold grow in omega arith
grow_capped (suc rounds) cap delay fits = elim (Bool-cases (leb cap delay)) [
  | inl reached ↦
      rw (grow_reached rounds cap delay reached)
        (min-at_cap cap delay (2 ^ suc rounds) (pow_pos (suc rounds)) (leb→le cap delay reached))
  | inr below ↦ rw (grow_below rounds cap delay below) (
      grow_capped rounds cap (double_within cap delay) fits
      ∙ (ap (λ d. min cap (d * 2 ^ rounds)) (double_within_lem cap delay fits)
          ∙ (min-mul cap (delay * 2) (2 ^ rounds) (pow_pos rounds)
              ∙ ap (min cap)
                  (regroup delay (2 ^ rounds) ∙ ap (λ t. delay * t) (sym (double rounds))))))
]

clamp_delay_lem :
    (cap delay : Duration) → clamp_delay cap delay ≡ min cap (max retry_floor (min cap delay))
unfolding clamp_delay
clamp_delay_lem cap delay = ground arith

clamp_delay-min :
    (cap d e : Duration) → min cap d ≡ min cap e → clamp_delay cap d ≡ clamp_delay cap e
clamp_delay-min cap d e h =
    clamp_delay_lem cap d ∙ (ap (λ t. min cap (max retry_floor t)) h ∙ sym (clamp_delay_lem cap e))

-- Without jitter, attempt n + 1 waits the base delay doubled n times, raised to one second and then
-- cut at the cap; attempt 0 waits as long as attempt 1. The cap is any `Duration`.
pub next_retry_delay_exact :
    (attempt : ℕ) (base max_delay : Duration)
    → delay_cap max_delay ≤ max_duration
    → next_retry_delay attempt base max_delay no_jitter
      ≡ min (delay_cap max_delay) (max retry_floor (start_delay base * 2 ^ (attempt - 1)))
unfolding next_retry_delay no_jitter
next_retry_delay_exact attempt base max_delay fits =
    let cap = delay_cap max_delay in
    let exact = start_delay base * 2 ^ (attempt - 1) in
    clamp_delay-min cap (grow (attempt - 1) cap (start_delay base)) exact
      (grow_capped (attempt - 1) cap (start_delay base) fits)
    ∙ unfold clamp_delay in ground arith

-- Without jitter, and with a cap that a `Duration` can hold, a later attempt never waits less than an
-- earlier one.
next_retry_delay_mono :
    (m n : ℕ) (base max_delay : Duration)
    → m ≤ n
    → delay_cap max_delay ≤ max_duration
    → next_retry_delay m base max_delay no_jitter ≤ next_retry_delay n base max_delay no_jitter
next_retry_delay_mono m n base max_delay h fits =
    rw (next_retry_delay_exact m base max_delay fits, next_retry_delay_exact n base max_delay fits)
      (omega (arith, scaled))
  where
    scaled : start_delay base * 2 ^ (m - 1) ≤ start_delay base * 2 ^ (n - 1)
    scaled = mul_mono_right (start_delay base) (pow_mono (m - 1) (n - 1) (omega arith))
