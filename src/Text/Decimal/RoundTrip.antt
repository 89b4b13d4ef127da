-- ===== src/Text/Decimal/RoundTrip.antt =====
-- A printed number is parsed back.
use mathlib.Core.Logic.{dif_pos, dif_neg}
use native.Mathlib.Bridge.{le_prop}
use mathlib.Core.WellFounded.{Acc}
use zju_connect_gui.Base.{
  ℕ, zero, suc, ◌+◌, ◌-◌, ◌*◌, ◌/◌, ◌%◌, ◌<◌, ◌≤◌, [], ◌∷◌, some, ◌≡◌, ◌≢◌, refl, arith, dec_lt,
  ◌∙◌, ap,
}
use zju_connect_gui.Text.{Text}
use zju_connect_gui.Text.Decimal.{put_digits, lt_wf, to_decimal, parse_digits, parse_uint, tenth_lt}

parse_digits_step :
    (max q d : ℕ) (out : Text)
    → d < 10
    → q * 10 + d ≤ max
    → parse_digits max ((b'0' + d) ∷ out) q ≡ parse_digits max out (q * 10 + d)
unfolding parse_digits
parse_digits_step max q d out small fits =
    let e : q * 10 + (b'0' + d - b'0') ≡ q * 10 + d = omega arith in rw e (ground arith)

-- Reading the digits of `n` is reading on from `n`.
parse_digits-put_digits :
    (max n : ℕ) (w : Acc ◌<◌ n) (out : Text)
    → n ≤ max
    → parse_digits max (put_digits n w out) 0 ≡ parse_digits max out n
unfolding put_digits
parse_digits-put_digits max n (Acc.intro _ smaller) out fits = elim (dec_lt 0 n) [
  | yes p ↦ rw (dif_pos _ le_prop p) (
      parse_digits-put_digits max (n / 10) (smaller (n / 10) (tenth_lt p)) ((b'0' + n % 10) ∷ out)
        (omega arith)
      ∙ (parse_digits_step max (n / 10) (n % 10) out (omega arith) (omega arith)
          ∙ ap (parse_digits max out) (omega arith)))
  | no p ↦ rw (dif_neg _ p) (ap (parse_digits max out) (omega arith))
]

-- The first digit is no sign.
put_digits-head :
    (n : ℕ) (w : Acc ◌<◌ n) (c : ℕ) (out : Text)
    → c ≢ b'+'
    → (d : ℕ) × (s : Text) × (put_digits n w (c ∷ out) ≡ d ∷ s) × (d ≢ b'+')
unfolding put_digits
put_digits-head n (Acc.intro _ smaller) c out h = elim (dec_lt 0 n) [
  | yes p ↦ rw (dif_pos _ le_prop p) (
      put_digits-head (n / 10) (smaller (n / 10) (tenth_lt p)) (b'0' + n % 10) (c ∷ out)
        (omega arith))
  | no p ↦ rw (dif_neg _ p) (c, out, refl, h)
]

parse_uint_plain :
    (max c : ℕ) (s : Text) → c ≢ b'+' → parse_uint max (c ∷ s) ≡ parse_digits max (c ∷ s) 0
unfolding parse_uint
parse_uint_plain max c [] h = refl
parse_uint_plain max c (d ∷ s) h = ground arith

-- The digits of a positive number: those of its tenth, and the last.
put_digits_pos :
    (n : ℕ) (w : Acc ◌<◌ n)
    → 0 < n
    → (v : Acc ◌<◌ (n / 10)) × (put_digits n w [] ≡ put_digits (n / 10) v ((b'0' + n % 10) ∷ []))
unfolding put_digits
put_digits_pos n (Acc.intro _ smaller) p = (smaller (n / 10) (tenth_lt p), rw (dif_pos _ le_prop p))

to_decimal_pos : (n : ℕ) → 0 < n → to_decimal n ≡ put_digits n (lt_wf.apply n) []
unfolding to_decimal
to_decimal_pos n p = ground arith

parse_uint_unsigned :
    (max : ℕ) (t : Text) {d : ℕ} {s : Text}
    → t ≡ d ∷ s
    → d ≢ b'+'
    → parse_uint max t ≡ parse_digits max t 0
parse_uint_unsigned max t {d} {s} e h = rw e (parse_uint_plain max d s h)

parse_uint-put_digits :
    (max n : ℕ) (w : Acc ◌<◌ n) → 0 < n → n ≤ max → parse_uint max (put_digits n w []) ≡ some n
unfolding parse_digits
parse_uint-put_digits max n w p fits =
    let (v, e) = put_digits_pos n w p in
    let (d, s, shape, plain) = put_digits-head (n / 10) v (b'0' + n % 10) [] (omega arith) in
    parse_uint_unsigned max (put_digits n w []) (e ∙ shape) plain
    ∙ parse_digits-put_digits max n w [] fits

-- Every value of the type is parsed back from its decimal form.
pub parse_uint-to_decimal : (max n : ℕ) → n ≤ max → parse_uint max (to_decimal n) ≡ some n
parse_uint-to_decimal max zero fits = unfold to_decimal parse_uint parse_digits in ground arith
parse_uint-to_decimal max (suc n) fits =
    rw (to_decimal_pos (suc n) (omega arith))
      (parse_uint-put_digits max (suc n) (lt_wf.apply (suc n)) (omega arith) fits)
