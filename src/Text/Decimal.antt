-- ===== src/Text/Decimal.antt =====
-- Decimal numbers: `to_string` of an unsigned integer, and `str::parse` of one of a given width.
pub mod RoundTrip
pub mod Solid
pub mod Bounds
use mathlib.Core.Logic.{dite}
use mathlib.Core.WellFounded.{Acc, WellFounded}
use zju_connect_gui.Base.{
  ℕ, zero, suc, ◌+◌, ◌-◌, ◌*◌, ◌/◌, ◌%◌, ◌<◌, [], ◌∷◌, Option, none, some, ◌≡◌, refl, arith, ltb,
  leb, ◌==◌, ◌&&◌, ◌||◌, if◌then◌else◌, dec_lt,
}
use zju_connect_gui.Text.{Text, codes}

below_Acc : (k n : ℕ) → n < k → Acc ◌<◌ n
below_Acc zero n h = absurd (omega arith)
below_Acc (suc k) n h = Acc.intro n λ m less. below_Acc k m (omega arith)

lt_wf : WellFounded ◌<◌
unfolding below_Acc
lt_wf = record { apply = λ n. below_Acc (suc n) n (omega arith) }

tenth_lt : {n : ℕ} → 0 < n → n / 10 < n
tenth_lt h = omega arith

-- The digits of a positive number in front of `out`.
put_digits : (n : ℕ) → Acc ◌<◌ n → Text → Text
put_digits n (Acc.intro _ smaller) out =
    dite (dec_lt 0 n)
      (λ h. put_digits (n / 10) (smaller (n / 10) (tenth_lt h)) ((b'0' + n % 10) ∷ out)) (λ _. out)

unfoldable pub to_decimal : ℕ → Text
unfolding put_digits lt_wf tenth_lt dec_lt
to_decimal n = if n == 0 then b'0' ∷ [] else put_digits n (lt_wf.apply n) []

-- The digits behind a value read so far; `none` on another character and past `max`.
parse_digits : (max : ℕ) → Text → ℕ → Option ℕ
parse_digits max [] n = some n
parse_digits max (c ∷ s) n =
    let next = n * 10 + (c - b'0') in
    let rest = parse_digits max s next in
    if ltb c b'0' || ltb b'9' c then none else if ltb max next then none else rest

-- `s.parse::<uN>().ok()` for the type with the given maximum: a sign `+` may stand in front.
unfoldable pub parse_uint : (max : ℕ) → Text → Option ℕ
unfolding parse_digits
parse_uint max [] = none
parse_uint max (c ∷ []) = parse_digits max (c ∷ []) 0
parse_uint max (c ∷ d ∷ s) =
    if c == b'+' then parse_digits max (d ∷ s) 0 else parse_digits max (c ∷ d ∷ s) 0

parse_tests :
    (parse_uint 65535 (codes "65535") ≡ some 65535)
    × (parse_uint 65535 (codes "65536") ≡ none)
    × (parse_uint 65535 (codes "+80") ≡ some 80)
    × (parse_uint 65535 (codes "-5") ≡ none)
    × (parse_uint 65535 (codes "+") ≡ none)
    × (to_decimal 4242 ≡ codes "4242")
unfolding parse_uint to_decimal
parse_tests = (refl, refl, refl, refl, refl, refl)
