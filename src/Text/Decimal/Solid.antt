-- ===== src/Text/Decimal/Solid.antt =====
-- A printed number holds no white space.
use mathlib.Core.Logic.{dif_pos, dif_neg}
use native.Mathlib.Bridge.{le_prop}
use mathlib.Core.WellFounded.{Acc}
use zju_connect_gui.Base.{
  ℕ, ◌+◌, ◌/◌, ◌%◌, ◌<◌, ◌==◌, [], ◌∷◌, false, ◌≡◌, refl, arith, dec_lt, All, Bool-cases, inl, inr,
}
use zju_connect_gui.Text.{Text, is_whitespace, trim}
use zju_connect_gui.Text.Laws.{StartsSolid, EndsSolid, trim_of_IsTrimmed}
use zju_connect_gui.Text.Decimal.{put_digits, lt_wf, to_decimal, tenth_lt}

abbrev IsSolid : ℕ → Type 0
IsSolid c = is_whitespace c ≡ false

digit-IsSolid : (d : ℕ) → d < 10 → IsSolid (b'0' + d)
unfolding is_whitespace
digit-IsSolid d h = ground arith

put_digits-IsSolid :
    (n : ℕ) (w : Acc ◌<◌ n) (out : Text) → All IsSolid out → All IsSolid (put_digits n w out)
unfolding put_digits
put_digits-IsSolid n (Acc.intro _ smaller) out h = elim (dec_lt 0 n) [
  | yes p ↦ rw (dif_pos _ le_prop p) (
      put_digits-IsSolid (n / 10) (smaller (n / 10) (tenth_lt p)) ((b'0' + n % 10) ∷ out)
        (digit-IsSolid (n % 10) (omega arith), h))
  | no p ↦ rw (dif_neg _ p) h
]

to_decimal-IsSolid : (n : ℕ) → All IsSolid (to_decimal n)
unfolding to_decimal is_whitespace
to_decimal-IsSolid n = elim (Bool-cases (n == 0)) [
  | inl none_left ↦ rw none_left (refl, tt)
  | inr some_left ↦ rw some_left (put_digits-IsSolid n (lt_wf.apply n) [] tt)
]

EndsSolid-IsSolid : (s : Text) → All IsSolid s → EndsSolid s
EndsSolid-IsSolid [] h = tt
EndsSolid-IsSolid (c ∷ []) h = h.0
EndsSolid-IsSolid (c ∷ d ∷ s) h = EndsSolid-IsSolid (d ∷ s) h.1

StartsSolid-IsSolid : (s : Text) → All IsSolid s → StartsSolid s
StartsSolid-IsSolid [] h = tt
StartsSolid-IsSolid (c ∷ s) h = h.0

pub trim-to_decimal : (n : ℕ) → trim (to_decimal n) ≡ to_decimal n
trim-to_decimal n = trim_of_IsTrimmed (to_decimal n) (
  StartsSolid-IsSolid (to_decimal n) (to_decimal-IsSolid n),
  EndsSolid-IsSolid (to_decimal n) (to_decimal-IsSolid n),
)
