-- ===== src/Text/Decimal/Bounds.antt =====
-- A parsed number fits its type.
use zju_connect_gui.Base.{
  ℕ, ◌+◌, ◌*◌, ◌-◌, ◌≤◌, ◌≡◌, [], ◌∷◌, Bool, false, Option, none, some, arith, Bool-cases, inl, inr,
  ltb, ◌||◌, ◌==◌, if◌then◌else◌,
}
use zju_connect_gui.Text.{Text}
use zju_connect_gui.Text.Decimal.{parse_digits, parse_uint}

both_passed :
    {m : ℕ} (no_digit too_large : Bool) (rest : Option ℕ)
    → (if no_digit then none else if too_large then none else rest) ≡ some m
    → (too_large ≡ false) × (rest ≡ some m)
both_passed no_digit too_large rest h = ground arith

parse_digits_le : (max : ℕ) (s : Text) (n m : ℕ) → n ≤ max → parse_digits max s n ≡ some m → m ≤ max
unfolding parse_digits
parse_digits_le max [] n m h e = ground arith
parse_digits_le max (c ∷ s) n m h e =
    let next = n * 10 + (c - b'0') in
    let (fits, read) =
      both_passed (ltb c b'0' || ltb b'9' c) (ltb max next) (parse_digits max s next) e in
    parse_digits_le max s next m (ground arith) read

pub parse_uint_le : (max : ℕ) (s : Text) (m : ℕ) → parse_uint max s ≡ some m → m ≤ max
unfolding parse_uint
parse_uint_le max [] m e = cc
parse_uint_le max (c ∷ []) m e = parse_digits_le max (c ∷ []) 0 m (omega arith) e
parse_uint_le max (c ∷ d ∷ s) m e = elim (Bool-cases (c == b'+')) [
  | inl plus ↦ parse_digits_le max (d ∷ s) 0 m (omega arith) (ground arith)
  | inr plain ↦ parse_digits_le max (c ∷ d ∷ s) 0 m (omega arith) (ground arith)
]
