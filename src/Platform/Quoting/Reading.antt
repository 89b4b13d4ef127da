-- ===== src/Platform/Quoting/Reading.antt =====
-- How a program on Windows splits its command line, one argument at a time.
use zju_connect_gui.Base.{
  ℕ, zero, suc, ◌+◌, ◌*◌, ◌≡◌, refl, subst, ap, ◌∙◌, [], ◌∷◌, ◌++◌, Bool, true, false, not, ◌&&◌,
  ◌||◌, any, ◌==◌, if◌then◌else◌, arith, Bool-cases, inl, inr,
}
use zju_connect_gui.Text.{Text}
use zju_connect_gui.Platform.{is_special, push_backslashes, escape_chars}

abbrev half : ℕ → ℕ
half zero = zero
half (suc zero) = zero
half (suc (suc n)) = suc (half n)

abbrev is_odd : ℕ → Bool
is_odd zero = false
is_odd (suc n) = not (is_odd n)

-- Backslashes and a character in front of the argument that is read, the rest of the line kept.
abbrev pub behind : ℕ → Text × Text → Text × Text
behind n (arg, rest) = (push_backslashes n arg, rest)

abbrev pub with_char : ℕ → Text × Text → Text × Text
with_char c (arg, rest) = (c ∷ arg, rest)

-- The rules: a quote behind an even number of backslashes opens or closes a quoted part, behind an odd
-- number it is a character, and half of the backslashes stand; other backslashes are characters. A
-- space or tab outside quotes ends the argument. The argument, and the line behind it.
unfoldable pub read_arg : (quoted : Bool) (backslashes : ℕ) → Text → Text × Text
read_arg quoted backslashes [] = (push_backslashes backslashes [], [])
read_arg quoted backslashes (c ∷ s) =
    let counted = read_arg quoted (suc backslashes) s in
    let same = read_arg quoted 0 s in
    let turned = read_arg (not quoted) 0 s in
    if c == b'\\'
    then counted
    else if c == b'"'
    then behind (half backslashes) (if is_odd backslashes then with_char b'"' same else turned)
    else if not quoted && (c == b' ' || c == b'\t')
    then (push_backslashes backslashes [], s)
    else behind backslashes (with_char c same)

half_even : (n : ℕ) → (half (n * 2) ≡ n) × (is_odd (n * 2) ≡ false)
half_even zero = (refl, refl)
half_even (suc n) =
    let e : suc n * 2 ≡ suc (suc (n * 2)) = omega arith in
    rw e (ap suc (half_even n).0, ap (λ b. not (not b)) (half_even n).1)

half_odd : (n : ℕ) → (half (suc (n * 2)) ≡ n) × (is_odd (suc (n * 2)) ≡ true)
half_odd zero = (refl, refl)
half_odd (suc n) =
    let e : suc n * 2 ≡ suc (suc (n * 2)) = omega arith in
    rw e (ap suc (half_odd n).0, ap (λ b. not (not b)) (half_odd n).1)

pub push_suc : (n : ℕ) (s : Text) → push_backslashes (suc n) s ≡ push_backslashes n (b'\\' ∷ s)
push_suc zero s = refl
push_suc (suc n) s = ap (λ t. b'\\' ∷ t) (push_suc n s)

pub push-append : (n : ℕ) (s t : Text) → push_backslashes n s ++ t ≡ push_backslashes n (s ++ t)
push-append zero s t = refl
push-append (suc n) s t = ap (λ u. b'\\' ∷ u) (push-append n s t)

pub read_arg-push :
    (quoted : Bool) (k n : ℕ) (t : Text)
    → read_arg quoted k (push_backslashes n t) ≡ read_arg quoted (k + n) t
unfolding read_arg
read_arg-push quoted k zero t = ap (λ m. read_arg quoted m t) (omega arith)
read_arg-push quoted k (suc n) t =
    read_arg-push quoted (suc k) n t ∙ ap (λ m. read_arg quoted m t) (omega arith)

pub read_arg_even :
    (quoted : Bool) (n : ℕ) (t : Text)
    → read_arg quoted (n * 2) (b'"' ∷ t) ≡ behind n (read_arg (not quoted) 0 t)
unfolding read_arg
read_arg_even quoted n t = rw ((half_even n).0, (half_even n).1) refl

pub read_arg_odd :
    (quoted : Bool) (n : ℕ) (t : Text)
    → read_arg quoted (suc (n * 2)) (b'"' ∷ t) ≡ behind n (with_char b'"' (read_arg quoted 0 t))
unfolding read_arg
read_arg_odd quoted n t = rw ((half_odd n).0, (half_odd n).1) refl

pub read_arg_quoted :
    (k c : ℕ) (t : Text)
    → (c == b'\\') ≡ false
    → (c == b'"') ≡ false
    → read_arg true k (c ∷ t) ≡ behind k (with_char c (read_arg true 0 t))
unfolding read_arg
read_arg_quoted k c t h1 h2 = rw (h1, h2) refl

pub escape_backslash :
    (n c : ℕ) (s : Text) → (c == b'\\') ≡ true → escape_chars n (c ∷ s) ≡ escape_chars (suc n) s
unfolding escape_chars
escape_backslash n c s h = rw h refl

pub escape_quote :
    (n c : ℕ) (s : Text)
    → (c == b'\\') ≡ false
    → (c == b'"') ≡ true
    → escape_chars n (c ∷ s) ≡ push_backslashes (suc (n * 2)) (b'"' ∷ escape_chars 0 s)
unfolding escape_chars
escape_quote n c s h1 h2 =
    let e : n * 2 + 1 ≡ suc (n * 2) = omega arith in
    rw (h1, h2) (ap (λ k. push_backslashes k (b'"' ∷ escape_chars 0 s)) e)

pub escape_other :
    (n c : ℕ) (s : Text)
    → (c == b'\\') ≡ false
    → (c == b'"') ≡ false
    → escape_chars n (c ∷ s) ≡ push_backslashes n (c ∷ escape_chars 0 s)
unfolding escape_chars
escape_other n c s h1 h2 = rw (h1, h2) refl

-- A line that, outside quotes, ends an argument at once, and what is behind it.
abbrev pub IsEnd : (tail rest : Text) → Type 0
IsEnd tail rest = read_arg false 0 tail ≡ ([], rest)

not_special :
    (c : ℕ)
    → is_special c ≡ false
    → ((c == b' ') ≡ false)
      × ((c == b'\t') ≡ false)
      × ((c == b'"') ≡ false)
      × ((c == b'\\') ≡ false)
not_special c h = ground arith

pub read_arg_plain :
    (c : ℕ) (t : Text)
    → is_special c ≡ false
    → read_arg false 0 (c ∷ t) ≡ with_char c (read_arg false 0 t)
unfolding read_arg
read_arg_plain c t h =
    let (space, tab, quote, slash) = not_special c h in rw (slash, quote, space, tab) refl

pub any_special :
    (c : ℕ) (s : Text)
    → any is_special (c ∷ s) ≡ false
    → (is_special c ≡ false) × (any is_special s ≡ false)
any_special c s h = elim (Bool-cases (is_special c)) [
  | inl special ↦ absurd (clash special)
  | inr plain ↦ (plain, subst (λ b. (if b then true else any is_special s) ≡ false) plain h)
]
  where
    clash : is_special c ≡ true → ⊥
    clash special =
        let e : true ≡ false =
          subst (λ b. (if b then true else any is_special s) ≡ false) special h in
        cc
