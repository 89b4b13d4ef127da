-- ===== src/Text/Laws.antt =====
-- Trimming, equality and prefixes of text.
use zju_connect_gui.Base.{
  ℕ, ◌≡◌, ◌↔◌, refl, [], ◌∷◌, ◌++◌, true, false, some, arith, Bool-cases, inl, inr,
}
use zju_connect_gui.Text.{
  Text, is_whitespace, trim_start, before_trimmed, trim_end, trim, text_eq, strip_prefix,
}

pub text_eq_refl : (s : Text) → text_eq s s ≡ true
unfolding text_eq
text_eq_refl [] = refl
text_eq_refl (c ∷ s) = ground (arith, text_eq_refl s)

pub text_eq_sound : (s t : Text) → text_eq s t ≡ true → s ≡ t
unfolding text_eq
text_eq_sound [] [] h = refl
text_eq_sound [] (d ∷ t) h = cc
text_eq_sound (c ∷ s) [] h = cc
text_eq_sound (c ∷ s) (d ∷ t) h = ground (arith, text_eq_sound s t)

pub text_eq_iff : (s t : Text) → (text_eq s t ≡ true) ↔ (s ≡ t)
text_eq_iff s t = (text_eq_sound s t, λ e. subst_eq e)
  where
    subst_eq : s ≡ t → text_eq s t ≡ true
    subst_eq e = rw e (text_eq_refl t)

-- The first character is not white space.
abbrev pub StartsSolid : Text → Type 0
StartsSolid [] = Unit
StartsSolid (c ∷ s) = is_whitespace c ≡ false

-- The last character is not white space.
abbrev pub EndsSolid : Text → Type 0
EndsSolid [] = Unit
EndsSolid (c ∷ []) = is_whitespace c ≡ false
EndsSolid (c ∷ d ∷ s) = EndsSolid (d ∷ s)

-- Text without white space at either end.
abbrev pub IsTrimmed : Text → Type 0
IsTrimmed s = StartsSolid s × EndsSolid s

trim_start-StartsSolid : (s : Text) → StartsSolid (trim_start s)
unfolding trim_start
trim_start-StartsSolid [] = tt
trim_start-StartsSolid (c ∷ s) = elim (Bool-cases (is_whitespace c)) [
  | inl blank ↦ rw blank (trim_start-StartsSolid s)
  | inr solid ↦ rw solid solid
]

before_trimmed-EndsSolid : (c : ℕ) (s : Text) → EndsSolid s → EndsSolid (before_trimmed c s)
unfolding before_trimmed
before_trimmed-EndsSolid c [] h = elim (Bool-cases (is_whitespace c)) [
  | inl blank ↦ rw blank tt
  | inr solid ↦ rw solid solid
]
before_trimmed-EndsSolid c (d ∷ s) h = h

trim_end-EndsSolid : (s : Text) → EndsSolid (trim_end s)
unfolding trim_end
trim_end-EndsSolid [] = tt
trim_end-EndsSolid (c ∷ s) = before_trimmed-EndsSolid c (trim_end s) (trim_end-EndsSolid s)

before_trimmed-StartsSolid :
    (c : ℕ) (s : Text) → is_whitespace c ≡ false → StartsSolid (before_trimmed c s)
unfolding before_trimmed
before_trimmed-StartsSolid c [] h = rw h h
before_trimmed-StartsSolid c (d ∷ s) h = h

trim_end-StartsSolid : (s : Text) → StartsSolid s → StartsSolid (trim_end s)
unfolding trim_end
trim_end-StartsSolid [] h = tt
trim_end-StartsSolid (c ∷ s) h = before_trimmed-StartsSolid c (trim_end s) h

pub trim-IsTrimmed : (s : Text) → IsTrimmed (trim s)
unfolding trim
trim-IsTrimmed s = (
  trim_end-StartsSolid (trim_start s) (trim_start-StartsSolid s),
  trim_end-EndsSolid (trim_start s),
)

trim_start_of_StartsSolid : (s : Text) → StartsSolid s → trim_start s ≡ s
unfolding trim_start
trim_start_of_StartsSolid [] h = refl
trim_start_of_StartsSolid (c ∷ s) h = rw h

trim_end_of_EndsSolid : (s : Text) → EndsSolid s → trim_end s ≡ s
unfolding trim_end before_trimmed
trim_end_of_EndsSolid [] h = refl
trim_end_of_EndsSolid (c ∷ []) h = rw h
trim_end_of_EndsSolid (c ∷ d ∷ s) h = rw (trim_end_of_EndsSolid (d ∷ s) h)

pub trim_of_IsTrimmed : (s : Text) → IsTrimmed s → trim s ≡ s
unfolding trim
trim_of_IsTrimmed s h = rw (trim_start_of_StartsSolid s h.0) (trim_end_of_EndsSolid s h.1)

pub trim_idem : (s : Text) → trim (trim s) ≡ trim s
trim_idem s = trim_of_IsTrimmed (trim s) (trim-IsTrimmed s)

pub strip_prefix-append : (p s : Text) → strip_prefix p (p ++ s) ≡ some s
unfolding strip_prefix
strip_prefix-append [] s = refl
strip_prefix-append (c ∷ p) s = ground (arith, strip_prefix-append p s)

strip_prefix_sound : (p s : Text) {r : Text} → strip_prefix p s ≡ some r → s ≡ p ++ r
unfolding strip_prefix
strip_prefix_sound [] s h = ground arith
strip_prefix_sound (c ∷ p) [] h = cc
strip_prefix_sound (c ∷ p) (d ∷ s) {r} h = ground (arith, strip_prefix_sound p s {r = r})
