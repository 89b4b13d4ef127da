-- ===== src/Captcha/Stable.antt =====
-- What the poll accepts, and when.
pub mod Rounds
use zju_connect_gui.Base.{
  ℕ, ◌≡◌, ◌≢◌, ◌⊎◌, inl, inr, refl, subst, ap, sym, ◌∙◌, List, [], ◌∷◌, ◌++◌, Bool, true, false,
  Option, none, some, ltb, if◌then◌else◌, arith, Bool-cases, Option-cases, is_some,
}
use zju_connect_gui.Captcha.{
  Bytes, Observation, is_skipped, next_stable_count, or_continue, poll, poll_for_stable_captcha,
}
use zju_connect_gui.Captcha.Stable.Rounds.{
  HasSize, poll-none, poll_sized, kept-bounds, unstable_lem, poll_ends,
}

-- If two rounds in succession see the same size, neither zero nor above 10 MiB, and the second reads
-- something, then the poll returns bytes, whatever the rounds before and after see.
pub poll_for_stable_captcha_ends :
    (size : ℕ) (before : List Observation) (first second : Observation) (b : ℕ) (bs : Bytes)
    (after : List Observation)
    → HasSize first size
    → HasSize second size
    → second.contents ≡ some (b ∷ bs)
    → is_some (poll_for_stable_captcha (before ++ (first ∷ second ∷ after))) ≡ true
unfolding poll_for_stable_captcha
poll_for_stable_captcha_ends size before first second b bs after h1 h2 readable =
    poll_ends 0 0 size before first second b bs after h1 h2 readable

-- A round among the given ones saw the size.
abbrev pub IsSeen : ℕ → List Observation → Type 0
IsSeen size rounds =
    (p : List Observation) × (o : Observation) × (q : List Observation) × (rounds ≡ p ++ (o ∷ q))
    × HasSize o size

-- The bytes are those of a round, and its size is the one in `last` or was seen before.
abbrev pub IsSound : (last : ℕ) → List Observation → Bytes → Type 0
IsSound last rounds bytes =
    (before : List Observation) × (o : Observation) × (after : List Observation) × (size : ℕ)
    × (rounds ≡ before ++ (o ∷ after))
    × HasSize o size
    × (o.contents ≡ some bytes)
    × (bytes ≢ [])
    × ((last ≡ size) ⊎ IsSeen size before)

-- A round in front that the poll did not accept.
IsSound-cons :
    (last next : ℕ) (o : Observation) (rounds : List Observation) (bytes : Bytes)
    → ((size : ℕ) → next ≡ size → (last ≡ size) ⊎ HasSize o size)
    → IsSound next rounds bytes
    → IsSound last (o ∷ rounds) bytes
IsSound-cons last next o rounds bytes step
      (before, p, after, size, e, sized, read, full, inl same) =
    (
      o ∷ before,
      p,
      after,
      size,
      ap (λ r. o ∷ r) e,
      sized,
      read,
      full,
      elim (step size same) [ inl was ↦ inl was | inr now ↦ inr ([], o, before, refl, now) ],
    )
IsSound-cons last next o rounds bytes step
      (before, p, after, size, e, sized, read, full, inr (x, y, z, e2, seen)) =
    (
      o ∷ before,
      p,
      after,
      size,
      ap (λ r. o ∷ r) e,
      sized,
      read,
      full,
      inr (o ∷ x, y, z, ap (λ r. o ∷ r) e2, seen),
    )

or_continue_cases :
    (contents rest : Option Bytes) (bytes : Bytes)
    → or_continue contents rest ≡ some bytes
    → ((contents ≡ some bytes) × (bytes ≢ [])) ⊎ (rest ≡ some bytes)
or_continue_cases none rest bytes h = inr h
or_continue_cases (some []) rest bytes h = inr h
or_continue_cases (some (b ∷ bs)) rest [] h = absurd (clash h)
  where
    clash : Option.some (b ∷ bs) ≡ some [] → ⊥
    clash e = cc
or_continue_cases (some (b ∷ bs)) rest (c ∷ cs) h = inl (h, λ e. clash e)
  where
    clash : (c ∷ cs) ≡ [] → ⊥
    clash e = cc

if-true : (t : Bool) (x y z : Option Bytes) → t ≡ true → (if t then x else y) ≡ z → x ≡ z
if-true t x y z e h = subst (λ b. (if b then x else y) ≡ z) e h

if-false : (t : Bool) (x y z : Option Bytes) → t ≡ false → (if t then x else y) ≡ z → y ≡ z
if-false t x y z e h = subst (λ b. (if b then x else y) ≡ z) e h

moved_size :
    (o : Observation) (seen : ℕ) → HasSize o seen → (size : ℕ) → seen ≡ size → HasSize o size
moved_size o seen h size e = subst (HasSize o) e h

was_last : (size last stable : ℕ) → ltb (next_stable_count size last stable) 1 ≡ false → size ≡ last
was_last size last stable h = elim (unstable_lem size last stable) [
  | inl same ↦ same
  | inr unstable ↦ absurd (clash unstable)
]
  where
    clash : ltb (next_stable_count size last stable) 1 ≡ true → ⊥
    clash unstable = cc

poll-IsSound :
    (last stable : ℕ) (rounds : List Observation) (bytes : Bytes)
    → poll last stable rounds ≡ some bytes
    → IsSound last rounds bytes
poll-IsSound last stable [] bytes h = absurd (clash h)
  where
    clash : poll last stable [] ≡ some bytes → ⊥
    clash e = unfold poll in cc
poll-IsSound last stable (o ∷ rounds) bytes h = elim (Option-cases o.size) [
  | inl gone ↦
      IsSound-cons last last o rounds bytes (λ size e. inl e)
        (poll-IsSound last stable rounds bytes (sym (poll-none last stable o rounds gone) ∙ h))
  | inr (seen, e) ↦
      let count = next_stable_count seen last stable in
      let rest = poll seen count rounds in
      let accepted = or_continue o.contents rest in
      let sized = sym (poll_sized last stable seen o rounds e) ∙ h in
      elim (Bool-cases (is_skipped seen)) [
        | inl skip ↦
            IsSound-cons last last o rounds bytes (λ size same. inl same)
              (poll-IsSound last stable rounds bytes
                (if-true (is_skipped seen) (poll last stable rounds) _ (some bytes) skip sized))
        | inr kept ↦
            let (positive, small) = kept-bounds seen kept in
            let has : HasSize o seen = (e, positive, small) in
            let tested =
              if-false (is_skipped seen) _ (if ltb count 1 then rest else accepted) (some bytes)
                kept sized in
            let go_on = poll-IsSound seen count rounds bytes in
            let extend =
              IsSound-cons last seen o rounds bytes
                (λ size same. inr (moved_size o seen has size same)) in
            elim (Bool-cases (ltb count 1)) [
              | inl unstable ↦
                  extend (go_on (if-true (ltb count 1) rest accepted (some bytes) unstable tested))
              | inr settled ↦
                  elim (or_continue_cases o.contents (poll seen count rounds) bytes
                    (if-false (ltb count 1) rest accepted (some bytes) settled tested)) [
                      | inl (read, full) ↦ (
                        [],
                        o,
                        rounds,
                        seen,
                        refl,
                        has,
                        read,
                        full,
                        inl (sym (was_last seen last stable settled)),
                      )
                      | inr later ↦ extend (go_on later)
                    ]
            ]
      ]
]

-- Bytes that the poll returns were read in a round whose file was neither empty nor above 10 MiB, they
-- are not empty themselves, and an earlier round saw the file with the same size.
pub poll_for_stable_captcha_sound :
    (rounds : List Observation) (bytes : Bytes)
    → poll_for_stable_captcha rounds ≡ some bytes
    → (before : List Observation) × (o : Observation) × (after : List Observation) × (size : ℕ)
      × (rounds ≡ before ++ (o ∷ after))
      × HasSize o size
      × (o.contents ≡ some bytes)
      × (bytes ≢ [])
      × IsSeen size before
unfolding poll_for_stable_captcha
poll_for_stable_captcha_sound rounds bytes h =
    let (before, o, after, size, e, has, read, full, seen) = poll-IsSound 0 0 rounds bytes h in
    (
      before,
      o,
      after,
      size,
      e,
      has,
      read,
      full,
      elim seen [ inl zero_size ↦ absurd (omega (arith, zero_size, has.1)) | inr found ↦ found ],
    )
