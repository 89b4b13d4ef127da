-- ===== src/Captcha/Stable/Rounds.antt =====
-- One round of the poll after another.
use zju_connect_gui.Base.{
  ℕ, ◌≡◌, ◌≤◌, ◌<◌, ◌⊎◌, inl, inr, refl, ap, ◌∙◌, List, [], ◌∷◌, ◌++◌, Bool, true, false, Option,
  none, some, ltb, if◌then◌else◌, arith, Option-cases, is_some,
}
use zju_connect_gui.Captcha.{
  Bytes, captcha_max_size, Observation, is_skipped, next_stable_count, or_continue, poll,
}

-- The file is there, and neither empty nor too large.
abbrev pub HasSize : Observation → ℕ → Type 0
HasSize o size = (o.size ≡ some size) × (0 < size) × (size ≤ captcha_max_size)

pub poll-none :
    (last stable : ℕ) (o : Observation) (rounds : List Observation)
    → o.size ≡ none
    → poll last stable (o ∷ rounds) ≡ poll last stable rounds
unfolding poll
poll-none last stable o rounds e = rw (e, poll) refl

pub poll_sized :
    (last stable size : ℕ) (o : Observation) (rounds : List Observation)
    → o.size ≡ some size
    → poll last stable (o ∷ rounds) ≡ (
        if is_skipped size
        then poll last stable rounds
        else if ltb (next_stable_count size last stable) 1
        then poll size (next_stable_count size last stable) rounds
        else or_continue o.contents (poll size (next_stable_count size last stable) rounds))
unfolding poll
poll_sized last stable size o rounds e = rw (e, poll) refl

pub kept-bounds : (size : ℕ) → is_skipped size ≡ false → (0 < size) × (size ≤ captcha_max_size)
unfolding is_skipped
kept-bounds size h = ground arith

not_skipped : (size : ℕ) → 0 < size → size ≤ captcha_max_size → is_skipped size ≡ false
unfolding is_skipped
not_skipped size positive small = ground arith

pub unstable_lem :
    (size last stable : ℕ) → (size ≡ last) ⊎ (ltb (next_stable_count size last stable) 1 ≡ true)
unfolding next_stable_count
unstable_lem size last stable = ground arith

stable_lem : (size stable : ℕ) → ltb (next_stable_count size size stable) 1 ≡ false
unfolding next_stable_count
stable_lem size stable = ground arith

or_continue_some :
    (contents rest : Option Bytes)
    → is_some rest ≡ true
    → is_some (or_continue contents rest) ≡ true
or_continue_some none rest h = h
or_continue_some (some []) rest h = h
or_continue_some (some (b ∷ bs)) rest h = refl

if_some :
    (test : Bool) (x y : Option Bytes)
    → is_some x ≡ true
    → is_some y ≡ true
    → is_some (if test then x else y) ≡ true
if_some true x y hx hy = hx
if_some false x y hx hy = hy

poll_second :
    (n size : ℕ) (second : Observation) (b : ℕ) (bs : Bytes) (after : List Observation)
    → HasSize second size
    → second.contents ≡ some (b ∷ bs)
    → is_some (poll size n (second ∷ after)) ≡ true
poll_second n size second b bs after (e, positive, small) readable =
    rw
      (
        poll_sized size n size second after e,
        not_skipped size positive small,
        stable_lem size n,
        readable,
      )
      refl

poll_pair :
    (last stable size : ℕ) (first second : Observation) (b : ℕ) (bs : Bytes)
    (after : List Observation)
    → HasSize first size
    → HasSize second size
    → second.contents ≡ some (b ∷ bs)
    → is_some (poll last stable (first ∷ second ∷ after)) ≡ true
poll_pair last stable size first second b bs after (e, positive, small) again readable =
    let count = next_stable_count size last stable in
    let later = poll_second count size second b bs after again readable in
    rw (poll_sized last stable size first (second ∷ after) e, not_skipped size positive small)
      (if_some (ltb count 1) (poll size count (second ∷ after))
        (or_continue first.contents (poll size count (second ∷ after))) later
        (or_continue_some first.contents (poll size count (second ∷ after)) later))

pub poll_ends :
    (last stable size : ℕ) (before : List Observation) (first second : Observation) (b : ℕ)
    (bs : Bytes) (after : List Observation)
    → HasSize first size
    → HasSize second size
    → second.contents ≡ some (b ∷ bs)
    → is_some (poll last stable (before ++ (first ∷ second ∷ after))) ≡ true
poll_ends last stable size [] first second b bs after h1 h2 readable =
    poll_pair last stable size first second b bs after h1 h2 readable
poll_ends last stable size (o ∷ before) first second b bs after h1 h2 readable =
    let rounds = before ++ (first ∷ second ∷ after) in
    elim (Option-cases o.size) [
      | inl gone ↦
          ap is_some (poll-none last stable o rounds gone)
          ∙ poll_ends last stable size before first second b bs after h1 h2 readable
      | inr (seen, e) ↦
          let count = next_stable_count seen last stable in
          let skipped = poll_ends last stable size before first second b bs after h1 h2 readable in
          let rest = poll_ends seen count size before first second b bs after h1 h2 readable in
          ap is_some (poll_sized last stable seen o rounds e)
          ∙ if_some (is_skipped seen) (poll last stable rounds)
              (if ltb count 1
                then poll seen count rounds
                else or_continue o.contents (poll seen count rounds))
              skipped
              (if_some (ltb count 1) (poll seen count rounds)
                (or_continue o.contents (poll seen count rounds)) rest
                (or_continue_some o.contents (poll seen count rounds) rest))
    ]
