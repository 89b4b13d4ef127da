-- ===== src/Program/Lock/Granted.antt =====
-- When the program goes on, and whether it holds the lock then.
use zju_connect_gui.Base.{
  ℕ, ◌≡◌, ◌<◌, ◌↔◌, ◌⊎◌, inl, inr, refl, sym, List, [], ◌∷◌, ◌++◌, Bool, true, false, All, lt→ltb,
  if◌then◌else◌, ap, ◌∙◌,
}
use zju_connect_gui.Program.Lock.{
  LockResult, acquired, already_running, unavailable, Round, goes_on, exits, wait_for_lock,
  try_lock, startup, is_gone,
}
use zju_connect_gui.Base.Results.{Result, ok, err}
use zju_connect_gui.Platform.System.{WaitError}

-- The lock is taken, and the wait for the parent returns an error.
abbrev pub IsBusy : Round → Type 0
IsBusy round = (round.lock ≡ already_running) × ((e : WaitError) × (round.parent_wait ≡ err e))

-- Some round gets the lock, and all before it find it taken and get an error from the wait.
abbrev pub IsGranted : List Round → Type 0
IsGranted rounds =
    (busy : List Round) × (round : Round) × (later : List Round) × (rounds
      ≡ busy ++ (round ∷ later))
    × All IsBusy busy
    × (round.lock ≡ acquired)

wait_acquired :
    (round : Round) (rounds : List Round)
    → round.lock ≡ acquired
    → wait_for_lock (round ∷ rounds) ≡ goes_on true
unfolding wait_for_lock
wait_acquired round rounds e = rw (e, wait_for_lock) refl

wait_unavailable :
    (round : Round) (rounds : List Round)
    → round.lock ≡ unavailable
    → wait_for_lock (round ∷ rounds) ≡ exits
unfolding wait_for_lock
wait_unavailable round rounds e = rw (e, wait_for_lock) refl

wait_taken :
    (round : Round) (rounds : List Round)
    → round.lock ≡ already_running
    → wait_for_lock (round ∷ rounds)
      ≡ (if is_gone round.parent_wait then exits else wait_for_lock rounds)
unfolding wait_for_lock
wait_taken round rounds e = rw (e, wait_for_lock) refl

lock_cases : (l : LockResult) → (l ≡ acquired) ⊎ (l ≡ already_running) ⊎ (l ≡ unavailable)
lock_cases acquired = inl refl
lock_cases already_running = inr (inl refl)
lock_cases unavailable = inr (inr refl)

wait_cases :
    (r : Result (Unit {0}) WaitError) → (is_gone r ≡ true) ⊎ ((e : WaitError) × (r ≡ err e))
wait_cases (ok _) = inl refl
wait_cases (err e) = inr (e, refl)

goes_on-injective : {a b : Bool} → goes_on a ≡ goes_on b → a ≡ b
goes_on-injective e = cc

exits_ne : {held : Bool} → exits ≡ goes_on held → ⊥
exits_ne e = cc

IsGranted-cons :
    (round : Round) (rounds : List Round)
    → IsBusy round
    → IsGranted rounds
    → IsGranted (round ∷ rounds)
IsGranted-cons round rounds busy (before, r, later, e, all, got) =
    (round ∷ before, r, later, ap (λ rs. round ∷ rs) e, (busy, all), got)

wait_for_lock-IsGranted :
    (held : Bool) (rounds : List Round)
    → wait_for_lock rounds ≡ goes_on held
    → (held ≡ true) × IsGranted rounds
wait_for_lock-IsGranted held [] h = absurd (exits_ne {held = held} (unfold wait_for_lock in h))
wait_for_lock-IsGranted held (round ∷ rounds) h = elim (lock_cases round.lock) [
  | inl got ↦ (
    sym (goes_on-injective (sym (wait_acquired round rounds got) ∙ h)),
    ([], round, rounds, refl, tt, got),
  )
  | inr (inr failed) ↦ absurd (exits_ne (sym (wait_unavailable round rounds failed) ∙ h))
  | inr (inl taken) ↦
      let h' = sym (wait_taken round rounds taken) ∙ h in
      elim (wait_cases round.parent_wait) [
        | inl gone ↦
            absurd (exits_ne (sym (ap (λ b. if b then exits else wait_for_lock rounds) gone) ∙ h'))
        | inr (e, failed) ↦
            let (kept, granted) =
              wait_for_lock-IsGranted held rounds
                (sym (ap (λ r. if is_gone r then exits else wait_for_lock rounds) failed) ∙ h') in
            (kept, IsGranted-cons round rounds (taken, (e, failed)) granted)
      ]
]

wait_for_lock_granted :
    (busy : List Round) (round : Round) (later : List Round)
    → All IsBusy busy
    → round.lock ≡ acquired
    → wait_for_lock (busy ++ (round ∷ later)) ≡ goes_on true
wait_for_lock_granted [] round later all got = wait_acquired round later got
wait_for_lock_granted (first ∷ busy) round later ((taken, (e, failed)), all) got =
    wait_taken first (busy ++ (round ∷ later)) taken
    ∙ (ap (λ r. if is_gone r then exits else wait_for_lock (busy ++ (round ∷ later))) failed
        ∙ wait_for_lock_granted busy round later all got)

-- An elevated copy goes on exactly when some round gets the lock and in all rounds before it the lock is
-- taken and the wait for the parent's exit returns an error, a timeout or another one; it holds the lock
-- then.
pub startup-IsGranted :
    (pid : ℕ) (first : LockResult) (rounds : List Round) (held : Bool)
    → 0 < pid
    → (startup pid first rounds ≡ goes_on held) ↔ ((held ≡ true) × IsGranted rounds)
startup-IsGranted pid first rounds held waits = (
  λ h. wait_for_lock-IsGranted held rounds (sym elevated ∙ h),
  λ (p : (held ≡ true) × IsGranted rounds). granted p.0 p.1,
)
  where
    elevated : startup pid first rounds ≡ wait_for_lock rounds
    elevated = unfold startup in rw (lt→ltb 0 pid waits) refl

    granted : held ≡ true → IsGranted rounds → startup pid first rounds ≡ goes_on held
    granted kept (busy, round, later, e, all, got) =
        elevated
        ∙ (ap wait_for_lock e
            ∙ (wait_for_lock_granted busy round later all got ∙ ap goes_on (sym kept)))

-- A lock that is unavailable for another reason than being taken makes an elevated copy exit, while a
-- normal launch goes on without it.
startup_unavailable :
    (pid : ℕ) (round : Round) (rounds : List Round)
    → 0 < pid
    → round.lock ≡ unavailable
    → (startup pid round.lock (round ∷ rounds) ≡ exits)
      × (startup 0 round.lock (round ∷ rounds) ≡ goes_on false)
unfolding startup
startup_unavailable pid round rounds waits failed =
    (rw (lt→ltb 0 pid waits) (wait_unavailable round rounds failed), ap try_lock failed)
