-- ===== src/Program/Shutdown/Bounded.antt =====
-- How long the shutdown waits.
use zju_connect_gui.Base.{
  ℕ, zero, suc, ap, ◌∙◌, List, [], ◌∷◌, length, All, ◌*◌, ◌||◌, not, ◌+◌, ◌≤◌, ◌≡◌, ◌⊎◌, inl, inr,
  refl, Bool, true, false, Option, is_some, arith, Bool-cases,
}
use zju_connect_gui.Program.Shutdown.{wait_for_child, shutdown}

-- From snapshot `k` on, `n` snapshots show a child, one after the other.
pub data ShowsChild (child : ℕ → Option ℕ) : (k n : ℕ) → Type 0 where
  no_more : {k : ℕ} → ShowsChild child k zero
  shown :
      {k n : ℕ} → is_some (child k) ≡ true → ShowsChild child (suc k) n → ShowsChild child k (suc n)

unfoldable pub sum : List ℕ → ℕ
sum [] = 0
sum (n ∷ ns) = n + sum ns

wait_for_child-ShowsChild :
    (turns k : ℕ) (child : ℕ → Option ℕ)
    → let sleeps = wait_for_child turns k child in
      let n = length sleeps in
      (n ≤ turns)
      × All (λ ms. ms ≡ 100) sleeps
      × (sum sleeps ≡ 100 * n)
      × ShowsChild child k n
      × ((n ≡ turns) ⊎ (is_some (child (k + n)) ≡ false))
unfolding wait_for_child sum
wait_for_child-ShowsChild zero k child = (omega arith, tt, omega arith, no_more, inl refl)
wait_for_child-ShowsChild (suc turns) k child = elim (Bool-cases (is_some (child k))) [
  | inl there ↦
      let n = length (wait_for_child turns (suc k) child) in
      let (bound, each, total, shows, rest) = wait_for_child-ShowsChild turns (suc k) child in
      rw there
        (omega (arith, bound), (refl, each), omega (arith, total), shown there shows, ended n rest)
  | inr gone ↦
      rw gone (omega arith, tt, omega arith, no_more, inr (at k (k + 0) gone (omega arith)))
]
  where
    at : (m m1 : ℕ) → is_some (child m) ≡ false → m1 ≡ m → is_some (child m1) ≡ false
    at m m1 h e = ap (λ j. is_some (child j)) e ∙ h

    ended :
        (n : ℕ)
        → (n ≡ turns) ⊎ (is_some (child (suc k + n)) ≡ false)
        → (suc n ≡ suc turns) ⊎ (is_some (child (k + suc n)) ≡ false)
    ended n (inl e) = inl (ap suc e)
    ended n (inr e) = inr (at (suc k + n) (k + suc n) e (omega arith))

-- A shutdown of a running session asks the manager to stop and then sleeps at most seventy times, for a
-- hundred milliseconds each time, at most seven seconds in all. It looks for the child before every sleep
-- and finds it, and it ends early only when a snapshot shows no child. Without a session, and after a
-- relaunch, it does not sleep.
pub shutdown-ShowsChild :
    (relaunched running : Bool) (child : ℕ → Option ℕ)
    → let ended = shutdown relaunched running child in
      let n = length ended.sleeps in
      All (λ ms. ms ≡ 100) ended.sleeps
      × (sum ended.sleeps ≤ 7000)
      × ShowsChild child 0 n
      × (((ended.stop_called ≡ false) × (n ≡ 0) × ((relaunched || not running) ≡ true))
          ⊎ ((ended.stop_called ≡ true) × ((n ≡ 70) ⊎ (is_some (child n) ≡ false))))
unfolding shutdown sum
shutdown-ShowsChild true running child = (tt, omega arith, no_more, inl (refl, refl, refl))
shutdown-ShowsChild false false child = (tt, omega arith, no_more, inl (refl, refl, refl))
shutdown-ShowsChild false true child =
    let n = length (wait_for_child 70 0 child) in
    let (bound, each, total, shows, rest) = wait_for_child-ShowsChild 70 0 child in
    (each, omega (arith, bound, total), shows, inr (refl, from_zero n rest))
  where
    from_zero :
        (n : ℕ)
        → (n ≡ 70) ⊎ (is_some (child (0 + n)) ≡ false)
        → (n ≡ 70) ⊎ (is_some (child n) ≡ false)
    from_zero n (inl e) = inl e
    from_zero n (inr e) = inr (ap (λ j. is_some (child j)) (omega arith) ∙ e)
