-- ===== src/Windivert/Running.antt =====
-- When the driver counts as started.
use zju_connect_gui.Base.{
  zero, suc, ℕ, ◌<◌, ◌≡◌, ◌↔◌, ◌⊎◌, inl, inr, refl, sym, ◌∙◌, Option, none, some, arith,
}
use zju_connect_gui.Base.Results.{Result, ok, err}
use zju_connect_gui.Text.{Text}
use zju_connect_gui.Windivert.{
  ServiceState, running, start_pending, stopped, other, Answers, Ran, first_result, poll_result,
  wait_until_running, start_service_and_wait,
}

-- The service is neither running nor stopped.
abbrev IsStarting : Result ServiceState Text → Type 0
IsStarting r = (r ≡ ok start_pending) ⊎ (r ≡ ok other)

-- From query `k` on, `n` queries find the service starting, and the next finds it running.
pub data RunsAfter (status : ℕ → Result ServiceState Text) : (k n : ℕ) → Type 0 where
  now : {k : ℕ} → status k ≡ ok running → RunsAfter status k zero
  later :
      {k n : ℕ} → IsStarting (status k) → RunsAfter status (suc k) n → RunsAfter status k (suc n)

abbrev pub RunsWithin : (turns k : ℕ) (status : ℕ → Result ServiceState Text) → Type 0
RunsWithin turns k status = (n : ℕ) × (n < turns) × RunsAfter status k n

data Polled (r : Result ServiceState Text) : Type 0 where
  polled_running : r ≡ ok running → Polled r
  polled_starting : IsStarting r → Polled r
  polled_over : ((rest : Ran) → ¬ ((poll_result r rest).1 ≡ ok tt)) → Polled r

answer_cases : (r : Result ServiceState Text) → Polled r
unfolding poll_result
answer_cases (ok running) = polled_running refl
answer_cases (ok start_pending) = polled_starting (inl refl)
answer_cases (ok other) = polled_starting (inr refl)
answer_cases (ok stopped) = polled_over (λ rest h. cc)
answer_cases (err e) = polled_over (λ rest h. cc)

poll_result_starting :
    (r : Result ServiceState Text) (rest : Ran) → IsStarting r → (poll_result r rest).1 ≡ rest.1
unfolding poll_result
poll_result_starting r rest (inl e) = rw (e, poll_result) refl
poll_result_starting r rest (inr e) = rw (e, poll_result) refl

poll_result_running :
    (r : Result ServiceState Text) (rest : Ran) → r ≡ ok running → (poll_result r rest).1 ≡ ok tt
unfolding poll_result
poll_result_running r rest e = rw (e, poll_result) refl

module _ (status : ℕ → Result ServiceState Text) where
  wait_sound :
      (turns k : ℕ) → (wait_until_running turns k status).1 ≡ ok tt → RunsWithin turns k status
  unfolding wait_until_running
  wait_sound zero k h = cc
  wait_sound (suc turns) k h = elim (answer_cases (status k)) [
    | polled_running e ↦ (zero, omega arith, now e)
    | polled_starting s ↦
        let (n, fits, runs) =
          wait_sound turns (suc k) (
            sym (poll_result_starting (status k) (wait_until_running turns (suc k) status) s)
            ∙ h) in
        (suc n, omega arith, later s runs)
    | polled_over never ↦ absurd (never (wait_until_running turns (suc k) status) h)
  ]

  wait_complete :
      (turns k n : ℕ)
      → n < turns
      → RunsAfter status k n
      → (wait_until_running turns k status).1 ≡ ok tt
  unfolding wait_until_running
  wait_complete zero k n fits runs = absurd (omega arith)
  wait_complete (suc turns) k _ fits (now e) = poll_result_running (status k) _ e
  wait_complete (suc turns) k _ fits (later {n = n} s runs) =
      poll_result_starting (status k) (wait_until_running turns (suc k) status) s
      ∙ wait_complete turns (suc k) n (omega arith) runs

-- The service is starting already, or is in another state and can be started.
abbrev pub IsStarted : Result ServiceState Text → (start_error : Option Text) → Type 0
IsStarted first start_error =
    (first ≡ ok start_pending)
    ⊎ (((first ≡ ok stopped) ⊎ (first ≡ ok other)) × (start_error ≡ none))

first_result_iff :
    (first : Result ServiceState Text) (start_error : Option Text) (rest : Ran)
    → ((first_result first start_error rest).1 ≡ ok tt)
      ↔ ((first ≡ ok running) ⊎ (IsStarted first start_error × (rest.1 ≡ ok tt)))
first_result_iff (err e) start_error rest = ground arith
first_result_iff (ok running) start_error rest = (λ h. inl refl, λ h. refl)
first_result_iff (ok start_pending) start_error rest = ground arith
first_result_iff (ok stopped) none rest = ground arith
first_result_iff (ok stopped) (some e) rest = ground arith
first_result_iff (ok other) none rest = ground arith
first_result_iff (ok other) (some e) rest = ground arith

-- The driver counts as started exactly when the first query finds it running, or when it is starting or
-- can be started and one of the fifty queries that follow finds it running, all before that finding it
-- neither running nor stopped.
pub start_service_and_wait_iff :
    (answers : Answers)
    → ((start_service_and_wait answers).1 ≡ ok tt) ↔ (
        (answers.status 0 ≡ ok running)
        ⊎ (IsStarted (answers.status 0) answers.start_error × RunsWithin 50 1 answers.status))
unfolding start_service_and_wait
start_service_and_wait_iff answers =
    let first =
      first_result_iff (answers.status 0) answers.start_error
        (wait_until_running 50 1 answers.status) in
    (λ h. to (first.0 h), λ h. first.1 (fro h))
  where
    to :
        (answers.status 0 ≡ ok running)
          ⊎ (IsStarted (answers.status 0) answers.start_error
              × ((wait_until_running 50 1 answers.status).1 ≡ ok tt))
        → (answers.status 0 ≡ ok running)
          ⊎ (IsStarted (answers.status 0) answers.start_error × RunsWithin 50 1 answers.status)
    to (inl e) = inl e
    to (inr (s, h)) = inr (s, wait_sound answers.status 50 1 h)

    fro :
        (answers.status 0 ≡ ok running)
          ⊎ (IsStarted (answers.status 0) answers.start_error × RunsWithin 50 1 answers.status)
        → (answers.status 0 ≡ ok running)
          ⊎ (IsStarted (answers.status 0) answers.start_error
              × ((wait_until_running 50 1 answers.status).1 ≡ ok tt))
    fro (inl e) = inl e
    fro (inr (s, (n, fits, runs))) = inr (s, wait_complete answers.status 50 1 n fits runs)
