-- ===== src/Windivert/Handles/Counts.antt =====
-- How often a call is made, counted along the calls.
use zju_connect_gui.Base.{
  ℕ, zero, suc, ◌+◌, ◌≡◌, refl, List, [], ◌∷◌, ◌++◌, true, Option, none, some, arith,
}
use zju_connect_gui.Base.Results.{Result, ok, err}
use zju_connect_gui.Text.{Text}
use zju_connect_gui.Windivert.{
  ServiceState, running, start_pending, stopped, other, Call, open_manager, close_manager,
  open_service, create_service, close_service, query_status, start_service, sleep, Answers, Ran,
  first_result, poll_result, wait_until_running, start_service_and_wait,
}

-- Handles of the manager and of the service that are open, as opened and closed counts.
abbrev pub opens_manager : Call → ℕ
opens_manager (open_manager true) = 1
opens_manager _ = 0

abbrev pub closes_manager : Call → ℕ
closes_manager close_manager = 1
closes_manager _ = 0

abbrev pub opens_service : Call → ℕ
opens_service (open_service name true) = 1
opens_service (create_service name path true) = 1
opens_service _ = 0

abbrev pub closes_service : Call → ℕ
closes_service close_service = 1
closes_service _ = 0

abbrev pub queries : Call → ℕ
queries query_status = 1
queries _ = 0

abbrev pub total : (Call → ℕ) → List Call → ℕ
total f [] = 0
total f (call ∷ calls) = f call + total f calls

pub total-append :
    (f : Call → ℕ) (first rest : List Call) → total f (first ++ rest) ≡ total f first + total f rest
total-append f [] rest = omega arith
total-append f (call ∷ first) rest = omega (arith, total-append f first rest)

-- A count that the calls of `start_service_and_wait` do not change.
abbrev IsUnmoved : (Call → ℕ) → Type 0
IsUnmoved f = (f sleep ≡ 0) × (f query_status ≡ 0) × (f start_service ≡ 0)

total-poll_result :
    (f : Call → ℕ) (r : Result ServiceState Text) (rest : Ran)
    → IsUnmoved f
    → total f rest.0 ≡ 0
    → total f (poll_result r rest).0 ≡ 0
unfolding poll_result
total-poll_result f (err e) rest (s, q, b) h = omega arith
total-poll_result f (ok running) rest (s, q, b) h = omega arith
total-poll_result f (ok stopped) rest (s, q, b) h = omega arith
total-poll_result f (ok start_pending) rest (s, q, b) h = omega arith
total-poll_result f (ok other) rest (s, q, b) h = omega arith

total-wait_until_running :
    (f : Call → ℕ) (turns k : ℕ) (status : ℕ → Result ServiceState Text)
    → IsUnmoved f
    → total f (wait_until_running turns k status).0 ≡ 0
unfolding wait_until_running
total-wait_until_running f zero k status h = refl
total-wait_until_running f (suc turns) k status h =
    total-poll_result f (status k) (wait_until_running turns (suc k) status) h
      (total-wait_until_running f turns (suc k) status h)

total-first_result :
    (f : Call → ℕ) (r : Result ServiceState Text) (start_error : Option Text) (rest : Ran)
    → IsUnmoved f
    → total f rest.0 ≡ 0
    → total f (first_result r start_error rest).0 ≡ 0
total-first_result f (err e) start_error rest h z = refl
total-first_result f (ok running) start_error rest h z = refl
total-first_result f (ok start_pending) start_error rest h z = z
total-first_result f (ok stopped) none rest (s, q, b) z = omega arith
total-first_result f (ok stopped) (some e) rest (s, q, b) z = omega arith
total-first_result f (ok other) none rest (s, q, b) z = omega arith
total-first_result f (ok other) (some e) rest (s, q, b) z = omega arith

pub total-start_service_and_wait :
    (f : Call → ℕ) (answers : Answers)
    → IsUnmoved f
    → total f (start_service_and_wait answers).0 ≡ 0
unfolding start_service_and_wait
total-start_service_and_wait f answers (s, q, b) = omega (
  arith,
  total-first_result f (answers.status 0) answers.start_error
      (wait_until_running 50 1 answers.status) (s, q, b)
      (total-wait_until_running f 50 1 answers.status (s, q, b)),
)
