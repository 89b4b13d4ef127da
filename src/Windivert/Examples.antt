-- ===== src/Windivert/Examples.antt =====
-- An installed driver that is stopped, and runs at the second query after its start.
use zju_connect_gui.Base.{zero, suc, ◌≡◌, ◌↔◌, ◌⊎◌, true, none}
use zju_connect_gui.Base.Results.{ok}
use zju_connect_gui.Manager.Examples.{paths}
use zju_connect_gui.Text.{codes}
use zju_connect_gui.Windivert.{
  Answers, running, start_pending, stopped, start_service_and_wait, ensure_windivert_driver,
}
use zju_connect_gui.Windivert.Running.{IsStarted, RunsWithin, start_service_and_wait_iff}
use zju_connect_gui.Windivert.Handles.{ensure_windivert_driver_closes}
use zju_connect_gui.Windivert.Handles.Counts.{
  total, opens_manager, closes_manager, opens_service, closes_service,
}

abbrev answers : Answers
answers = record {
  manager_error = none;
  installed = true;
  is_file = λ path. true;
  copy_error = λ path. none;
  create_error = none;
  start_error = none;
  status = λ k. elim k [
    | zero ↦ ok stopped
    | suc n ↦ elim n [ zero ↦ ok start_pending | suc m ↦ ok running ]
  ];
}

start_service_and_wait_iff_example : ((start_service_and_wait answers).1 ≡ ok tt) ↔ (
    (answers.status 0 ≡ ok running)
    ⊎ (IsStarted (answers.status 0) answers.start_error × RunsWithin 50 1 answers.status))
start_service_and_wait_iff_example = start_service_and_wait_iff answers

ensure_windivert_driver_closes_example :
    let calls = (ensure_windivert_driver paths answers (codes "/opt/zju")).0 in
    (total opens_manager calls ≡ total closes_manager calls)
    × (total opens_service calls ≡ total closes_service calls)
ensure_windivert_driver_closes_example =
    ensure_windivert_driver_closes paths answers (codes "/opt/zju")
