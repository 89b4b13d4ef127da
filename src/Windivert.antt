-- ===== src/Windivert.antt =====
-- src/backend/proxy/windivert.rs on Windows: the kernel driver that ProxyBridge needs. The calls of the
-- system are recorded in order; what they answer is a parameter.
pub mod Handles
pub mod Running
mod Examples
use zju_connect_gui.Base.{
  zero, suc, ℕ, ◌+◌, List, [], ◌∷◌, ◌++◌, Bool, true, false, Option, none, some, if◌then◌else◌,
}
use zju_connect_gui.Base.Results.{Result, ok, err}
use zju_connect_gui.Text.{Text, codes}
use zju_connect_gui.Proxybridge.{Paths}

abbrev pub win_divert_service : Text
win_divert_service = codes "WinDivert"

abbrev pub driver_file_name : Text
driver_file_name = codes "WinDivert64.sys"

abbrev pub driver_install_dir : Text
driver_install_dir = codes "C:\\Windows\\System32\\drivers"

abbrev pub dll_file_name : Text
dll_file_name = codes "WinDivert.dll"

-- `dwCurrentState`, as far as the code tells its values apart.
pub data ServiceState : Type 0 where
  running start_pending stopped other : ServiceState

pub data Call : Type 0 where
  open_manager : (opened : Bool) → Call
  open_service : (name : Text) (opened : Bool) → Call
  create_service : (name path : Text) (created : Bool) → Call
  close_manager : Call
  close_service query_status start_service sleep : Call
  copy_file : (from to : Text) → Call

-- What the calls answer: an error is its text, and `status k` is what query `k` reads.
pub record Answers : Type 0 where
  pub manager_error : Option Text
  pub installed : Bool
  pub is_file : Text → Bool
  pub copy_error : Text → Option Text
  pub create_error : Option Text
  pub start_error : Option Text
  pub status : ℕ → Result ServiceState Text

abbrev pub Ran : Type 0
Ran = List Call × Result (Unit {0}) Text

abbrev pub failed : List Call → Text → Ran
failed calls why = (calls, err why)

abbrev pub after : List Call → Ran → Ran
after calls (later, result) = (calls ++ later, result)

abbrev query_failed : Text → Text
query_failed e = codes "QueryServiceStatus failed: " ++ e

abbrev poll_calls : List Call
poll_calls = sleep ∷ query_status ∷ []

-- What is made of one answer in the loop; `later` are the turns that are left.
unfoldable pub poll_result : Result ServiceState Text → (later : Ran) → Ran
poll_result (err e) later = failed poll_calls (query_failed e)
poll_result (ok running) later = (poll_calls, ok tt)
poll_result (ok stopped) later =
    failed poll_calls (codes "WinDivert service stopped immediately after start")
poll_result (ok start_pending) later = after poll_calls later
poll_result (ok other) later = after poll_calls later

-- The loop, with `turns` turns left, of which the next reads query `k`.
unfoldable pub wait_until_running : (turns k : ℕ) (status : ℕ → Result ServiceState Text) → Ran
unfolding poll_result
wait_until_running zero k status =
    failed [] (codes "WinDivert service did not reach RUNNING within 5s")
wait_until_running (suc turns) k status =
    poll_result (status k) (wait_until_running turns (suc k) status)

abbrev pub started : Option Text → (later : Ran) → Ran
started (some e) later =
    failed (start_service ∷ []) (codes "failed to start WinDivert service: " ++ e)
started none later = after (start_service ∷ []) later

-- What is made of the first answer.
abbrev pub first_result :
    Result ServiceState Text → (start_error : Option Text) → (later : Ran) → Ran
first_result (err e) start_error later = failed [] (query_failed e)
first_result (ok running) start_error later = ([], ok tt)
first_result (ok start_pending) start_error later = later
first_result (ok stopped) start_error later = started start_error later
first_result (ok other) start_error later = started start_error later

unfoldable pub start_service_and_wait : Answers → Ran
start_service_and_wait answers =
    after (query_status ∷ [])
      (first_result (answers.status 0) answers.start_error (wait_until_running 50 1 answers.status))

abbrev pub closed : List Call → Ran → Ran
closed closing (calls, result) = (calls ++ closing, result)

abbrev pub bin_path : Text
bin_path = codes "\\SystemRoot\\System32\\drivers\\" ++ driver_file_name

module _ (paths : Paths) where
  -- A failed copy of the library is logged only.
  abbrev pub copy_dll : Answers → (app_dir : Text) → List Call
  copy_dll answers app_dir =
      let dll_src = paths.join (paths.join app_dir (codes "proxybridge")) dll_file_name in
      if answers.is_file dll_src
      then copy_file dll_src (paths.join app_dir dll_file_name) ∷ []
      else []

  abbrev pub registered : Answers → Option Text → Ran
  registered answers (some e) =
      failed (create_service win_divert_service bin_path false ∷ [])
        (codes "failed to register WinDivert service: " ++ e)
  registered answers none =
      after (create_service win_divert_service bin_path true ∷ [])
        (closed (close_service ∷ []) (start_service_and_wait answers))

  abbrev pub copied : Answers → (app_dir sys_src : Text) → Option Text → Ran
  copied answers app_dir sys_src (some e) =
      failed (copy_file sys_src (paths.join driver_install_dir driver_file_name) ∷ [])
        (codes "failed to install driver file into System32\\drivers: " ++ e)
  copied answers app_dir sys_src none =
      after (copy_file sys_src (paths.join driver_install_dir driver_file_name) ∷ [])
        (after (copy_dll answers app_dir) (registered answers answers.create_error))

  unfoldable pub install_driver : Answers → (app_dir : Text) → Ran
  unfolding start_service_and_wait
  install_driver answers app_dir =
      let sys_src = paths.join (paths.join app_dir (codes "proxybridge")) driver_file_name in
      if answers.is_file sys_src
      then copied answers app_dir sys_src (answers.copy_error sys_src)
      else failed []
          (codes "WinDivert driver is not installed and no bundled copy was found at " ++ sys_src)

  unfoldable pub ensure_impl : Answers → (app_dir : Text) → Ran
  unfolding install_driver start_service_and_wait
  ensure_impl answers app_dir = after (open_service win_divert_service answers.installed ∷ []) (
      if answers.installed
      then closed (close_service ∷ []) (start_service_and_wait answers)
      else install_driver answers app_dir)

  abbrev pub manager_opened : Answers → (app_dir : Text) → Option Text → Ran
  manager_opened answers app_dir (some e) =
      failed (open_manager false ∷ [])
        (codes "cannot open service manager: " ++ (e ++ codes " (requires administrator)"))
  manager_opened answers app_dir none =
      after (open_manager true ∷ []) (closed (close_manager ∷ []) (ensure_impl answers app_dir))

  unfoldable pub ensure_windivert_driver : Answers → (app_dir : Text) → Ran
  unfolding ensure_impl
  ensure_windivert_driver answers app_dir = manager_opened answers app_dir answers.manager_error
