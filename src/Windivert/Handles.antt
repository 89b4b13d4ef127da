-- ===== src/Windivert/Handles.antt =====
-- Which calls are made, whatever they answer.
pub mod Counts
use zju_connect_gui.Base.{
  ◌+◌, ◌≡◌, refl, List, [], ◌∷◌, ◌++◌, Bool, true, false, Option, none, some, arith, Bool-cases,
  inl, inr, if◌then◌else◌,
}
use zju_connect_gui.Text.{Text, codes}
use zju_connect_gui.Proxybridge.{Paths}
use zju_connect_gui.Windivert.{
  Call, close_manager, open_service, create_service, close_service, copy_file, Answers, after,
  closed, start_service_and_wait, copy_dll, registered, copied, install_driver, ensure_impl,
  driver_install_dir, win_divert_service, bin_path, dll_file_name, driver_file_name, manager_opened,
  ensure_windivert_driver,
}
use zju_connect_gui.Windivert.Handles.Counts.{
  opens_manager, closes_manager, opens_service, closes_service, total, total-append,
  total-start_service_and_wait,
}

-- The handles of the service that are opened are closed, and none of the manager is.
abbrev IsEven : List Call → Type 0
IsEven calls =
    (total opens_service calls ≡ total closes_service calls)
    × (total opens_manager calls ≡ 0)
    × (total closes_manager calls ≡ 0)

IsEven-append : (first rest : List Call) → IsEven first → IsEven rest → IsEven (first ++ rest)
IsEven-append first rest (e, m, n) (e1, m1, n1) = (
  omega (arith, total-append opens_service first rest, total-append closes_service first rest),
  omega (arith, total-append opens_manager first rest),
  omega (arith, total-append closes_manager first rest),
)

IsEven-cons :
    (call : Call) (rest : List Call)
    → opens_service call ≡ 0
    → closes_service call ≡ 0
    → opens_manager call ≡ 0
    → closes_manager call ≡ 0
    → IsEven rest
    → IsEven (call ∷ rest)
IsEven-cons call rest e c m n (e1, m1, n1) = (omega arith, omega arith, omega arith)

-- A service that has been opened is used and closed.
opened-IsEven :
    (open_call : Call) (answers : Answers)
    → opens_service open_call ≡ 1
    → closes_service open_call ≡ 0
    → opens_manager open_call ≡ 0
    → closes_manager open_call ≡ 0
    → IsEven
        (after (open_call ∷ []) (closed (close_service ∷ []) (start_service_and_wait answers))).0
opened-IsEven open_call answers e c m n =
    let calls = (start_service_and_wait answers).0 in
    (
      omega (
        arith,
        total-append opens_service calls (close_service ∷ []),
        total-append closes_service calls (close_service ∷ []),
        total-start_service_and_wait opens_service answers (refl, refl, refl),
        total-start_service_and_wait closes_service answers (refl, refl, refl),
      ),
      omega (
        arith,
        total-append opens_manager calls (close_service ∷ []),
        total-start_service_and_wait opens_manager answers (refl, refl, refl),
      ),
      omega (
        arith,
        total-append closes_manager calls (close_service ∷ []),
        total-start_service_and_wait closes_manager answers (refl, refl, refl),
      ),
    )

module _ (paths : Paths) (answers : Answers) (app_dir : Text) where
  copy_dll-IsEven : IsEven (copy_dll paths answers app_dir)
  copy_dll-IsEven =
      elim (Bool-cases
        (answers.is_file (paths.join (paths.join app_dir (codes "proxybridge")) dll_file_name))) [
          | inl there ↦ rw there (refl, refl, refl)
          | inr gone ↦ rw gone (refl, refl, refl)
        ]

  registered-IsEven : (e : Option Text) → IsEven (registered paths answers e).0
  registered-IsEven (some e) = (refl, refl, refl)
  registered-IsEven none =
      opened-IsEven (create_service win_divert_service bin_path true) answers refl refl refl refl

  copied-IsEven :
      (sys_src : Text) (e : Option Text) → IsEven (copied paths answers app_dir sys_src e).0
  copied-IsEven sys_src (some e) = (refl, refl, refl)
  copied-IsEven sys_src none =
      let registering = registered paths answers answers.create_error in
      IsEven-cons (copy_file sys_src (paths.join driver_install_dir driver_file_name))
        (copy_dll paths answers app_dir ++ registering.0) refl refl refl refl
        (IsEven-append (copy_dll paths answers app_dir) registering.0 copy_dll-IsEven
          (registered-IsEven answers.create_error))

  install_driver-IsEven : IsEven (install_driver paths answers app_dir).0
  unfolding install_driver
  install_driver-IsEven =
      let sys_src = paths.join (paths.join app_dir (codes "proxybridge")) driver_file_name in
      elim (Bool-cases (answers.is_file sys_src)) [
        | inl there ↦ rw there (copied-IsEven sys_src (answers.copy_error sys_src))
        | inr gone ↦ rw gone (refl, refl, refl)
      ]

  ensure_impl-IsEven : IsEven (ensure_impl paths answers app_dir).0
  unfolding ensure_impl
  ensure_impl-IsEven = by_installed answers.installed
    where
      by_installed :
          (installed : Bool)
          → IsEven
              (after (open_service win_divert_service installed ∷ []) (
                if installed
                then closed (close_service ∷ []) (start_service_and_wait answers)
                else install_driver paths answers app_dir)).0
      by_installed true =
          opened-IsEven (open_service win_divert_service true) answers refl refl refl refl
      by_installed false =
          IsEven-cons (open_service win_divert_service false)
            (install_driver paths answers app_dir).0 refl refl refl refl install_driver-IsEven

  -- Whatever the system answers, every handle of the service manager and of the service that
  -- `ensure_windivert_driver` opens or creates is closed when it returns.
  pub ensure_windivert_driver_closes :
      let calls = (ensure_windivert_driver paths answers app_dir).0 in
      (total opens_manager calls ≡ total closes_manager calls)
      × (total opens_service calls ≡ total closes_service calls)
  unfolding ensure_windivert_driver
  ensure_windivert_driver_closes = by_manager answers.manager_error
    where
      by_manager :
          (e : Option Text)
          → let calls = (manager_opened paths answers app_dir e).0 in
            (total opens_manager calls ≡ total closes_manager calls)
            × (total opens_service calls ≡ total closes_service calls)
      by_manager (some e) = (refl, refl)
      by_manager none =
          let calls = (ensure_impl paths answers app_dir).0 in
          let (e, m, n) = ensure_impl-IsEven in
          (
            omega (
              arith,
              total-append opens_manager calls (close_manager ∷ []),
              total-append closes_manager calls (close_manager ∷ []),
            ),
            omega (
              arith,
              total-append opens_service calls (close_manager ∷ []),
              total-append closes_service calls (close_manager ∷ []),
            ),
          )
