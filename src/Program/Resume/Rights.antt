-- ===== src/Program/Resume/Rights.antt =====
-- A resumed session is never refused for missing rights.
use zju_connect_gui.Base.{
  ℕ, ◌≡◌, refl, List, [], ◌∷◌, Bool, true, false, ◌&&◌, ◌||◌, none, some, arith, Bool-cases, inl,
  inr, if◌then◌else◌, sym, ap, ◌∙◌,
}
use zju_connect_gui.Text.{Text}
use zju_connect_gui.Launch.{
  LaunchOptions, Platform, windows, linux, macos, normalize_launch_options, normalize_string_list,
}
use zju_connect_gui.Proxybridge.{is_active, has_any}
use zju_connect_gui.Store.{File}
use zju_connect_gui.Store.Pending.{Codec, has_resume_connect}
use zju_connect_gui.Store.Settings.{Json, load, default_launch_options}
use zju_connect_gui.Manager.State.{Env}
use zju_connect_gui.Manager.Start.{requires_elevation, prepare_options}
use zju_connect_gui.Program.Resume.{
  flag_or_false, options_or, without_rights, start_options, resume_pending,
}

-- Normalising adds no process.
has_any-normalize :
    (values : List Text) → has_any values ≡ false → has_any (normalize_string_list values) ≡ false
unfolding normalize_string_list
has_any-normalize [] h = refl
has_any-normalize (v ∷ values) h = cc

allowed_lem :
    (platform : Platform) (elevated : Bool) (o : LaunchOptions)
    → o.tun_mode ≡ false
    → is_active platform o ≡ false
    → requires_elevation platform elevated o ≡ false
unfolding requires_elevation
allowed_lem windows elevated o tun inactive = ground arith
allowed_lem linux elevated o tun inactive = ground arith
allowed_lem macos elevated o tun inactive = refl

elevated_lem :
    (platform : Platform) (o : LaunchOptions) → requires_elevation platform true o ≡ false
unfolding requires_elevation
elevated_lem windows o = ground arith
elevated_lem linux o = ground arith
elevated_lem macos o = refl

is_active_mono :
    (platform : Platform) (o p : LaunchOptions)
    → p.proxybridge_enabled ≡ o.proxybridge_enabled
    → p.tun_mode ≡ o.tun_mode
    → (has_any o.proxybridge_processes ≡ false → has_any p.proxybridge_processes ≡ false)
    → is_active platform o ≡ false
    → is_active platform p ≡ false
unfolding is_active
is_active_mono windows o p enabled tun fewer h =
    elim (Bool-cases (has_any o.proxybridge_processes)) [
      | inl some_left ↦ ground arith
      | inr none_left ↦ ground (arith, fewer none_left)
    ]
is_active_mono linux o p enabled tun fewer h = elim (Bool-cases (has_any o.proxybridge_processes)) [
  | inl some_left ↦ ground arith
  | inr none_left ↦ ground (arith, fewer none_left)
]
is_active_mono macos o p enabled tun fewer h = refl

prepare_options_kept :
    (env : Env) (o : LaunchOptions)
    → ((prepare_options env o).proxybridge_enabled ≡ o.proxybridge_enabled)
      × ((prepare_options env o).tun_mode ≡ o.tun_mode)
      × ((prepare_options env o).proxybridge_processes
          ≡ normalize_string_list o.proxybridge_processes)
unfolding prepare_options normalize_launch_options
prepare_options_kept env o =
    elim (Bool-cases
      (env.paths.is_absolute (normalize_launch_options env.to_lowercase o).client_data_file)) [
        | inl absolute ↦ (rw absolute refl, rw absolute refl, rw absolute refl)
        | inr relative ↦ (rw relative refl, rw relative refl, rw relative refl)
      ]

-- Without TUN mode and an active bridge, the options that `start` prepares need no rights.
prepare_options_allowed :
    (env : Env) (o : LaunchOptions)
    → o.tun_mode ≡ false
    → is_active env.platform o ≡ false
    → requires_elevation env.platform env.elevated (prepare_options env o) ≡ false
prepare_options_allowed env o tun inactive =
    let (enabled, same_tun, processes) = prepare_options_kept env o in
    let p = prepare_options env o in
    allowed_lem env.platform env.elevated p (same_tun ∙ tun) (
      is_active_mono env.platform o p enabled same_tun
        (λ h. ap has_any processes ∙ has_any-normalize o.proxybridge_processes h) inactive)

without_rights_safe :
    (platform : Platform) (o : LaunchOptions)
    → ((without_rights platform false o).tun_mode ≡ false)
      × (is_active platform (without_rights platform false o) ≡ false)
unfolding without_rights
without_rights_safe platform o = elim (Bool-cases (o.tun_mode || is_active platform o)) [
  | inl needs ↦ (rw needs refl, rw needs (inactive platform))
  | inr plain ↦ rw plain (neither o.tun_mode (is_active platform o) plain)
]
  where
    inactive :
        (q : Platform)
        → is_active q (record o { tun_mode = false; proxybridge_enabled = false }) ≡ false
    inactive windows = unfold is_active in refl
    inactive linux = unfold is_active in refl
    inactive macos = unfold is_active in refl

    neither : (a b : Bool) → (a || b) ≡ false → (a ≡ false) × (b ≡ false)
    neither a b h = ground arith

allowed_for :
    (env : Env) (o : LaunchOptions) (elevated : Bool)
    → env.elevated ≡ elevated
    → requires_elevation env.platform env.elevated
        (prepare_options env (without_rights env.platform env.elevated o))
      ≡ false
allowed_for env o true e =
    ap
      (λ b.
        requires_elevation env.platform b (prepare_options env (without_rights env.platform b o)))
      e
    ∙ elevated_lem env.platform (prepare_options env (without_rights env.platform true o))
allowed_for env o false e =
    let (tun, inactive) = without_rights_safe env.platform o in
    ap
      (λ b.
        requires_elevation env.platform env.elevated
          (prepare_options env (without_rights env.platform b o)))
      e
    ∙ prepare_options_allowed env (without_rights env.platform false o) tun inactive

some-injective : {o p : LaunchOptions} → some o ≡ some p → o ≡ p
some-injective e = cc

none_ne : {o : LaunchOptions} → none ≡ some o → ⊥
none_ne e = cc

module _ (env : Env) (codec : Codec) (json : Json) where
  start_options_allowed :
      (settings : File)
      → requires_elevation env.platform env.elevated (
          prepare_options env
            (start_options env.to_lowercase env.platform codec json env.elevated settings))
        ≡ false
  unfolding start_options
  start_options_allowed settings =
      allowed_for env
        (options_or (default_launch_options env.to_lowercase env.platform)
          (load env.to_lowercase env.platform json settings))
        env.elevated refl

  abbrev is_resumed : (requested : Bool) (now : ℕ) (removable : Bool) (mark : File) → Bool
  is_resumed requested now removable mark =
      requested && flag_or_false (has_resume_connect codec now removable mark).1

  pub resume_pending_started :
      (requested : Bool) (now : ℕ) (removable : Bool) (settings mark : File)
      → (resume_pending env.to_lowercase env.platform codec json env.elevated requested now
          removable settings mark).started
        ≡ (if is_resumed requested now removable mark
            then some (start_options env.to_lowercase env.platform codec json env.elevated settings)
            else none)
  unfolding resume_pending
  resume_pending_started false now removable settings mark = refl
  resume_pending_started true now removable settings mark =
      elim (Bool-cases (flag_or_false (has_resume_connect codec now removable mark).1)) [
        | inl found ↦ rw found refl
        | inr not_found ↦ rw not_found refl
      ]

  -- What is started are the loaded options, less the features that need rights.
  started_lem :
      (requested : Bool) (now : ℕ) (removable : Bool) (settings mark : File) (o : LaunchOptions)
      → (resume_pending env.to_lowercase env.platform codec json env.elevated requested now
          removable settings mark).started
        ≡ some o
      → start_options env.to_lowercase env.platform codec json env.elevated settings ≡ o
  started_lem requested now removable settings mark o h =
      by_flag (is_resumed requested now removable mark)
        (sym (resume_pending_started requested now removable settings mark) ∙ h)
    where
      by_flag : {p : LaunchOptions} (flag : Bool) → (if flag then some p else none) ≡ some o → p ≡ o
      by_flag true e = some-injective e
      by_flag false e = absurd (none_ne e)

  -- Whatever the files hold and whether or not the copy has rights, `start` does not refuse the
  -- options that a resumed session is started with for missing rights.
  pub resume_pending_allowed :
      (requested : Bool) (now : ℕ) (removable : Bool) (settings mark : File) (o : LaunchOptions)
      → (resume_pending env.to_lowercase env.platform codec json env.elevated requested now
          removable settings mark).started
        ≡ some o
      → requires_elevation env.platform env.elevated (prepare_options env o) ≡ false
  resume_pending_allowed requested now removable settings mark o h =
      sym (
        ap (λ p. requires_elevation env.platform env.elevated (prepare_options env p))
          (started_lem requested now removable settings mark o h))
      ∙ start_options_allowed settings
