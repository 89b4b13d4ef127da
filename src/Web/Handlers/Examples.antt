-- ===== src/Web/Handlers/Examples.antt =====
-- Requests with a manager that starts every session, before there is a file of settings.
use zju_connect_gui.Base.{◌≡◌, refl, [], ◌∷◌, Bool, true, false, none, some, if◌then◌else◌}
use zju_connect_gui.Base.Results.{ok}
use zju_connect_gui.Text.{is_empty}
use zju_connect_gui.Launch.{linux}
use zju_connect_gui.Launch.Examples.{submitted, normal, ascii-IsLowercase, normal-is_valid}
use zju_connect_gui.Store.{whole, missing}
use zju_connect_gui.Store.Settings.Examples.{json, json-IsFaithful, prepared}
use zju_connect_gui.Manager.State.{new_state, snapshot, needs_elevation}
use zju_connect_gui.Manager.Start.{
  requires_elevation, prepare_options, step_start_check, claim_session, refuse,
}
use zju_connect_gui.Manager.Examples.{env}
use zju_connect_gui.Web.Handlers.{
  ProxyManager, AppState, status_ok, options, get_settings, save_settings, requested_options,
}
use zju_connect_gui.Web.Handlers.Settings.{get_settings-save_settings}
use zju_connect_gui.Web.Handlers.Validated.{IsJoin, step_start_check-requested_options}

abbrev pub proxy : ProxyManager Bool
proxy = record {
  start = λ o s. (true, ok tt);
  stop = λ s. (false, ok tt);
  submit_input = λ value kind s. (s, ok tt);
  snapshot = λ s. snapshot new_state;
}

abbrev pub app : AppState Bool
app = record { manager = false; settings = missing; elevate_tx = none }

get_settings-save_settings_example :
    let (after, response) = save_settings env.to_lowercase linux json whole submitted app in
    (response ≡ record { code = status_ok; body = options normal })
    × (get_settings env.to_lowercase linux json after
        ≡ record { code = status_ok; body = options prepared })
get_settings-save_settings_example =
    get_settings-save_settings ascii-IsLowercase linux json submitted app json-IsFaithful

submitted-requested :
    requested_options env.to_lowercase env.platform json (some submitted) missing ≡ ok normal
unfolding requested_options
submitted-requested = refl

paths-IsJoin : IsJoin env.paths.join
unfolding is_empty
paths-IsJoin [] path filled = refl
paths-IsJoin (c ∷ base) path filled = refl

step_start_check-requested_options_example : step_start_check env normal new_state ≡ (
    if requires_elevation env.platform env.elevated (prepare_options env normal)
    then refuse new_state needs_elevation
    else claim_session (prepare_options env normal) new_state)
step_start_check-requested_options_example =
    step_start_check-requested_options env paths-IsJoin ascii-IsLowercase json (some submitted)
      missing normal new_state submitted-requested normal-is_valid
