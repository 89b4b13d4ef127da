-- ===== src/Web/Handlers/Settings.antt =====
-- The settings that a request leaves, as the next request reads them.
use zju_connect_gui.Base.{◌≡◌, sym, ap, ◌∙◌, subst, some}
use zju_connect_gui.Base.Results.{ok}
use zju_connect_gui.Text.{Text}
use zju_connect_gui.Launch.{LaunchOptions, Platform, normalize_launch_options, validate}
use zju_connect_gui.Launch.Normal.{IsLowercase, normalize_launch_options_idem}
use zju_connect_gui.Store.{whole, File}
use zju_connect_gui.Store.Settings.{Json, apply_fixed_defaults, load, save}
use zju_connect_gui.Store.Settings.SaveLoad.{IsFaithful, load-save}
use zju_connect_gui.Web.Handlers.{
  ProxyManager, AppState, status_ok, options, settings_response, saved_response, get_settings,
  save_settings, requested_options, save_and_start, start_proxy,
}

module _ {to_lowercase : Text → Text} (laws : IsLowercase to_lowercase) (platform : Platform)
    (json : Json) where
  -- The normal form of a request, and what is kept of it.
  abbrev pub normal : LaunchOptions → LaunchOptions
  normal = normalize_launch_options to_lowercase

  abbrev pub kept : LaunchOptions → LaunchOptions
  kept raw = apply_fixed_defaults (normal raw)

  pub load-save-normal :
      (raw : LaunchOptions) (settings : File)
      → IsFaithful json (kept raw)
      → let (saved, written) = save to_lowercase platform json whole (normal raw) settings in
        (written ≡ ok tt) × (load to_lowercase platform json saved ≡ ok (kept raw))
  load-save-normal raw settings faithful =
      let e = normalize_launch_options_idem laws raw in
      let (written, loaded) =
        load-save laws platform json (normal raw) settings
          (subst (λ o. IsFaithful json (apply_fixed_defaults o)) (sym e) faithful) in
      (written, loaded ∙ ap (λ o. ok (apply_fixed_defaults o)) e)

  -- With a codec that reads back the record it writes, and a file that can be written, `save_settings`
  -- answers with the normal form of its request, and `get_settings` after it with the same options but
  -- the fixed settings; `to_lowercase` keeps lower-case text and trimmed text.
  pub get_settings-save_settings :
      {M : Type 0} (raw : LaunchOptions) (app : AppState M)
      → IsFaithful json (kept raw)
      → let (after, response) = save_settings to_lowercase platform json whole raw app in
        (response ≡ record { code = status_ok; body = options (normal raw) })
        × (get_settings to_lowercase platform json after
            ≡ record { code = status_ok; body = options (kept raw) })
  unfolding save_settings get_settings
  get_settings-save_settings {M} raw app faithful =
      let (written, loaded) = load-save-normal raw app.settings faithful in
      (ap (saved_response (normal raw)) written, ap settings_response loaded)

  -- The same codec and file: a request to start with options whose normal form is valid leaves them as
  -- the settings, with the fixed ones, whatever the manager does with the start.
  get_settings-start_proxy :
      {M : Type 0} (proxy : ProxyManager M) (raw : LaunchOptions) (app : AppState M)
      → IsFaithful json (kept raw)
      → validate (normal raw) ≡ ok tt
      → get_settings to_lowercase platform json
          (start_proxy to_lowercase platform json proxy whole (some raw) app).0
        ≡ record { code = status_ok; body = options (kept raw) }
  unfolding get_settings start_proxy requested_options save_and_start
  get_settings-start_proxy {M} proxy raw app faithful valid =
      rw valid (ap settings_response (load-save-normal raw app.settings faithful).1)
