-- ===== src/Store/Settings/SaveLoad.antt =====
-- What is saved is loaded again, and the fixed settings cannot be changed through the file.
use zju_connect_gui.Base.{◌≡◌, refl, subst, ap, ◌∙◌, Bool, true, Option, none, some}
use zju_connect_gui.Base.Results.{Result, ok, err, ◌>>=◌}
use zju_connect_gui.Text.{Text, codes}
use zju_connect_gui.Launch.{
  LaunchOptions, Platform, normalize_launch_options, default_protocol, default_server, default_port,
  default_secondary_dns_server, default_auth_type, default_login_domain, default_client_data_file,
}
use zju_connect_gui.Launch.Normal.{IsLowercase, normalize_launch_options_idem}
use zju_connect_gui.Store.{whole, Bytes, File, missing, unreadable, holds, write_private}
use zju_connect_gui.Store.Settings.{
  Json, SettingsError, apply_fixed_defaults, default_launch_options, complete, load, save,
  or_parse_error,
}

-- `serde_json` writes the record, reads it back, and the keys of the record are in its value.
abbrev pub IsFaithful : Json → LaunchOptions → Type 0
IsFaithful json o =
    (bytes : Bytes) × (raw : json.Value) × (json.to_vec_pretty o ≡ some bytes)
    × (json.from_slice bytes ≡ some raw)
    × (json.from_value raw ≡ some o)
    × (json.contains_key (codes "eipAutoOpen") raw ≡ true)
    × (json.contains_key (codes "proxybridgeProcesses") raw ≡ true)

-- The seven settings that users cannot choose.
abbrev IsFixed : LaunchOptions → Type 0
IsFixed o =
    (o.protocol ≡ default_protocol)
    × (o.server ≡ default_server)
    × (o.port ≡ default_port)
    × (o.secondary_dns_server ≡ default_secondary_dns_server)
    × (o.auth_type ≡ default_auth_type)
    × (o.login_domain ≡ default_login_domain)
    × (o.client_data_file ≡ default_client_data_file)

complete-IsFixed :
    (to_lowercase : Text → Text) (platform : Platform) (eip processes : Bool) (o : LaunchOptions)
    → IsFixed (complete to_lowercase platform eip processes o)
unfolding complete apply_fixed_defaults
complete-IsFixed to_lowercase platform eip processes o = (refl, refl, refl, refl, refl, refl, refl)

abbrev IsFixedIfOk : Result LaunchOptions SettingsError → Type 0
IsFixedIfOk (ok o) = IsFixed o
IsFixedIfOk (err e) = Unit

value-IsFixed :
    (to_lowercase : Text → Text) (platform : Platform) (eip processes : Bool)
    (value : Option LaunchOptions)
    → IsFixedIfOk
        (or_parse_error value >>= λ o. ok (complete to_lowercase platform eip processes o))
value-IsFixed to_lowercase platform eip processes none = tt
value-IsFixed to_lowercase platform eip processes (some o) =
    complete-IsFixed to_lowercase platform eip processes o

bytes-IsFixed :
    (to_lowercase : Text → Text) (platform : Platform) (json : Json) (value : Option json.Value)
    → IsFixedIfOk (
        or_parse_error value >>= λ raw. or_parse_error (json.from_value raw) >>= λ o. ok (
          complete to_lowercase platform
            (json.contains_key (codes "eipAutoOpen") raw)
            (json.contains_key (codes "proxybridgeProcesses") raw)
            o))
bytes-IsFixed to_lowercase platform json none = tt
bytes-IsFixed to_lowercase platform json (some raw) =
    value-IsFixed to_lowercase platform (json.contains_key (codes "eipAutoOpen") raw)
      (json.contains_key (codes "proxybridgeProcesses") raw) (json.from_value raw)

load-IsFixedIfOk :
    (to_lowercase : Text → Text) (platform : Platform) (json : Json) (file : File)
    → IsFixedIfOk (load to_lowercase platform json file)
unfolding load default_launch_options
load-IsFixedIfOk to_lowercase platform json missing = (refl, refl, refl, refl, refl, refl, refl)
load-IsFixedIfOk to_lowercase platform json unreadable = tt
load-IsFixedIfOk to_lowercase platform json (holds bytes) =
    bytes-IsFixed to_lowercase platform json (json.from_slice bytes)

-- Whatever the file holds, if options are loaded, then they have the fixed protocol, server, port, DNS
-- server, kind of authentication, login domain and client data file.
load-IsFixed :
    (to_lowercase : Text → Text) (platform : Platform) (json : Json) (file : File)
    (o : LaunchOptions)
    → load to_lowercase platform json file ≡ ok o
    → IsFixed o
load-IsFixed to_lowercase platform json file o h =
    subst IsFixedIfOk h (load-IsFixedIfOk to_lowercase platform json file)

module _ {to_lowercase : Text → Text} (laws : IsLowercase to_lowercase) where
  prepared_idem :
      (o : LaunchOptions)
      → apply_fixed_defaults (
          normalize_launch_options to_lowercase
            (apply_fixed_defaults (normalize_launch_options to_lowercase o)))
        ≡ apply_fixed_defaults (normalize_launch_options to_lowercase o)
  unfolding apply_fixed_defaults normalize_launch_options
  prepared_idem o = ap apply_fixed_defaults (normalize_launch_options_idem laws o)

  save_written :
      (platform : Platform) (json : Json) (o : LaunchOptions) (file : File) {bytes : Bytes}
      → json.to_vec_pretty (apply_fixed_defaults (normalize_launch_options to_lowercase o))
        ≡ some bytes
      → save to_lowercase platform json whole o file ≡ (holds bytes, ok tt)
  unfolding save write_private
  save_written platform json o file e = rw (e, save) refl

  load_written :
      (platform : Platform) (json : Json) (o : LaunchOptions) {bytes : Bytes} {raw : json.Value}
      → json.from_slice bytes ≡ some raw
      → json.from_value raw ≡ some o
      → json.contains_key (codes "eipAutoOpen") raw ≡ true
      → json.contains_key (codes "proxybridgeProcesses") raw ≡ true
      → load to_lowercase platform json (holds bytes)
        ≡ ok (apply_fixed_defaults (normalize_launch_options to_lowercase o))
  unfolding load complete
  load_written platform json o e1 e2 e3 e4 = rw (e1, e2, e3, e4) refl

  -- With a codec that reads back the record it writes, and a file that can be written, options that
  -- are saved are loaded as the normalised options with the fixed settings, whatever was saved before;
  -- `to_lowercase` keeps lower-case text and trimmed text.
  pub load-save :
      (platform : Platform) (json : Json) (o : LaunchOptions) (file : File)
      → IsFaithful json (apply_fixed_defaults (normalize_launch_options to_lowercase o))
      → let (saved, written) = save to_lowercase platform json whole o file in
        (written ≡ ok tt)
        × (load to_lowercase platform json saved
            ≡ ok (apply_fixed_defaults (normalize_launch_options to_lowercase o)))
  load-save platform json o file faithful =
      let prepared = apply_fixed_defaults (normalize_launch_options to_lowercase o) in
      let (bytes, raw, e, e1, e2, e3, e4) = faithful in
      rw (save_written platform json o file e)
        (refl, load_written platform json prepared e1 e2 e3 e4 ∙ ap ok (prepared_idem o))
