-- ===== src/Store/Settings/Examples.antt =====
-- A codec for options that differ in the user name alone, which is what its file holds.
use zju_connect_gui.Base.{◌≡◌, refl, true, some}
use zju_connect_gui.Base.Results.{ok}
use zju_connect_gui.Text.{codes, to_ascii_lowercase}
use zju_connect_gui.Launch.{LaunchOptions, linux, normalize_launch_options}
use zju_connect_gui.Launch.Examples.{submitted, ascii-IsLowercase}
use zju_connect_gui.Store.{whole, Bytes, missing, holds}
use zju_connect_gui.Store.Settings.{Json, apply_fixed_defaults, load, save, complete}
use zju_connect_gui.Store.Settings.SaveLoad.{IsFaithful, load-save}

abbrev pub prepared : LaunchOptions
prepared = apply_fixed_defaults (normalize_launch_options to_ascii_lowercase submitted)

abbrev pub json : Json
json = record {
  Value = Bytes;
  from_slice = λ bytes. some bytes;
  contains_key = λ key value. true;
  from_value = λ value. some (record prepared { username = value });
  to_vec_pretty = λ o. some o.username;
}

pub json-IsFaithful : IsFaithful json prepared
json-IsFaithful = (prepared.username, prepared.username, refl, refl, refl, refl, refl)

load-save_example :
    let (saved, written) = save to_ascii_lowercase linux json whole submitted missing in
    (written ≡ ok tt) × (load to_ascii_lowercase linux json saved ≡ ok prepared)
load-save_example =
    load-save {to_lowercase = to_ascii_lowercase} ascii-IsLowercase linux json submitted missing
      json-IsFaithful

abbrev loaded : LaunchOptions
loaded = complete to_ascii_lowercase linux true true (record prepared { username = codes "bob" })

file-loaded : load to_ascii_lowercase linux json (holds (codes "bob")) ≡ ok loaded
unfolding load
file-loaded = refl
