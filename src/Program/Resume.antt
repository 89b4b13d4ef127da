-- ===== src/Program/Resume.antt =====
-- The connection that is resumed by an elevated copy: the mark is read and cleared, and the session is
-- started with the options that are kept.
pub mod Rights
pub mod Chain
use zju_connect_gui.Base.{
  ℕ, List, [], ◌∷◌, Bool, true, false, ◌||◌, Option, none, some, if◌then◌else◌,
}
use zju_connect_gui.Base.Results.{Result, ok, err}
use zju_connect_gui.Text.{Text, codes}
use zju_connect_gui.Launch.{LaunchOptions, Platform}
use zju_connect_gui.Proxybridge.{is_active}
use zju_connect_gui.Relaunch.{ElevatedRelaunchArgs, RelaunchArgsError, parse_elevated_relaunch_args}
use zju_connect_gui.Store.{File}
use zju_connect_gui.Store.Pending.{
  Codec, PendingConnectError, has_resume_connect, clear_resume_connect,
}
use zju_connect_gui.Store.Settings.{Json, SettingsError, load, default_launch_options}

-- Arguments that are refused count as none.
unfoldable pub args_or_default :
    Result ElevatedRelaunchArgs RelaunchArgsError → ElevatedRelaunchArgs
args_or_default (ok args) = args
args_or_default (err e) = record { resume_pending_connect = false; wait_parent_pid = 0 }

unfoldable pub relaunch_args : (argv : List Text) → ElevatedRelaunchArgs
unfolding parse_elevated_relaunch_args args_or_default
relaunch_args argv = args_or_default (parse_elevated_relaunch_args argv)

-- A mark that cannot be read counts as none.
abbrev pub flag_or_false : Result Bool PendingConnectError → Bool
flag_or_false (ok flag) = flag
flag_or_false (err e) = false

abbrev pub options_or : LaunchOptions → Result LaunchOptions SettingsError → LaunchOptions
options_or default (ok options) = options
options_or default (err e) = default

abbrev not_elevated_text : Text
not_elevated_text = codes "提权失败：系统未授予管理员权限。请启用 UAC 或以管理员身份运行本程序。"

-- Features that need rights are turned off where the copy has none.
unfoldable pub without_rights : Platform → (elevated : Bool) → LaunchOptions → LaunchOptions
unfolding is_active
without_rights platform true options = options
without_rights platform false options =
    if options.tun_mode || is_active platform options
    then record options { tun_mode = false; proxybridge_enabled = false }
    else options

-- What the resumption leaves: the file of the mark, the errors that the page is sent, and the options
-- that `manager.start` is called with.
pub record Resumed : Type 0 where
  pub mark : File
  pub errors : List Text
  pub started : Option LaunchOptions

module _ (to_lowercase : Text → Text) (platform : Platform) (codec : Codec) (json : Json)
    (elevated : Bool) where
  unfoldable pub start_options : (settings : File) → LaunchOptions
  unfolding load default_launch_options without_rights
  start_options settings = without_rights platform elevated (
      options_or (default_launch_options to_lowercase platform)
        (load to_lowercase platform json settings))

  -- `removable` is whether the system lets the file of the mark be removed.
  unfoldable pub resume_pending :
      (requested : Bool) (now : ℕ) (removable : Bool) (settings mark : File) → Resumed
  unfolding has_resume_connect clear_resume_connect start_options
  resume_pending requested now removable settings mark =
      let (read, flag) = has_resume_connect codec now removable mark in
      let (cleared, result) = clear_resume_connect removable read in
      if requested
      then if flag_or_false flag
        then record {
          mark = cleared;
          errors = if elevated then [] else not_elevated_text ∷ [];
          started = some (start_options settings);
        }
        else record { mark = cleared; errors = []; started = none }
      else record { mark = mark; errors = []; started = none }
