-- ===== src/Links.antt =====
-- src/backend/external_links.rs: the command that opens the portal, and how a platform opens an address
-- by default. A command that is spawned answers with an error, if there is one.
pub mod Opened
use zju_connect_gui.Base.{List, [], ◌∷◌, ◌++◌, Bool, true, false, Option, none, some, if◌then◌else◌}
use zju_connect_gui.Base.Results.{Result, ok, err}
use zju_connect_gui.Text.{Text, codes, is_empty}
use zju_connect_gui.Launch.{Platform, windows, linux, macos}

abbrev pub eip_url : Text
eip_url = codes "http://eip.scmcc.com.cn/"

pub data OpenEipError : Type 0 where
  spawn : Text → OpenEipError

pub record Command : Type 0 where
  pub program : Text
  pub args : List Text

unfoldable pub open_command : Platform → (url : Text) → Command
open_command windows url = record {
  program = codes "rundll32";
  args = codes "url.dll,FileProtocolHandler" ∷ url ∷ [];
}
open_command macos url = record { program = codes "open"; args = url ∷ [] }
open_command linux url = record { program = codes "xdg-open"; args = url ∷ [] }

-- The command that `open_eip` spawns: the chosen program with its arguments and the address, or else
-- the platform's default.
unfoldable pub eip_command : Platform → (program : Text) (args : List Text) → Command
unfolding open_command
eip_command platform program args =
    if is_empty program
    then open_command platform eip_url
    else record { program = program; args = args ++ (eip_url ∷ []) }

abbrev pub spawned : Option Text → Result (Unit {0}) OpenEipError
spawned none = ok tt
spawned (some e) = err (spawn e)

unfoldable open_eip :
    Platform
    → (spawn_error : Command → Option Text) → (program : Text) (args : List Text)
    → Result (Unit {0}) OpenEipError
unfolding eip_command
open_eip platform spawn_error program args =
    spawned (spawn_error (eip_command platform program args))
