-- ===== src/Program/Shutdown.antt =====
-- src/main.rs: the end of the program, the address that it opens, and the thread of the tray.
pub mod Bounded
use zju_connect_gui.Base.{
  ℕ, zero, suc, ◌+◌, List, [], ◌∷◌, ◌++◌, Bool, true, false, Option, none, some, is_some,
  if◌then◌else◌,
}
use zju_connect_gui.Base.Results.{Result, ok, err}
use zju_connect_gui.Text.{Text, codes}
use zju_connect_gui.Text.Decimal.{to_decimal}
use zju_connect_gui.Launch.{Platform}
use zju_connect_gui.Links.{Command, open_command}

-- The sleeps of the loop, in milliseconds: with `turns` left, the next look at the manager is `child k`.
unfoldable pub wait_for_child : (turns k : ℕ) (child : ℕ → Option ℕ) → List ℕ
wait_for_child zero k child = []
wait_for_child (suc turns) k child =
    let later = wait_for_child turns (suc k) child in if is_some (child k) then 100 ∷ later else []

pub record Ended : Type 0 where
  pub stop_called : Bool
  pub sleeps : List ℕ

-- The graceful shutdown, which a relaunch skips; `child k` is what snapshot `k` says after `stop`.
unfoldable pub shutdown : (relaunched running : Bool) (child : ℕ → Option ℕ) → Ended
unfolding wait_for_child
shutdown true running child = record { stop_called = false; sleeps = [] }
shutdown false true child = record { stop_called = true; sleeps = wait_for_child 70 0 child }
shutdown false false child = record { stop_called = false; sleeps = [] }

unfoldable page_url : (port : ℕ) (token : Text) → Text
page_url port token = codes "http://localhost:" ++ (to_decimal port ++ (codes "/?token=" ++ token))

unfoldable pub open_browser : Platform → (port : ℕ) (token : Text) → Command
unfolding open_command page_url
open_browser platform port token = open_command platform (page_url port token)

-- What the thread of the tray does: the error that creating it gives, if it does, and whether its quit
-- signal comes.
pub data TrayEnd : Type 0 where
  forwards_quit ends_silently : TrayEnd
  logs : Text → TrayEnd

unfoldable run_tray : (create_error : Option Text) (quit_received : Bool) → TrayEnd
run_tray (some e) quit_received =
    logs (codes "[tray] 系统托盘不可用：" ++ (e ++ codes "（退出需通过 Ctrl+C 或任务管理器）"))
run_tray none true = forwards_quit
run_tray none false = ends_silently

-- Whether the loop's quit arm fires: a thread that ends without the signal leaves it waiting.
unfoldable pub quits : Option TrayEnd → Bool
quits none = false
quits (some forwards_quit) = true
quits (some ends_silently) = false
quits (some (logs line)) = false
