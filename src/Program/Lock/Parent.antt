-- ===== src/Program/Lock/Parent.antt =====
-- When a copy that waits for the lock takes its parent for gone.
use zju_connect_gui.Base.{
  ◌≡◌, ◌↔◌, refl, List, [], ◌∷◌, Bool, true, false, any, not, Option, none, some,
}
use zju_connect_gui.Text.{Text}
use zju_connect_gui.Platform.System.{
  WaitResult, object_signalled, timed_out, wait_failed, wait_windows, wait_unix,
}
use zju_connect_gui.Program.Lock.{is_gone}

-- On Unix, when some look before the deadline finds no process.
is_gone-wait_unix : (exists : List Bool) → is_gone (wait_unix exists) ≡ any not exists
unfolding wait_unix
is_gone-wait_unix [] = refl
is_gone-wait_unix (true ∷ exists) = is_gone-wait_unix exists
is_gone-wait_unix (false ∷ exists) = refl

-- On Windows, when the process can be opened and then ends in time: a process that has ended before it
-- is opened does not count.
is_gone-wait_windows :
    (open_error : Option Text) (result : WaitResult)
    → (is_gone (wait_windows open_error result) ≡ true)
      ↔ ((open_error ≡ none) × (result ≡ object_signalled))
unfolding wait_windows
is_gone-wait_windows (some e) result = (λ h. cc, λ h. cc)
is_gone-wait_windows none object_signalled = (λ h. (refl, refl), λ h. refl)
is_gone-wait_windows none timed_out = (λ h. cc, λ h. cc)
is_gone-wait_windows none wait_failed = (λ h. cc, λ h. cc)
