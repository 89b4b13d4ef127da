-- ===== src/Platform/System.antt =====
-- src/backend/platform: the results of the operating system's calls, on Windows and on Unix. What a
-- call answers is a parameter.
use zju_connect_gui.Base.{
  ℕ, List, [], ◌∷◌, ◌++◌, Bool, Option, none, some, ◌==◌, ltb, if◌then◌else◌,
}
use zju_connect_gui.Base.Results.{Result, ok, err}
use zju_connect_gui.Text.{Text, codes}
use zju_connect_gui.Text.Decimal.{to_decimal}
use zju_connect_gui.Platform.{parameters}

pub data ElevationError : Type 0 where
  unsupported user_cancelled : ElevationError
  io failed : Text → ElevationError

unfoldable elevation_error_text : ElevationError → Text
elevation_error_text unsupported = codes "elevation is not supported on this platform"
elevation_error_text user_cancelled = codes "user declined elevation prompt"
elevation_error_text (io e) = codes "io error during elevation: " ++ e
elevation_error_text (failed e) = codes "elevation failed: " ++ e

pub data WaitError : Type 0 where
  wait_io : Text → WaitError
  wait_timeout : WaitError

pub data SingleInstanceError : Type 0 where
  lock_taken : SingleInstanceError
  lock_io : Text → SingleInstanceError

-- The texts for the results of `ShellExecuteW`.
unfoldable shell_error : (code : ℕ) → Text
shell_error code =
    if code == 0
    then codes "out of memory / resources"
    else if code == 2
    then codes "file not found"
    else if code == 3
    then codes "path not found"
    else if code == 5
    then codes "access denied"
    else if code == 8
    then codes "out of memory"
    else if code == 32
    then codes "sharing violation"
    else codes "error code " ++ to_decimal code

unfoldable shell_result : (code : ℕ) → Result (Unit {0}) ElevationError
unfolding shell_error
shell_result code =
    if ltb 32 code then ok tt else err (failed (codes "ShellExecuteW failed: " ++ shell_error code))

-- `relaunch_self_elevated` on Windows: `shell` is the call of the system with the joined arguments.
unfoldable relaunch_windows :
    (exe_error : Option Text) (shell : Text → ℕ) → List Text → Result (Unit {0}) ElevationError
unfolding shell_result
relaunch_windows (some e) shell args = err (io e)
relaunch_windows none shell args = shell_result (shell (parameters args))

unfoldable relaunch_unix : List Text → Result (Unit {0}) ElevationError
relaunch_unix args = err unsupported

-- What `WaitForSingleObject` answers.
pub data WaitResult : Type 0 where
  object_signalled timed_out wait_failed : WaitResult

abbrev pub waited : WaitResult → Result (Unit {0}) WaitError
waited object_signalled = ok tt
waited timed_out = err wait_timeout
waited wait_failed = err (wait_io (codes "WaitForSingleObject failed"))

-- `wait_for_process_exit` on Windows; `open_error` is the error of `OpenProcess`.
unfoldable pub wait_windows : (open_error : Option Text) → WaitResult → Result (Unit {0}) WaitError
wait_windows (some e) result = err (wait_io (codes "OpenProcess: " ++ e))
wait_windows none result = waited result

-- The same on Unix: `exists` are the looks at `/proc/<pid>` up to the deadline.
unfoldable pub wait_unix : (exists : List Bool) → Result (Unit {0}) WaitError
wait_unix [] = err wait_timeout
wait_unix (there ∷ exists) = let later = wait_unix exists in if there then later else ok tt

-- `acquire_single_instance` on Windows.
unfoldable acquire_windows :
    (create_error : Option Text) (already_exists : Bool) → Result (Unit {0}) SingleInstanceError
acquire_windows (some e) already_exists = err (lock_io (codes "CreateMutexW: " ++ e))
acquire_windows none already_exists = if already_exists then err lock_taken else ok tt

abbrev flocked :
    (would_block : ℕ → Bool) (error_text : ℕ → Text) (flock_error : Option ℕ)
    → Result (Unit {0}) SingleInstanceError
flocked would_block error_text none = ok tt
flocked would_block error_text (some code) =
    if would_block code then err lock_taken else err (lock_io (error_text code))

-- The same on Unix; `would_block` are the codes EWOULDBLOCK and EAGAIN.
unfoldable acquire_unix :
    (would_block : ℕ → Bool) (error_text : ℕ → Text) (open_error : Option Text)
    (flock_error : Option ℕ)
    → Result (Unit {0}) SingleInstanceError
acquire_unix would_block error_text (some e) flock_error = err (lock_io e)
acquire_unix would_block error_text none flock_error = flocked would_block error_text flock_error
