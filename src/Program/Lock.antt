-- ===== src/Program/Lock.antt =====
-- The single-instance lock at the start. A round of the wait sees what trying the lock gives, and
-- what waiting for the parent process returns; the rounds up to the deadline are a list. An error of that
-- wait counts as a parent that is still there, also on Windows where a process that has ended cannot be
-- opened (Platform/System).
pub mod Granted
pub mod Parent
use zju_connect_gui.Base.{ℕ, List, [], ◌∷◌, Bool, true, false, ltb, if◌then◌else◌}
use zju_connect_gui.Base.Results.{Result, ok, err}
use zju_connect_gui.Platform.System.{WaitError, SingleInstanceError, lock_taken, lock_io}

-- The outcome of trying the lock.
pub data LockResult : Type 0 where
  acquired already_running unavailable : LockResult

-- `acquire_lock`
unfoldable acquire_lock : Result (Unit {0}) SingleInstanceError → LockResult
acquire_lock (ok _) = acquired
acquire_lock (err lock_taken) = already_running
acquire_lock (err (lock_io e)) = unavailable

-- The test of `wait_for_process_exit`.
abbrev pub is_gone : Result (Unit {0}) WaitError → Bool
is_gone (ok _) = true
is_gone (err e) = false

pub record Round : Type 0 where
  pub lock : LockResult
  pub parent_wait : Result (Unit {0}) WaitError  -- `wait_for_process_exit`

-- How the program goes on: with the lock in hand or without it, or not at all.
pub data Startup : Type 0 where
  goes_on : (held : Bool) → Startup
  exits : Startup

-- The loop of an elevated copy, and the test of the guard behind it.
unfoldable pub wait_for_lock : List Round → Startup
wait_for_lock [] = exits
wait_for_lock (round ∷ rounds) = elim round.lock [
  | acquired ↦ goes_on true
  | unavailable ↦ exits
  | already_running ↦
      let later = wait_for_lock rounds in if is_gone round.parent_wait then exits else later
]

-- A normal launch tries once, and goes on without a lock that cannot be had.
unfoldable pub try_lock : LockResult → Startup
try_lock acquired = goes_on true
try_lock already_running = exits
try_lock unavailable = goes_on false

-- `first` is what a normal launch sees, `rounds` what an elevated copy sees.
unfoldable pub startup : (wait_parent_pid : ℕ) (first : LockResult) (rounds : List Round) → Startup
unfolding wait_for_lock try_lock
startup wait_parent_pid first rounds =
    if ltb 0 wait_parent_pid then wait_for_lock rounds else try_lock first
