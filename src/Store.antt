-- ===== src/Store.antt =====
-- The two files that the program keeps beside itself, each written and read as a whole.
pub mod Settings
pub mod Pending
pub mod Examples
use zju_connect_gui.Base.{ℕ, List, take, Bool, true, false, Option, none, some, if◌then◌else◌}
use zju_connect_gui.Base.Results.{Result, ok, err}

abbrev pub Bytes : Type 0
Bytes = List ℕ

-- What `fs::read` of the path answers.
pub data File : Type 0 where
  missing unreadable : File
  holds : Bytes → File

-- How a write of the system ends: all of it is written, or the file cannot be opened, or only so many
-- bytes are written.
pub data Writing : Type 0 where
  whole not_opened : Writing
  cut_off : (count : ℕ) → Writing

-- `write_private`: the file is created or truncated, then written. A write that fails midway leaves the
-- part that was written.
unfoldable pub write_private {ℓ} :
    {E : Type ℓ} → Writing → E → File → Bytes → File × Result (Unit {0}) E
write_private whole refused file payload = (holds payload, ok tt)
write_private not_opened refused file payload = (file, err refused)
write_private (cut_off count) refused file payload = (holds (take count payload), err refused)

-- `fs::remove_file`, where a missing file is not an error.
unfoldable pub remove_file {ℓ} :
    {E : Type ℓ} → (removable : Bool) → E → File → File × Result (Unit {0}) E
remove_file removable refused missing = (missing, ok tt)
remove_file removable refused file = if removable then (missing, ok tt) else (file, err refused)
