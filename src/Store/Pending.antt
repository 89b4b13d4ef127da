-- ===== src/Store/Pending.antt =====
-- src/backend/pending_connect_store.rs: the mark that a connection is resumed after elevation. The
-- JSON codec is a parameter; times are counted in nanoseconds.
pub mod Age
use zju_connect_gui.Base.{
  ℕ, ◌+◌, ◌*◌, Bool, true, false, ◌||◌, Option, none, some, ltb, if◌then◌else◌,
}
use zju_connect_gui.Base.Results.{Result, ok, err}
use zju_connect_gui.Store.{
  Writing, Bytes, File, missing, unreadable, holds, write_private, remove_file,
}

-- `Duration::minutes(5)`
abbrev pub pending_connect_max_age : ℕ
pending_connect_max_age = 5 * 60 * 1000000000

pub data PendingConnectError : Type 0 where
  read write clear encode decode : PendingConnectError

pub record PendingConnectState : Type 0 where
  pub resume_connect : Bool
  pub created_at : ℕ

-- `serde_json::to_vec` and `from_slice` for the record.
pub record Codec : Type 0 where
  pub to_vec : PendingConnectState → Option Bytes
  pub from_slice : Bytes → Option PendingConnectState

-- `age > MAX || age < -MAX` for the signed age `now - created_at`.
unfoldable pub is_stale : (now created_at : ℕ) → Bool
is_stale now created_at =
    ltb (created_at + pending_connect_max_age) now || ltb (now + pending_connect_max_age) created_at

module _ (codec : Codec) where
  unfoldable pub mark_resume_connect :
      (now : ℕ) (writing : Writing) → File → File × Result (Unit {0}) PendingConnectError
  unfolding write_private
  mark_resume_connect now writing file =
      elim (codec.to_vec (record { resume_connect = true; created_at = now })) [
        | none ↦ (file, err encode)
        | some payload ↦ write_private writing write file payload
      ]

  abbrev after_removal :
      File × Result (Unit {0}) PendingConnectError → File × Result Bool PendingConnectError
  after_removal (file, ok _) = (file, ok false)
  after_removal (file, err e) = (file, err e)

  unfoldable pub has_resume_connect :
      (now : ℕ) (removable : Bool) → File → File × Result Bool PendingConnectError
  unfolding is_stale remove_file
  has_resume_connect now removable missing = (missing, ok false)
  has_resume_connect now removable unreadable = (unreadable, err read)
  has_resume_connect now removable (holds bytes) = elim (codec.from_slice bytes) [
    | none ↦ (holds bytes, err decode)
    | some state ↦
        if is_stale now state.created_at
        then after_removal (remove_file removable clear (holds bytes))
        else (holds bytes, ok state.resume_connect)
  ]

unfoldable pub clear_resume_connect :
    (removable : Bool) → File → File × Result (Unit {0}) PendingConnectError
unfolding remove_file
clear_resume_connect removable file = remove_file removable clear file
