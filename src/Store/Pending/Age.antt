-- ===== src/Store/Pending/Age.antt =====
-- How long the mark of a connection to resume lasts.
use zju_connect_gui.Base.{
  ℕ, ◌+◌, ◌≤◌, ◌≡◌, ◌⊎◌, inl, inr, refl, Bool, true, false, some, arith, Bool-cases, if◌then◌else◌,
}
use zju_connect_gui.Base.Results.{Result, ok}
use zju_connect_gui.Store.{whole, Bytes, File, missing, holds, write_private, remove_file}
use zju_connect_gui.Store.Pending.{
  PendingConnectState, PendingConnectError, Codec, pending_connect_max_age, mark_resume_connect,
  has_resume_connect, is_stale,
}

-- The codec reads back what it writes, and writes every record.
abbrev pub IsFaithful : Codec → Type 0
IsFaithful codec =
    (s : PendingConnectState)
    → (bs : Bytes) × (codec.to_vec s ≡ some bs) × (codec.from_slice bs ≡ some s)

-- The two moments are at most five minutes apart, whichever comes first.
abbrev pub IsRecent : (now created_at : ℕ) → Type 0
IsRecent now created_at =
    (now ≤ created_at + pending_connect_max_age) × (created_at ≤ now + pending_connect_max_age)

not_stale-IsRecent :
    (now created_at : ℕ) → is_stale now created_at ≡ false → IsRecent now created_at
unfolding is_stale
not_stale-IsRecent now created_at h = ground arith

stale-not_IsRecent :
    (now created_at : ℕ) → is_stale now created_at ≡ true → ¬ IsRecent now created_at
unfolding is_stale
stale-not_IsRecent now created_at h (late, early) = ground arith

has_resume_connect_holds :
    (codec : Codec) (now : ℕ) (bytes : Bytes) (state : PendingConnectState)
    → codec.from_slice bytes ≡ some state
    → has_resume_connect codec now true (holds bytes) ≡ (
        if is_stale now state.created_at
        then (missing, ok false)
        else (holds bytes, ok state.resume_connect))
unfolding has_resume_connect remove_file
has_resume_connect_holds codec now bytes state e =
    elim (Bool-cases (is_stale now state.created_at)) [
      | inl stale ↦ rw (e, has_resume_connect, stale) refl
      | inr recent ↦ rw (e, has_resume_connect, recent) refl
    ]

mark_resume_connect_written :
    (codec : Codec) (created_at : ℕ) (file : File) (bytes : Bytes)
    → codec.to_vec (record { resume_connect = true; created_at = created_at }) ≡ some bytes
    → mark_resume_connect codec created_at whole file ≡ (holds bytes, ok tt)
unfolding mark_resume_connect write_private
mark_resume_connect_written codec created_at file bytes e = rw (e, mark_resume_connect) refl

module _ (codec : Codec) (faithful : IsFaithful codec) where
  -- With a codec that reads back what it writes, and a file that can be written and removed, a mark
  -- made at one moment and asked for at another is found, and the file kept, when the two are at most
  -- five minutes apart in either direction; otherwise it is not found, and the file is gone. This
  -- holds whatever the file held before the mark was made.
  pub has-mark_resume_connect :
      (file : File) (created_at now : ℕ)
      → let (marked, written) = mark_resume_connect codec created_at whole file in
        let (after, found) = has_resume_connect codec now true marked in
        (written ≡ ok tt)
        × ((IsRecent now created_at × (found ≡ ok true) × (after ≡ marked))
            ⊎ (¬ (IsRecent now created_at) × (found ≡ ok false) × (after ≡ missing)))
  has-mark_resume_connect file created_at now =
      let (bytes, e, d) = faithful (record { resume_connect = true; created_at = created_at }) in
      rw
        (
          mark_resume_connect_written codec created_at file bytes e,
          has_resume_connect_holds codec now bytes _ d,
        )
        (refl, by_age bytes)
    where
      by_age :
          (bytes : Bytes)
          → let answer : File × Result Bool PendingConnectError =
              if is_stale now created_at then (missing, ok false) else (holds bytes, ok true) in
            (IsRecent now created_at × (answer.1 ≡ ok true) × (answer.0 ≡ holds bytes))
            ⊎ (¬ (IsRecent now created_at) × (answer.1 ≡ ok false) × (answer.0 ≡ missing))
      by_age bytes = elim (Bool-cases (is_stale now created_at)) [
        | inl stale ↦ inr (stale-not_IsRecent now created_at stale, rw stale refl, rw stale refl)
        | inr recent ↦
            inl (not_stale-IsRecent now created_at recent, rw recent refl, rw recent refl)
      ]
