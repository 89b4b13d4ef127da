-- ===== src/Program/Resume/Chain.antt =====
-- The way of a connection through the elevation: the mark that the first copy makes, the arguments that
-- it starts the second with, and what the second resumes.
use zju_connect_gui.Base.{
  ℕ, ◌≡◌, ◌≤◌, ◌⊎◌, inl, inr, refl, ap, ◌∙◌, Bool, true, false, Bool-cases, none, some,
  if◌then◌else◌,
}
use zju_connect_gui.Base.Results.{Result, ok}
use zju_connect_gui.Relaunch.{u32_max, build_elevated_relaunch_args}
use zju_connect_gui.Relaunch.RoundTrip.{parse-build_elevated_relaunch_args}
use zju_connect_gui.Store.{whole, File, missing, unreadable, holds, remove_file}
use zju_connect_gui.Store.Pending.{
  Codec, PendingConnectError, mark_resume_connect, has_resume_connect, clear_resume_connect,
}
use zju_connect_gui.Store.Pending.Age.{IsFaithful, IsRecent, has-mark_resume_connect}
use zju_connect_gui.Store.Settings.{Json}
use zju_connect_gui.Manager.State.{Env}
use zju_connect_gui.Program.Resume.{
  flag_or_false, args_or_default, relaunch_args, start_options, Resumed, resume_pending,
}
use zju_connect_gui.Program.Resume.Rights.{resume_pending_started}

pub relaunch_args-build :
    (pid : ℕ)
    → pid ≤ u32_max
    → relaunch_args (build_elevated_relaunch_args pid)
      ≡ record { resume_pending_connect = true; wait_parent_pid = pid }
unfolding relaunch_args args_or_default
relaunch_args-build pid fits = ap args_or_default (parse-build_elevated_relaunch_args pid fits)

pub cleared_lem : (file : File) → (clear_resume_connect true file).0 ≡ missing
unfolding clear_resume_connect remove_file
cleared_lem missing = refl
cleared_lem unreadable = refl
cleared_lem (holds bytes) = refl

module _ (env : Env) (codec : Codec) (json : Json) where
  abbrev pub resume : (requested : Bool) (now : ℕ) (settings mark : File) → Resumed
  resume requested now settings mark =
      resume_pending env.to_lowercase env.platform codec json env.elevated requested now true
        settings mark

  -- A mark that can be removed is gone after the program has asked for it, whatever it held.
  resume_pending_cleared :
      (now : ℕ) (settings mark : File) → (resume true now settings mark).mark ≡ missing
  unfolding resume_pending
  resume_pending_cleared now settings mark =
      elim (Bool-cases (flag_or_false (has_resume_connect codec now true mark).1)) [
        | inl found ↦ rw found (cleared_lem (has_resume_connect codec now true mark).0)
        | inr not_found ↦ rw not_found (cleared_lem (has_resume_connect codec now true mark).0)
      ]

  started_for :
      (now : ℕ) (settings mark : File) (flag : Bool)
      → (has_resume_connect codec now true mark).1 ≡ ok flag
      → (resume true now settings mark).started ≡ (
          if flag
          then some (start_options env.to_lowercase env.platform codec json env.elevated settings)
          else none)
  started_for now settings mark flag e =
      resume_pending_started env codec json true now true settings mark
      ∙ ap
          (λ (r : Result Bool PendingConnectError).
            if flag_or_false r
            then some (start_options env.to_lowercase env.platform codec json env.elevated settings)
            else none)
          e

  -- With a codec that reads back what it writes, and a mark that can be written and removed: the copy
  -- of the program that is started, for any process id of 32 bits, with the arguments that the first
  -- copy builds waits for that process and leaves no mark behind. It starts a session with the kept
  -- options, exactly when it asks for the mark at most five minutes from when the first copy made it,
  -- and starts nothing otherwise.
  pub resume_pending-mark_resume_connect :
      (faithful : IsFaithful codec) (pid : ℕ) (file settings : File) (created_at now : ℕ)
      → pid ≤ u32_max
      → let marked = (mark_resume_connect codec created_at whole file).0 in
        let args = relaunch_args (build_elevated_relaunch_args pid) in
        let resumed = resume args.resume_pending_connect now settings marked in
        (args.wait_parent_pid ≡ pid)
        × (resumed.mark ≡ missing)
        × ((IsRecent now created_at
              × (resumed.started
                  ≡ some (
                      start_options env.to_lowercase env.platform codec json env.elevated
                        settings)))
            ⊎ (¬ (IsRecent now created_at) × (resumed.started ≡ none)))
  resume_pending-mark_resume_connect faithful pid file settings created_at now fits =
      rw (relaunch_args-build pid fits) (
        refl,
        resume_pending_cleared now settings (mark_resume_connect codec created_at whole file).0,
        elim (has-mark_resume_connect codec faithful file created_at now).1 [
          | inl (recent, found, kept) ↦ inl (recent, started_for now settings _ true found)
          | inr (old, found, gone) ↦ inr (old, started_for now settings _ false found)
        ],
      )
