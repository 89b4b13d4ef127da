-- ===== src/Program/Elevation/Resumed.antt =====
-- From a request of the page for elevation to the session of the elevated copy.
use zju_connect_gui.Base.{
  ℕ, ◌≡◌, ◌≤◌, ◌⊎◌, inl, inr, refl, ap, ◌∙◌, [], ◌∷◌, ◌++◌, true, none, some,
}
use zju_connect_gui.Base.Results.{ok}
use zju_connect_gui.Launch.{LaunchOptions}
use zju_connect_gui.Launch.Normal.{IsLowercase}
use zju_connect_gui.Relaunch.{u32_max, build_elevated_relaunch_args}
use zju_connect_gui.Store.{whole, File}
use zju_connect_gui.Store.Pending.{Codec, mark_resume_connect}
use zju_connect_gui.Store.Pending.Age.{IsFaithful, IsRecent}
use zju_connect_gui.Store.Settings.{Json, load}
use zju_connect_gui.Store.Settings.SaveLoad
use zju_connect_gui.Manager.State.{Env}
use zju_connect_gui.Program.Resume.{without_rights, relaunch_args, start_options}
use zju_connect_gui.Program.Resume.Chain.{resume, resume_pending-mark_resume_connect}
use zju_connect_gui.Program.Elevation.{
  Args, try_send, running, relaunched, Loop, Attempt, prepare, in_flight, conclude, handle_request,
  received, turn,
}
use zju_connect_gui.Program.Elevation.Settled.Granting.{AreOwn, latest-own}
use zju_connect_gui.Web.Handlers.{AppState, elevate}
use zju_connect_gui.Web.Handlers.Settings.{kept, load-save-normal}

module _ (env : Env) (json : Json) where
  -- A copy with rights starts what is loaded.
  start_options_loaded :
      (codec : Codec) (settings : File) (o : LaunchOptions)
      → env.elevated ≡ true
      → load env.to_lowercase env.platform json settings ≡ ok o
      → start_options env.to_lowercase env.platform codec json env.elevated settings ≡ o
  unfolding start_options without_rights
  start_options_loaded codec settings o e loaded = rw (e, loaded) refl

  elevate_lem :
      {M : Type 0} (laws : IsLowercase env.to_lowercase) (pid : ℕ) (raw : LaunchOptions)
      (app : AppState M)
      → SaveLoad.IsFaithful json (kept laws env.platform json raw)
      → app.elevate_tx ≡ none
      → let (after, response) = elevate env.to_lowercase env.platform json whole pid raw app in
        (load env.to_lowercase env.platform json after.settings
          ≡ ok (kept laws env.platform json raw))
        × (after.elevate_tx ≡ some (build_elevated_relaunch_args pid))
  unfolding elevate try_send
  elevate_lem {M} laws pid raw app faithful empty =
      let (written, loaded) = load-save-normal laws env.platform json raw app.settings faithful in
      rw (written, empty) (loaded, refl)

turn_relaunched :
    (codec : Codec) (port : ℕ) (args : Args) (attempt : Attempt) (l : Loop)
    → l.status ≡ running
    → l.queue ≡ some args
    → AreOwn args attempt.drained
    → attempt.refused ≡ none
    → let after = turn codec port (received attempt) l in
      (after.status ≡ relaunched)
      × (after.relaunches ≡ l.relaunches ++ (args ∷ []))
      × (after.mark ≡ (mark_resume_connect codec attempt.now attempt.mark_writing l.mark).0)
unfolding turn handle_request in_flight prepare conclude
turn_relaunched codec port args attempt l at queued drained granted =
    rw (at, queued, granted)
      (
        refl,
        ap (λ a. l.relaunches ++ (a ∷ [])) (latest-own args args attempt.drained refl drained),
        refl,
      )

module _ (env : Env) (codec : Codec) (json : Json) where
  -- A request for elevation that finds the channel empty, from the page to the session. With codecs that
  -- read back what they write, and files that can be written and removed: if the loop takes the request
  -- and the system grants the relaunch, one more copy is started, with arguments that make it wait for
  -- this process. That copy, if it has rights, starts a session with the normal form of the requested
  -- options and the fixed settings, when it asks at most five minutes after the mark was made, and
  -- starts nothing otherwise; `to_lowercase` keeps lower-case text and trimmed text.
  pub resume-elevate :
      {M : Type 0} (laws : IsLowercase env.to_lowercase) (marks : IsFaithful codec) (port pid : ℕ)
      (raw : LaunchOptions) (app : AppState M) (attempt : Attempt) (l : Loop) (now : ℕ)
      → SaveLoad.IsFaithful json (kept laws env.platform json raw)
      → env.elevated ≡ true
      → pid ≤ u32_max
      → app.elevate_tx ≡ none
      → l.status ≡ running
      → attempt.mark_writing ≡ whole
      → attempt.refused ≡ none
      → AreOwn (build_elevated_relaunch_args pid) attempt.drained
      → let requested = (elevate env.to_lowercase env.platform json whole pid raw app).0 in
        let after =
          turn codec port (received attempt) (record l { queue = requested.elevate_tx }) in
        let args = relaunch_args (build_elevated_relaunch_args pid) in
        let resumed =
          resume env codec json args.resume_pending_connect now requested.settings after.mark in
        (after.relaunches ≡ l.relaunches ++ (build_elevated_relaunch_args pid ∷ []))
        × (args.wait_parent_pid ≡ pid)
        × ((IsRecent now attempt.now × (resumed.started ≡ some (kept laws env.platform json raw)))
            ⊎ (¬ (IsRecent now attempt.now) × (resumed.started ≡ none)))
  resume-elevate {M} laws marks port pid raw app attempt l now faithful elevated fits empty at
        writing granted drained =
      let requested = (elevate env.to_lowercase env.platform json whole pid raw app).0 in
      let (loaded, queued) = elevate_lem env json laws pid raw app faithful empty in
      let (ended, sent, mark) =
        turn_relaunched codec port (build_elevated_relaunch_args pid) attempt
          (record l { queue = requested.elevate_tx }) at queued drained granted in
      let (waits, cleared, outcome) =
        resume_pending-mark_resume_connect env codec json marks pid l.mark requested.settings
          attempt.now now fits in
      let same = mark ∙ ap (λ w. (mark_resume_connect codec attempt.now w l.mark).0) writing in
      let begun =
        start_options_loaded env json codec requested.settings (kept laws env.platform json raw)
          elevated loaded in
      (
        sent,
        waits,
        rw same (elim outcome [
          | inl (recent, started) ↦ inl (recent, started ∙ ap some begun)
          | inr (old, none_started) ↦ inr (old, none_started)
        ]),
      )
