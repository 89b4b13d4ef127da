-- ===== src/Program/Main/Left.antt =====
-- What a whole run leaves behind for the next one.
use zju_connect_gui.Base.{
  ℕ, ◌≡◌, ◌⊎◌, inl, inr, refl, [], ◌∷◌, Bool, true, false, Option, none, some, All, Bool-cases,
}
use zju_connect_gui.Base.Results.{Result, ok, err}
use zju_connect_gui.Text.{Text}
use zju_connect_gui.Launch.{LaunchOptions, Platform}
use zju_connect_gui.Store.{File, missing}
use zju_connect_gui.Store.Pending.{Codec, mark_resume_connect, has_resume_connect}
use zju_connect_gui.Store.Settings.{Json}
use zju_connect_gui.Web.Server.{BindError}
use zju_connect_gui.Web.Run.{RunningServer, run}
use zju_connect_gui.Program.Lock.{Startup, goes_on, exits, startup}
use zju_connect_gui.Program.Resume.{flag_or_false, relaunch_args, resume_pending}
use zju_connect_gui.Program.Resume.Chain.{cleared_lem}
use zju_connect_gui.Program.Elevation.{
  Args, Attempt, Loop, Status, running, relaunched, quit, turns,
}
use zju_connect_gui.Program.Elevation.Settled.{turns-IsSettled}
use zju_connect_gui.Program.Elevation.Settled.Granting.{IsOrderly, IsSettledAt, granting}
use zju_connect_gui.Program.Main.{
  Launch, Files, Exit, not_started, no_server, replaced, still_running, finished, Ran, exit_of,
  first_loop, ran, resumed_by, with_server, after_lock, async_main,
}

-- What is left, by the way a run ended. No run leaves a mark but one that was replaced by a copy, or that
-- did not get as far as reading it. `granted` is the attempt that the events grant.
abbrev pub IsLeft : Codec → (own : Args) → (granted : Option Attempt) → Files → Exit → Ran → Type 0
IsLeft codec own granted files not_started r =
    (r.mark ≡ files.mark) × (r.port_file ≡ files.port_file) × (r.relaunches ≡ [])
IsLeft codec own granted files no_server r =
    (r.mark ≡ files.mark) × (r.port_file ≡ files.port_file) × (r.relaunches ≡ [])
IsLeft codec own granted files still_running r =
    (granted ≡ none) × (r.mark ≡ missing) × (r.relaunches ≡ [])
IsLeft codec own granted files (finished ended) r =
    (granted ≡ none) × (r.mark ≡ missing) × (r.relaunches ≡ [])
IsLeft codec own granted files replaced r =
    (r.relaunches ≡ own ∷ [])
    × ((attempt : Attempt) × (granted ≡ some attempt)
        × (r.mark ≡ (mark_resume_connect codec attempt.now attempt.mark_writing missing).0))

true_ne_false : false ≡ true → ⊥
true_ne_false e = cc

module _ (to_lowercase : Text → Text) (platform : Platform) (codec : Codec) (json : Json) where
  resume_pending_mark :
      (elevated requested : Bool) (now : ℕ) (settings mark : File)
      → (requested ≡ true) ⊎ (mark ≡ missing)
      → (resume_pending to_lowercase platform codec json elevated requested now true settings
          mark).mark
        ≡ missing
  unfolding resume_pending
  resume_pending_mark elevated true now settings mark h =
      elim (Bool-cases (flag_or_false (has_resume_connect codec now true mark).1)) [
        | inl found ↦ rw found (cleared_lem (has_resume_connect codec now true mark).0)
        | inr not_found ↦ rw not_found (cleared_lem (has_resume_connect codec now true mark).0)
      ]
  resume_pending_mark elevated false now settings mark (inl e) = absurd (true_ne_false e)
  resume_pending_mark elevated false now settings mark (inr e) = e

  module _ (launch : Launch) (files : Files) (own : Args)
      (orderly : All (IsOrderly own) launch.events) (removable : launch.mark_removable ≡ true) where
    ran-IsLeft :
        (granted : Option Attempt) (held : Bool) (started : Option LaunchOptions) (l : Loop)
        (status : Status)
        → l.status ≡ status
        → IsSettledAt codec own held granted status l
        → IsLeft codec own granted files (exit_of launch status) (ran launch started l)
    ran-IsLeft granted held started l running at (e, (mark, sent, lock), queued) = (e, mark, sent)
    ran-IsLeft granted held started l quit at (e, (mark, sent, lock)) = (e, mark, sent)
    ran-IsLeft granted held started l relaunched at (attempt, e, (lock, sent, made)) =
        (sent, (attempt, e, made))

    with_server-IsLeft :
        (held requested : Bool) (server : Result (RunningServer (Unit {0})) BindError)
        → (requested ≡ true) ⊎ (files.mark ≡ missing)
        → let r = with_server to_lowercase platform codec json launch files held requested server in
          IsLeft codec own (granting false launch.events) files r.exit r
    with_server-IsLeft held requested (err e) h = (refl, refl, refl)
    with_server-IsLeft held requested (ok server) h =
        let resumed = resumed_by to_lowercase platform codec json launch files requested in
        let l =
          turns codec server.port launch.events
            (first_loop launch files held server.port resumed) in
        ran-IsLeft (granting false launch.events) held resumed.started l l.status refl (
          turns-IsSettled codec server.port own held launch.events
            (first_loop launch files held server.port resumed) refl
            (
              rw removable (
                  resume_pending_mark launch.elevated requested launch.now files.settings files.mark
                    h),
              refl,
              refl,
            )
            tt orderly)

    after_lock-IsLeft :
        (requested : Bool) (s : Startup)
        → (requested ≡ true) ⊎ (files.mark ≡ missing)
        → let r = after_lock to_lowercase platform codec json launch files requested s in
          IsLeft codec own (granting false launch.events) files r.exit r
    after_lock-IsLeft requested exits h = (refl, refl, refl)
    after_lock-IsLeft requested (goes_on held) h =
        with_server-IsLeft held requested
          (run launch.free launch.assigned files.port_file launch.bytes tt files.settings) h

    -- A run of the program that was asked to resume a connection, or that finds no mark, whose requests
    -- for rights all have the same arguments and which can remove the mark: if it does not get past the
    -- lock or has no port, it leaves the files as they were and starts no copy. If it was replaced, some
    -- attempt found a request and was granted before a quit; exactly one copy was started, with those
    -- arguments, and the mark is what the first such attempt writes, with its clock, or what its failure
    -- to write leaves. Otherwise, while it runs and when it has ended, no attempt was granted, there is no
    -- mark, so that no later run connects by itself, and no copy was started.
    pub async_main-IsLeft :
        ((relaunch_args launch.argv).resume_pending_connect ≡ true) ⊎ (files.mark ≡ missing)
        → let r = async_main to_lowercase platform codec json launch files in
          IsLeft codec own (granting false launch.events) files r.exit r
    unfolding async_main
    async_main-IsLeft h =
        let args = relaunch_args launch.argv in
        after_lock-IsLeft args.resume_pending_connect
          (startup args.wait_parent_pid launch.first_lock launch.rounds) h
