-- ===== src/Program/Examples.antt =====
-- A start that waits for its parent, a connection that is resumed, and a request that is granted.
use zju_connect_gui.Base.{◌≡◌, ◌↔◌, ◌⊎◌, refl, List, [], ◌∷◌, Bool, true, false, none, some, arith}
use zju_connect_gui.Base.{
  ℕ, zero, suc, Option, none, some, ◌≤◌, ◌||◌, not, is_some, ◌⊎◌, false, true,
}
use zju_connect_gui.Program.Shutdown.{shutdown}
use zju_connect_gui.Program.Shutdown.Bounded.{sum, ShowsChild, shutdown-ShowsChild}
use zju_connect_gui.Base.{ap, inl, length, All}
use zju_connect_gui.Base.Results.{err}
use zju_connect_gui.Platform.System.{wait_timeout}
use zju_connect_gui.Relaunch.{ElevatedRelaunchArgs}
use zju_connect_gui.Program.Elevation.{tray_quit}
use zju_connect_gui.Program.Resume.Chain.{relaunch_args-build}
use zju_connect_gui.Program.Main.{Launch, Files, async_main}
use zju_connect_gui.Program.Main.Left.{IsLeft, async_main-IsLeft}
use zju_connect_gui.Text.{codes}
use zju_connect_gui.Launch.{LaunchOptions}
use zju_connect_gui.Launch.Examples.{submitted, ascii-IsLowercase}
use zju_connect_gui.Relaunch.{build_elevated_relaunch_args}
use zju_connect_gui.Store.{whole, File, missing}
use zju_connect_gui.Store.Examples.{codec, codec-IsFaithful}
use zju_connect_gui.Store.Pending.{mark_resume_connect, has_resume_connect}
use zju_connect_gui.Store.Pending.Age.{IsRecent}
use zju_connect_gui.Store.Settings.Examples.{json, json-IsFaithful}
use zju_connect_gui.Manager.State.{Env}
use zju_connect_gui.Manager.Start.{requires_elevation, prepare_options}
use zju_connect_gui.Manager.Examples.{env}
use zju_connect_gui.Program.Lock.{Round, already_running, acquired, unavailable, startup, goes_on}
use zju_connect_gui.Program.Lock.Granted.{IsGranted, startup-IsGranted}
use zju_connect_gui.Program.Resume.{relaunch_args, start_options, resume_pending}
use zju_connect_gui.Program.Resume.Rights.{resume_pending_allowed, resume_pending_started}
use zju_connect_gui.Program.Resume.Chain.{resume}
use zju_connect_gui.Program.Elevation.{
  Args, Attempt, Event, Loop, running, requested, received, ctrl_c, turn, turns,
}
use zju_connect_gui.Program.Elevation.Settled.{turns-IsSettled}
use zju_connect_gui.Program.Elevation.Settled.Granting.{IsSettled, granting}
use zju_connect_gui.Program.Elevation.Resumed.{resume-elevate}
use zju_connect_gui.Web.Handlers.{AppState, elevate}
use zju_connect_gui.Web.Handlers.Settings.{kept}

abbrev rounds : List Round
rounds =
    record { lock = already_running; parent_wait = err wait_timeout }
    ∷ record { lock = acquired; parent_wait = err wait_timeout }
    ∷ []

startup-IsGranted_example :
    (startup 4242 unavailable rounds ≡ goes_on true) ↔ ((true ≡ true) × IsGranted rounds)
startup-IsGranted_example = startup-IsGranted 4242 unavailable rounds true (omega arith)

abbrev mark : File
mark = (mark_resume_connect codec 100 whole missing).0

abbrev resumed_options : LaunchOptions
resumed_options = start_options env.to_lowercase env.platform codec json env.elevated missing

mark-resumed :
    (resume_pending env.to_lowercase env.platform codec json env.elevated true 200 true missing
      mark).started
    ≡ some resumed_options
unfolding mark_resume_connect has_resume_connect
mark-resumed = resume_pending_started env codec json true 200 true missing mark

resume_pending_allowed_example :
    requires_elevation env.platform env.elevated (prepare_options env resumed_options) ≡ false
resume_pending_allowed_example =
    resume_pending_allowed env codec json true 200 true missing mark resumed_options mark-resumed

abbrev own : Args
own = build_elevated_relaunch_args 4242

abbrev granted : Attempt
granted = record {
  drained = [];
  while_asked = own ∷ [];
  now = 100;
  mark_writing = whole;
  mark_removable = true;
  port_writing = whole;
  refused = none;
}

abbrev denied : Attempt
denied = record granted { refused = some (codes "denied") }

abbrev fresh : Loop
fresh = record {
  queue = none;
  mark = missing;
  port_file = none;
  errors = [];
  relaunches = [];
  lock_held = true;
  status = running;
}

abbrev asked_twice : List Event
asked_twice = requested own ∷ received denied ∷ requested own ∷ received granted ∷ ctrl_c ∷ []

turns-IsSettled_example :
    IsSettled codec own true (granting false asked_twice) (turns codec 19823 asked_twice fresh)
turns-IsSettled_example =
    turns-IsSettled codec 19823 own true asked_twice fresh refl (refl, refl, refl) tt
      (refl, ((refl, tt), (refl, ((refl, tt), (tt, tt)))))

abbrev with_rights : Env
with_rights = record env { elevated = true }

abbrev app : AppState Bool
app = record { manager = true; settings = missing; elevate_tx = none }

resume-elevate_example :
    let after_request =
      (elevate with_rights.to_lowercase with_rights.platform json whole 4242 submitted app).0 in
    let after =
      turn codec 19823 (received granted) (record fresh { queue = after_request.elevate_tx }) in
    let args = relaunch_args own in
    let resumed =
      resume with_rights codec json args.resume_pending_connect 200 after_request.settings
        after.mark in
    (after.relaunches ≡ own ∷ [])
    × (args.wait_parent_pid ≡ 4242)
    × ((IsRecent 200 100
          × (resumed.started ≡ some (kept ascii-IsLowercase with_rights.platform json submitted)))
        ⊎ (¬ (IsRecent 200 100) × (resumed.started ≡ none)))
resume-elevate_example =
    resume-elevate with_rights codec json ascii-IsLowercase codec-IsFaithful 19823 4242 submitted
      app granted fresh 200 json-IsFaithful refl (omega arith) refl refl refl refl tt

-- The child of the first two snapshots has gone at the third.
abbrev child : ℕ → Option ℕ
child k = elim k [ zero ↦ some 7 | suc n ↦ elim n [ zero ↦ some 7 | suc m ↦ none ] ]

shutdown-ShowsChild_example :
    let ended = shutdown false true child in
    let n = length ended.sleeps in
    All (λ ms. ms ≡ 100) ended.sleeps
    × (sum ended.sleeps ≤ 7000)
    × ShowsChild child 0 n
    × (((ended.stop_called ≡ false) × (n ≡ 0) × ((false || not true) ≡ true))
        ⊎ ((ended.stop_called ≡ true) × ((n ≡ 70) ⊎ (is_some (child n) ≡ false))))
shutdown-ShowsChild_example = shutdown-ShowsChild false true child

abbrev elevated_launch : Launch
elevated_launch = record {
  argv = own;
  first_lock = unavailable;
  rounds = rounds;
  free = λ port. true;
  assigned = none;
  bytes = 1 ∷ [];
  now = 200;
  mark_removable = true;
  port_writing = whole;
  elevated = true;
  events = requested own ∷ received denied ∷ tray_quit ∷ [];
  session_running = true;
  child = child;
}

abbrev files : Files
files = record { settings = missing; mark = mark; port_file = none }

own-resumes : (relaunch_args own).resume_pending_connect ≡ true
own-resumes =
    ap (λ (a : ElevatedRelaunchArgs). a.resume_pending_connect)
      (relaunch_args-build 4242 (omega arith))

async_main-IsLeft_example :
    let r = async_main env.to_lowercase env.platform codec json elevated_launch files in
    IsLeft codec own (granting false elevated_launch.events) files r.exit r
async_main-IsLeft_example =
    async_main-IsLeft env.to_lowercase env.platform codec json elevated_launch files own
      (refl, ((refl, tt), (tt, tt))) refl (inl own-resumes)
