-- ===== src/Program/Main.antt =====
-- src/main.rs: `async_main` as one run, from the lock to the end of the event loop and the shutdown. The
-- sessions that the manager runs meanwhile are those of Manager, and the requests of the page are the
-- events of the loop. `app_dir` is taken as resolved.
pub mod Left
use zju_connect_gui.Base.{ℕ, List, [], ◌∷◌, Bool, true, false, Option, none, some}
use zju_connect_gui.Base.Results.{Result, ok, err}
use zju_connect_gui.Text.{Text}
use zju_connect_gui.Launch.{LaunchOptions, Platform}
use zju_connect_gui.Relaunch.{ElevatedRelaunchArgs}
use zju_connect_gui.Store.{Writing, File}
use zju_connect_gui.Store.Pending.{Codec}
use zju_connect_gui.Store.Settings.{Json}
use zju_connect_gui.Web.Server.{BindError}
use zju_connect_gui.Web.Run.{RunningServer, run}
use zju_connect_gui.Program.Lock.{LockResult, Round, Startup, goes_on, exits, startup}
use zju_connect_gui.Program.Resume.{relaunch_args, Resumed, resume_pending}
use zju_connect_gui.Program.Elevation.{
  Args, Loop, Status, running, relaunched, quit, Event, port_saved, turns,
}
use zju_connect_gui.Program.Shutdown.{Ended, shutdown}

-- What a launch meets: its arguments, the lock, the ports, the random bytes, the clock and the files, and
-- then the events, and what the manager says at the end.
pub record Launch : Type 0 where
  pub argv : List Text
  pub first_lock : LockResult
  pub rounds : List Round
  pub free : ℕ → Bool
  pub assigned : Option ℕ
  pub bytes : List ℕ
  pub now : ℕ
  pub mark_removable : Bool
  pub port_writing : Writing
  pub elevated : Bool
  pub events : List Event
  pub session_running : Bool
  pub child : ℕ → Option ℕ

pub record Files : Type 0 where
  pub settings : File
  pub mark : File
  pub port_file : Option Text

-- How a run ends, or that it goes on.
pub data Exit : Type 0 where
  not_started no_server replaced still_running : Exit
  finished : Ended → Exit

-- What a run leaves, and the options that it started a session with, if it resumed one.
pub record Ran : Type 0 where
  pub mark : File
  pub port_file : Option Text
  pub started : Option LaunchOptions
  pub relaunches : List Args
  pub exit : Exit

abbrev unchanged : Files → Exit → Ran
unchanged files exit = record {
  mark = files.mark;
  port_file = files.port_file;
  started = none;
  relaunches = [];
  exit = exit;
}

abbrev pub exit_of : Launch → Status → Exit
exit_of launch running = still_running
exit_of launch relaunched = replaced
exit_of launch quit = finished (shutdown false launch.session_running launch.child)

abbrev pub first_loop : Launch → Files → (held : Bool) (port : ℕ) (resumed : Resumed) → Loop
first_loop launch files held port resumed = record {
  queue = none;
  mark = resumed.mark;
  port_file = port_saved launch.port_writing port files.port_file;
  errors = resumed.errors;
  relaunches = [];
  lock_held = held;
  status = running;
}

abbrev pub ran : Launch → (started : Option LaunchOptions) → Loop → Ran
ran launch started l = record {
  mark = l.mark;
  port_file = l.port_file;
  started = started;
  relaunches = l.relaunches;
  exit = exit_of launch l.status;
}

module _ (to_lowercase : Text → Text) (platform : Platform) (codec : Codec) (json : Json) where
  abbrev pub resumed_by : Launch → Files → (requested : Bool) → Resumed
  resumed_by launch files requested =
      resume_pending to_lowercase platform codec json launch.elevated requested launch.now
        launch.mark_removable files.settings files.mark

  abbrev pub with_server :
      Launch → Files → (held requested : Bool) → Result (RunningServer (Unit {0})) BindError → Ran
  with_server launch files held requested (err e) = unchanged files no_server
  with_server launch files held requested (ok server) =
      let resumed = resumed_by launch files requested in
      ran launch resumed.started
        (turns codec server.port launch.events (first_loop launch files held server.port resumed))

  abbrev pub after_lock : Launch → Files → (requested : Bool) → Startup → Ran
  after_lock launch files requested exits = unchanged files not_started
  after_lock launch files requested (goes_on held) =
      with_server launch files held requested
        (run launch.free launch.assigned files.port_file launch.bytes tt files.settings)

  unfoldable pub async_main : Launch → Files → Ran
  unfolding relaunch_args startup run resume_pending turns shutdown
  async_main launch files =
      let args = relaunch_args launch.argv in
      after_lock launch files args.resume_pending_connect
        (startup args.wait_parent_pid launch.first_lock launch.rounds)
