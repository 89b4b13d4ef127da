-- ===== src/Program/Elevation.antt =====
-- src/main.rs: the event loop. The elevation requests of the page come through a channel that holds one
-- request; the relaunch, the clock and the file system are the answers of an attempt.
pub mod Settled
pub mod Resumed
use zju_connect_gui.Base.{
  ℕ, List, [], ◌∷◌, ◌++◌, take, Bool, true, false, Option, none, some, if◌then◌else◌,
}
use zju_connect_gui.Base.Results.{Result, ok, err}
use zju_connect_gui.Text.{Text, codes}
use zju_connect_gui.Store.{Writing, whole, not_opened, cut_off, File, write_private}
use zju_connect_gui.Store.Pending.{Codec, mark_resume_connect, clear_resume_connect}
use zju_connect_gui.Web.Server.{persist_port}

abbrev pub Args : Type 0
Args = List Text

-- `try_send` on the channel: a request that finds one queued is dropped.
unfoldable pub try_send : Args → Option Args → Option Args
try_send args none = some args
try_send args (some queued) = some queued

unfoldable try_sends : List Args → Option Args → Option Args
unfolding try_send
try_sends [] queue = queue
try_sends (args ∷ later) queue = try_sends later (try_send args queue)

-- The drain after `recv`, which takes `drained` from the channel: the latest request counts.
unfoldable pub latest : Args → (drained : List Args) → Args
latest args [] = args
latest args (newer ∷ drained) = latest newer drained

pub data Status : Type 0 where
  running relaunched quit : Status

-- What the loop acts on: its channel, the files of the mark and of the port, the events that it sends
-- to the page, the arguments that copies were started with, the lock, and whether the loop has ended.
pub record Loop : Type 0 where
  pub queue : Option Args
  pub mark : File
  pub port_file : Option Text
  pub errors : List Text
  pub relaunches : List Args
  pub lock_held : Bool
  pub status : Status

-- What one attempt meets. Requests come in before the drain has ended, and while the system asks the
-- user; `refused` is the error of `relaunch_self_elevated`, if there is one.
pub record Attempt : Type 0 where
  pub drained : List Args
  pub while_asked : List Args
  pub now : ℕ
  pub mark_writing : Writing
  pub mark_removable : Bool
  pub port_writing : Writing
  pub refused : Option Text

-- A page that asks, a turn of the loop that takes a request, and the two ways to quit.
pub data Event : Type 0 where
  requested : Args → Event
  received : Attempt → Event
  tray_quit ctrl_c : Event

abbrev pub port_saved : Writing → (port : ℕ) → Option Text → Option Text
port_saved whole port contents = some (persist_port port)
port_saved not_opened port contents = contents
port_saved (cut_off count) port contents = some (take count (persist_port port))

module _ (codec : Codec) (port : ℕ) where
  -- The arm of `elevate_rx.recv()` up to the relaunch; the mark is on disk while the system asks the user.
  unfoldable pub prepare : Attempt → Loop → Loop
  unfolding mark_resume_connect
  prepare attempt l = record l {
    queue = none;
    mark = (mark_resume_connect codec attempt.now attempt.mark_writing l.mark).0;
    port_file = port_saved attempt.port_writing port l.port_file;
  }

  -- The `match` on the result of the relaunch with `args`.
  unfoldable pub conclude : Args → (mark_removable : Bool) → Option Text → Loop → Loop
  unfolding clear_resume_connect
  conclude args mark_removable none l = record l {
    relaunches = l.relaunches ++ (args ∷ []);
    lock_held = false;
    status = relaunched;
  }
  conclude args mark_removable (some refused) l = record l {
    mark = (clear_resume_connect mark_removable l.mark).0;
    queue = none;
    errors = l.errors ++ ((codes "提权失败：" ++ refused) ∷ []);
  }

  -- The state when the relaunch returns.
  unfoldable pub in_flight : Attempt → Loop → Loop
  unfolding prepare try_sends
  in_flight attempt l =
      let prepared = prepare attempt l in
      record prepared { queue = try_sends attempt.while_asked prepared.queue }

  unfoldable pub handle_request : Args → Attempt → Loop → Loop
  unfolding latest in_flight conclude
  handle_request args attempt l =
      conclude (latest args attempt.drained) attempt.mark_removable attempt.refused
        (in_flight attempt l)

  -- A turn that finds the channel empty waits.
  abbrev pub receive : Attempt → Option Args → Loop → Loop
  receive attempt none l = l
  receive attempt (some args) l = handle_request args attempt l

  abbrev pub react : Event → Loop → Loop
  react (requested args) l = record l { queue = try_send args l.queue }
  react (received attempt) l = receive attempt l.queue l
  react tray_quit l = record l { status = quit }
  react ctrl_c l = record l { status = quit }

  -- An event that comes after the loop has ended meets nobody.
  unfoldable pub turn : Event → Loop → Loop
  unfolding handle_request try_send
  turn event l = elim l.status [ running ↦ react event l | relaunched ↦ l | quit ↦ l ]

  unfoldable pub turns : List Event → Loop → Loop
  unfolding turn
  turns [] l = l
  turns (event ∷ events) l = turns events (turn event l)
