-- ===== src/Program/Elevation/Settled/Granting.antt =====
-- Which attempt ends the loop, and how the loop stands then.
use zju_connect_gui.Base.{
  ℕ, ◌≡◌, refl, ap, ◌∙◌, List, [], ◌∷◌, Bool, true, false, Option, none, some, All, is_some,
  if◌then◌else◌,
}
use zju_connect_gui.Text.{Text}
use zju_connect_gui.Store.{missing}
use zju_connect_gui.Store.Pending.{Codec, mark_resume_connect}
use zju_connect_gui.Program.Elevation.{
  Args, try_send, latest, Status, running, relaunched, quit, Loop, Attempt, Event, requested,
  received, tray_quit, ctrl_c, react, turn, turns,
}

-- A queued request has the arguments `own`.
abbrev pub IsOwn : (own : Args) → Option Args → Type 0
IsOwn own none = Unit
IsOwn own (some args) = args ≡ own

abbrev pub AreOwn : (own : Args) → List Args → Type 0
AreOwn own = All (λ args. args ≡ own)

-- The requests that are taken have the arguments `own`, and the mark can be removed.
abbrev pub IsOrderly : (own : Args) → Event → Type 0
IsOrderly own (requested args) = args ≡ own
IsOrderly own (received attempt) = (attempt.mark_removable ≡ true) × AreOwn own attempt.drained
IsOrderly own tray_quit = Unit
IsOrderly own ctrl_c = Unit

-- The attempt itself where the system grants it, else what comes later.
abbrev pub if_granted : Attempt → (refused : Option Text) → Option Attempt → Option Attempt
if_granted attempt none later = some attempt
if_granted attempt (some refused) later = later

-- The attempt that ends in a relaunch, read off the events alone: the first one that finds a request and
-- that the system grants. `asked` says whether a request is queued; a refusal empties the queue.
unfoldable pub granting : (asked : Bool) → List Event → Option Attempt
granting asked [] = none
granting asked (requested args ∷ events) = granting true events
granting asked (tray_quit ∷ events) = none
granting asked (ctrl_c ∷ events) = none
granting asked (received attempt ∷ events) =
    let later = granting false events in
    if asked then if_granted attempt attempt.refused later else later

module _ (codec : Codec) (own : Args) (held : Bool) where
  -- While the loop runs and after a quit, no mark is left, no copy was started and the lock is as it
  -- was.
  abbrev pub IsUnsent : Loop → Type 0
  IsUnsent l = (l.mark ≡ missing) × (l.relaunches ≡ []) × (l.lock_held ≡ held)

  -- After the relaunch of an attempt the lock is free, one copy was started, with `own`, and the mark is
  -- what that attempt made of a missing file.
  abbrev pub IsSentBy : Attempt → Loop → Type 0
  IsSentBy attempt l =
      (l.lock_held ≡ false)
      × (l.relaunches ≡ own ∷ [])
      × (l.mark ≡ (mark_resume_connect codec attempt.now attempt.mark_writing missing).0)

  -- How the loop stands at each status, for the attempt that the events grant, if there is one.
  abbrev pub IsSettledAt : Option Attempt → Status → Loop → Type 0
  IsSettledAt granted running l = (granted ≡ none) × IsUnsent l × IsOwn own l.queue
  IsSettledAt granted quit l = (granted ≡ none) × IsUnsent l
  IsSettledAt granted relaunched l =
      (attempt : Attempt) × (granted ≡ some attempt) × IsSentBy attempt l

  abbrev pub IsSettled : Option Attempt → Loop → Type 0
  IsSettled granted l = IsSettledAt granted l.status l

pub try_send-IsOwn :
    (own args : Args) (queue : Option Args)
    → args ≡ own
    → IsOwn own queue
    → IsOwn own (try_send args queue)
unfolding try_send
try_send-IsOwn own args none e h = e
try_send-IsOwn own args (some q) e h = h

pub try_send_some : (args : Args) (queue : Option Args) → is_some (try_send args queue) ≡ true
unfolding try_send
try_send_some args none = refl
try_send_some args (some q) = refl

pub latest-own :
    (own args : Args) (drained : List Args)
    → args ≡ own
    → AreOwn own drained
    → latest args drained ≡ own
unfolding latest
latest-own own args [] e all = e
latest-own own args (newer ∷ drained) e (e1, all) = latest-own own newer drained e1 all

module _ (codec : Codec) (port : ℕ) where
  turn_lem :
      (event : Event) (l : Loop) (status : Status)
      → l.status ≡ status
      → turn codec port event l
        ≡ elim status [ running ↦ react codec port event l | relaunched ↦ l | quit ↦ l ]
  unfolding turn
  turn_lem event l status at =
      ap (λ st. elim st [ running ↦ react codec port event l | relaunched ↦ l | quit ↦ l ]) at

  pub turns-relaunched :
      (events : List Event) (l : Loop) → l.status ≡ relaunched → turns codec port events l ≡ l
  unfolding turns
  turns-relaunched [] l at = refl
  turns-relaunched (event ∷ events) l at =
      ap (turns codec port events) (turn_lem event l relaunched at) ∙ turns-relaunched events l at

  pub turns-quit :
      (events : List Event) (l : Loop) → l.status ≡ quit → turns codec port events l ≡ l
  unfolding turns
  turns-quit [] l at = refl
  turns-quit (event ∷ events) l at =
      ap (turns codec port events) (turn_lem event l quit at) ∙ turns-quit events l at

  pub turns-running :
      (event : Event) (events : List Event) (l : Loop)
      → l.status ≡ running
      → turns codec port (event ∷ events) l ≡ turns codec port events (react codec port event l)
  unfolding turns
  turns-running event events l at = ap (turns codec port events) (turn_lem event l running at)
