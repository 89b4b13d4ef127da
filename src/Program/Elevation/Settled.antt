-- ===== src/Program/Elevation/Settled.antt =====
-- What the event loop leaves: the lock, the mark, and the copy that it started.
pub mod Granting
use zju_connect_gui.Base.{
  ℕ, ◌≡◌, refl, ap, sym, subst, ◌∙◌, List, [], ◌∷◌, ◌++◌, Bool, true, false, Option, none, some,
  All, Option-cases, inl, inr, is_some,
}
use zju_connect_gui.Text.{Text}
use zju_connect_gui.Store.Pending.{Codec, mark_resume_connect}
use zju_connect_gui.Program.Elevation.{
  Args, latest, running, relaunched, quit, Loop, Attempt, prepare, conclude, in_flight,
  handle_request, Event, requested, received, tray_quit, ctrl_c, receive, react, turns,
}
use zju_connect_gui.Program.Resume.Chain.{cleared_lem}
use zju_connect_gui.Program.Elevation.Settled.Granting.{
  IsOwn, IsOrderly, if_granted, granting, IsUnsent, IsSentBy, IsSettledAt, IsSettled,
  try_send-IsOwn, try_send_some, latest-own, turns-relaunched, turns-quit, turns-running,
}

module _ (codec : Codec) (port : ℕ) (own : Args) (held : Bool) where
  -- A request with `own`, taken by an attempt that the system grants.
  granted-IsSentBy :
      (args : Args) (attempt : Attempt) (l : Loop)
      → IsUnsent codec own held l
      → latest args attempt.drained ≡ own
      → attempt.refused ≡ none
      → let after = handle_request codec port args attempt l in
        (after.status ≡ relaunched) × IsSentBy codec own held attempt after
  unfolding handle_request in_flight prepare conclude
  granted-IsSentBy args attempt l (mark, sent, lock) e granted = rw granted (
    refl,
    (
      refl,
      ap (λ ls. ls ++ (latest args attempt.drained ∷ [])) sent ∙ ap (λ a. a ∷ []) e,
      ap (λ f. (mark_resume_connect codec attempt.now attempt.mark_writing f).0) mark,
    ),
  )

  -- The same, refused, where the mark can be removed.
  refused-IsUnsent :
      (args : Args) (attempt : Attempt) (l : Loop) (why : Text)
      → IsUnsent codec own held l
      → attempt.mark_removable ≡ true
      → attempt.refused ≡ some why
      → let after = handle_request codec port args attempt l in
        (after.status ≡ l.status) × (after.queue ≡ none) × IsUnsent codec own held after
  unfolding handle_request in_flight prepare conclude
  refused-IsUnsent args attempt l why (mark, sent, lock) removable denied =
      rw (denied, removable) (refl, refl, (cleared_lem _, sent, lock))

  abbrev IsSettledBy : Option Attempt → Loop → Type 0
  IsSettledBy = IsSettled codec own held

  -- What the loop does with the events, from any state in which it runs and has sent nothing.
  abbrev SettlesBy : List Event → Type 0
  SettlesBy events =
      (l : Loop)
      → l.status ≡ running
      → IsUnsent codec own held l
      → IsOwn own l.queue
      → IsSettledBy (granting (is_some l.queue) events) (turns codec port events l)

  relaunched-IsSettled :
      (granted : Option Attempt) (attempt : Attempt) (l : Loop)
      → l.status ≡ relaunched
      → granted ≡ some attempt
      → IsSentBy codec own held attempt l
      → IsSettledBy granted l
  relaunched-IsSettled granted attempt l at e sent =
      subst (λ st. IsSettledAt codec own held granted st l) (sym at) (attempt, e, sent)

  quit-IsSettled :
      (events : List Event) (l : Loop)
      → l.status ≡ quit
      → IsUnsent codec own held l
      → IsSettledBy none (turns codec port events l)
  quit-IsSettled events l at unsent =
      subst (IsSettledBy none) (sym (turns-quit codec port events l at))
        (subst (λ st. IsSettledAt codec own held none st l) (sym at) (refl, unsent))

  -- A turn that takes the request `args`.
  request-IsSettled :
      (args : Args) (attempt : Attempt) (events : List Event) (l : Loop)
      → l.status ≡ running
      → IsUnsent codec own held l
      → args ≡ own
      → IsOrderly own (received attempt)
      → SettlesBy events
      → IsSettledBy
          (if_granted attempt attempt.refused (granting false events))
          (turns codec port events (handle_request codec port args attempt l))
  request-IsSettled args attempt events l at unsent e (removable, drained) later =
      let after = handle_request codec port args attempt l in
      let by = λ (r : Option Text). if_granted attempt r (granting false events) in
      elim (Option-cases attempt.refused) [
        | inl granted ↦
            let (gone, sent) =
              granted-IsSentBy args attempt l unsent (latest-own own args attempt.drained e drained)
                granted in
            subst (IsSettledBy (by attempt.refused))
              (sym (turns-relaunched codec port events after gone))
              (relaunched-IsSettled (by attempt.refused) attempt after gone (ap by granted) sent)
        | inr (why, denied) ↦
            let (same, empty, kept) = refused-IsUnsent args attempt l why unsent removable denied in
            subst (λ g. IsSettledBy g (turns codec port events after)) (sym (ap by denied))
              (subst
                (λ q. IsSettledBy (granting (is_some q) events) (turns codec port events after))
                empty (later after (same ∙ at) kept (subst (IsOwn own) (sym empty) tt)))
      ]

  received-IsSettled :
      (attempt : Attempt) (queue : Option Args) (events : List Event) (l : Loop)
      → l.queue ≡ queue
      → l.status ≡ running
      → IsUnsent codec own held l
      → IsOwn own queue
      → IsOrderly own (received attempt)
      → SettlesBy events
      → IsSettledBy
          (granting (is_some queue) (received attempt ∷ events))
          (turns codec port events (receive codec port attempt queue l))
  unfolding granting
  received-IsSettled attempt none events l q at unsent mine orderly later =
      subst (λ q1. IsSettledBy (granting (is_some q1) events) (turns codec port events l)) q
        (later l at unsent (subst (IsOwn own) (sym q) tt))
  received-IsSettled attempt (some args) events l q at unsent mine orderly later =
      request-IsSettled args attempt events l at unsent mine orderly later

  event-IsSettled :
      (event : Event) (events : List Event) (l : Loop)
      → l.status ≡ running
      → IsUnsent codec own held l
      → IsOwn own l.queue
      → IsOrderly own event
      → SettlesBy events
      → IsSettledBy
          (granting (is_some l.queue) (event ∷ events))
          (turns codec port events (react codec port event l))
  unfolding granting
  event-IsSettled (requested args) events l at unsent mine orderly later =
      let l1 = react codec port (requested args) l in
      subst (λ b. IsSettledBy (granting b events) (turns codec port events l1))
        (try_send_some args l.queue)
        (later l1 at unsent (try_send-IsOwn own args l.queue orderly mine))
  event-IsSettled (received attempt) events l at unsent mine orderly later =
      received-IsSettled attempt l.queue events l refl at unsent mine orderly later
  event-IsSettled tray_quit events l at unsent mine orderly later =
      quit-IsSettled events (react codec port tray_quit l) refl unsent
  event-IsSettled ctrl_c events l at unsent mine orderly later =
      quit-IsSettled events (react codec port ctrl_c l) refl unsent

  -- A loop that runs, finds no mark, has started no copy and has at most a request with the arguments
  -- `own` in its channel, meets requests that all have these arguments, attempts that can remove the mark,
  -- and quits, in any order and number. It ends in a relaunch exactly when some attempt finds a request
  -- and the system grants it before a quit. Then the lock is free, exactly one copy was started, with
  -- these arguments, and the mark is what the first such attempt writes, with its clock, or what its
  -- failure to write leaves. Otherwise, running or after a quit, there is no mark to resume a connection,
  -- no copy was started, and the lock is as it was.
  pub turns-IsSettled :
      (events : List Event) (l : Loop)
      → l.status ≡ running
      → IsUnsent codec own held l
      → IsOwn own l.queue
      → All (IsOrderly own) events
      → IsSettled codec own held (granting (is_some l.queue) events) (turns codec port events l)
  unfolding granting turns
  turns-IsSettled [] l at unsent mine all =
      subst (λ st. IsSettledAt codec own held none st l) (sym at) (refl, unsent, mine)
  turns-IsSettled (event ∷ events) l at unsent mine (orderly, all) =
      subst (IsSettledBy (granting (is_some l.queue) (event ∷ events)))
        (sym (turns-running codec port event events l at))
        (event-IsSettled event events l at unsent mine orderly
          (λ l1 at1 unsent1 mine1. turns-IsSettled events l1 at1 unsent1 mine1 all))
