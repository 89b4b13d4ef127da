-- ===== src/Manager/Session.antt =====
-- What the manager promises of a session, without its tasks, timers and locks: whether it is active,
-- and the child that is registered for it.
pub mod Steps
pub mod Refines
mod Examples
use zju_connect_gui.Base.{ℕ, ◌≡◌, Bool, true, false, Option, none, some}

pub record Session : Type 0 where
  pub active : Bool
  pub child : Option ℕ

-- Which kind of step an action of the manager may take.
pub data Kind : Type 0 where
  quiet activating spawning reaping ending : Kind

-- A session is always activated, and a child always reaped, by the actions of these kinds.
abbrev pub may_stay : Kind → Bool
may_stay activating = false
may_stay reaping = false
may_stay _ = true

pub data SessionStep : Kind → Session → Session → Type 0 where
  stays : {k : Kind} {a : Session} → may_stay k ≡ true → SessionStep k a a
  activate : {a b : Session} → b ≡ record a { active = true } → SessionStep activating a b
  register :
      {a b : Session} (pid : ℕ)
      → a ≡ record { active = true; child = none }
      → b ≡ record { active = true; child = some pid }
      → SessionStep spawning a b
  reap : {a b : Session} → b ≡ record a { child = none } → SessionStep reaping a b
  end : {a b : Session} → b ≡ record a { active = false } → SessionStep ending a b
