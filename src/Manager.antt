-- ===== src/Manager.antt =====
-- src/backend/proxy/manager.rs: the session of the supervised `zju-connect` process.
pub mod State
pub mod Action
pub mod Start
pub mod Stop
pub mod Input
pub mod Captcha
pub mod Ready
pub mod Exit
pub mod Bridge
pub mod Exec
pub mod System
pub mod OneChild
pub mod Idle
pub mod Exits
pub mod Submission
pub mod Alone
pub mod Reconnect
pub mod Startup
pub mod Stale
pub mod Session
pub mod Examples
