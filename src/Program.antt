-- ===== src/Program.antt =====
-- src/main.rs: the start of the program, the connection that is resumed after elevation, the loop that
-- waits for an elevation request or for the end, and the shutdown.
pub mod Lock
pub mod Resume
pub mod Elevation
pub mod Shutdown
pub mod Main
mod Examples
