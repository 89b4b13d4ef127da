-- ===== src/Web.antt =====
-- src/web: the gate in front of the HTTP interface, and the events that the page is sent.
pub mod Server
pub mod Bridge
pub mod Handlers
pub mod Overlap
pub mod Router
pub mod Run
mod Examples
