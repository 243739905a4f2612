-- ===== src/Server.antt =====
-- The b-CAP server, bcap_core/src/bCAPServer/bcap_server.c.
pub mod Vector
pub mod MapId
pub mod Execute
pub mod Children
pub mod Changes
pub mod Receive
pub mod Retry
pub mod Once
pub mod Options
pub mod Agrees
pub mod Full
pub mod Cleanup
mod Runs
mod Tests
