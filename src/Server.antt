-- ===== src/Server.antt =====
-- The server process (server/).
pub mod Request
pub mod Dispatch
pub mod Connections
pub mod Loop
pub mod Worker
