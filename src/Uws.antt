-- ===== src/Uws.antt =====
-- The uWebSockets programs, src/uwebsockets.
pub mod Client
pub mod Server
