-- ===== src/Wpp.antt =====
-- The websocketpp programs, src/websocketpp.
pub mod Server
