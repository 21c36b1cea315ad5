-- ===== src/Usockets.antt =====
-- The uSockets programs, src/usockets-tcp.
pub mod HttpsClient
pub mod Server
