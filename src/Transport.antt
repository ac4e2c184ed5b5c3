-- ===== src/Transport.antt =====
-- The stream of frames that a connection reads (bs-tls.h).
pub mod Buffered
