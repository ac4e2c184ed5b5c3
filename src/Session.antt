-- ===== src/Session.antt =====
-- Sessions: the scrollback of a session (bs-session.h).
pub mod Ring
pub mod Registry
