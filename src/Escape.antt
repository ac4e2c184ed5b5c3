-- ===== src/Escape.antt =====
-- Escape sequences in the output of terminals: bs-osc52.h.
pub mod Osc52
pub mod Clipboard
pub mod Body
pub mod Plain
pub mod Modes
pub mod Settings
