-- ===== src/Version.antt =====
-- Version strings of bs-codec.h: capability tags, calendar versions and their order.
pub mod Parse
pub mod Order
