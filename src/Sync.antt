-- ===== src/Sync.antt =====
-- Folder pairs: bs-sync-pair.h and the `bs sync pair` commands of main.cpp.
pub mod Scan
pub mod Diff
pub mod Converge
pub mod Settled
pub mod Pair
pub mod Fresh
pub mod Command
pub mod Lookup
pub mod Gate
pub mod Outcome
pub mod Again
pub mod Cycle
