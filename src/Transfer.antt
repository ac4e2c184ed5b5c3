-- ===== src/Transfer.antt =====
-- File transfers: sizes and counts (bs-codec.h), and the receiver of a file (bs-mesh-transfer.h).
pub mod Chunks
pub mod Shape
pub mod Legacy
pub mod Digest
pub mod Receive
pub mod Telemetry
pub mod Timing
