-- ===== src/Tests.antt =====
-- Concrete runs of the model, and the theorems at concrete inputs.
mod Frames
mod Names
mod Rings
mod Streams
mod Folders
mod Escapes
mod Registries
mod Transfers
