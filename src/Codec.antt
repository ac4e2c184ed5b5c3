-- ===== src/Codec.antt =====
-- bs-codec.h: the messages of the mesh, their serializer and decoder, and the frames around them.
pub mod Result
pub mod Serializer
pub mod Decoder
pub mod Wire
pub mod Terminal
pub mod Clipboard
pub mod Media
pub mod Mesh
pub mod Join
pub mod File
pub mod Conversation
pub mod ServerInfo
pub mod MessageType
pub mod Message
pub mod Dispatch
pub mod Zstd
pub mod Frame
pub mod Steady
