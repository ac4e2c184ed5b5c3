-- ===== src/Transport/Buffered/Stream.antt =====
-- Frames that follow each other in the buffer are taken off it one by one.
use bridge_sessions.Base.{ℕ, ◌+◌, ◌≤◌, ◌≡◌, Bool, List, [], ◌∷◌, ◌++◌, length}
use bridge_sessions.Codec.Result.{Result, ok, ◌>>=◌}
use bridge_sessions.Codec.Zstd.{Zstd}
use bridge_sessions.Codec.Message.{Message}
use bridge_sessions.Codec.Frame.{frame_header_layout, encode}

-- The layout of a frame at the start of a buffer is that of all the frame.
record LeadsWith (frame rest : List ℕ) : Type 0 where
  hdr : ℕ
  size : ℕ
  layout : frame_header_layout (frame ++ rest) ≡ ok (hdr, size)
  whole : hdr + size ≡ length frame
  header : 6 ≤ hdr

-- What a sender puts on the stream: a message, its stream and whether the peer reads long frames.
pub record Sent : Type 0 where
  pub message : Message
  pub stream_id : ℕ
  pub allow_large : Bool

-- The frames of messages, one behind the other.
abbrev pub encode_all : Zstd → List Sent → Result (List ℕ)
encode_all z [] = ok []
encode_all z (s ∷ more) = do
  frame ← encode z s.message s.stream_id s.allow_large
  behind ← encode_all z more
  ok (frame ++ behind)
