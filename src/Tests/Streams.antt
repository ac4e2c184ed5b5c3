-- ===== src/Tests/Streams.antt =====
-- Frames in a buffer, with the stand-in for libzstd.
use bridge_sessions.Base.{ℕ, ◌≡◌, ◌≢◌, true, false, List, [], ◌∷◌, arith}
use bridge_sessions.Codec.Result.{err, stuck, u32_header_truncated}
use bridge_sessions.Transport.Buffered.{drain_complete_frames, buffered_bytes_hold_complete_frame}
use bridge_sessions.Transport.Buffered.Stream.{Sent}
use bridge_sessions.Transport.Buffered.Split.{drain_complete_frames-split_u32}
use bridge_sessions.Transport.Buffered.Total.{drain_complete_frames-ne-stuck}
use bridge_sessions.Tests.Frames.{plain_zstd, window, window_frame, paste}

abbrev both : List Sent
both =
    record { message = window; stream_id = 0; allow_large = false }
    ∷ record { message = paste; stream_id = 7; allow_large = true }
    ∷ []

abbrev half_header : List ℕ
half_header = 0 ∷ 0 ∷ 3 ∷ []

abbrev split_header : List ℕ
split_header = 0 ∷ 7 ∷ 1 ∷ 8 ∷ 0 ∷ 1 ∷ 17 ∷ []

drain_complete_frames-split_u32_example :
    (buffered_bytes_hold_complete_frame split_header ≡ true)
    × (drain_complete_frames plain_zstd split_header ≡ err u32_header_truncated)
drain_complete_frames-split_u32_example =
    drain_complete_frames-split_u32 plain_zstd split_header (omega arith) (omega arith)
      (λ e. ground arith)

drain_complete_frames-ne-stuck_example : drain_complete_frames plain_zstd window_frame ≢ err stuck
drain_complete_frames-ne-stuck_example = drain_complete_frames-ne-stuck plain_zstd window_frame
