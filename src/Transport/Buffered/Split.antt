-- ===== src/Transport/Buffered/Split.antt =====
-- Headers that arrive in parts.
use bridge_sessions.Base.{
  ℕ, ◌≤◌, ◌<◌, ◌≡◌, ◌≢◌, true, none, List, arith, get_or, bit_and, length, take, length-take,
  get_or-take,
}
use bridge_sessions.Codec.Result.{ok, err, u32_header_truncated}
use bridge_sessions.Codec.Zstd.{Zstd}
use bridge_sessions.Codec.Frame.{frame_header_layout}
use bridge_sessions.Codec.Frame.Legacy.{IsLegacyFrame}
use bridge_sessions.Transport.Buffered.{
  next_frame, drain, drain_complete_frames, buffered_bytes_hold_complete_frame,
}

-- A part of a frame with a 16-bit length.
pub next_frame-IsLegacyFrame :
    (frame : List ℕ) (n : ℕ)
    → IsLegacyFrame frame
    → n < length frame
    → next_frame (take n frame) ≡ ok none
unfolding next_frame frame_header_layout
next_frame-IsLegacyFrame frame n l part = ground (
  arith,
  l.layout,
  l.whole,
  l.fits,
  length-take n frame,
  get_or-take n frame 3 0,
  get_or-take n frame 4 0,
  get_or-take n frame 5 0,
)

module _ (z : Zstd) where
  -- Six or seven bytes of a header with a 32-bit length, of a frame that may be sound: the bytes count as a complete frame, and taking the frames throws.
  pub drain_complete_frames-split_u32 :
      (buffered : List ℕ)
      → 6 ≤ length buffered
      → length buffered < 8
      → bit_and (get_or buffered 3 0) 8 ≢ 0
      → (buffered_bytes_hold_complete_frame buffered ≡ true)
        × (drain_complete_frames z buffered ≡ err u32_header_truncated)
  unfolding drain_complete_frames drain next_frame frame_header_layout
      buffered_bytes_hold_complete_frame
  drain_complete_frames-split_u32 buffered six short long = (ground arith, ground arith)
