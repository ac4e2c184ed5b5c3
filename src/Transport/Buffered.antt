-- ===== src/Transport/Buffered.antt =====
-- Frames in a buffer of received bytes: `buffered_bytes_hold_complete_frame` and
-- `drain_complete_frames` of bs-tls.h.
pub mod Split
pub mod Stream
pub mod Total
use bridge_sessions.Base.{
  ℕ, zero, suc, ◌+◌, Bool, true, false, ◌&&◌, ◌||◌, Option, none, some, List, [], ◌∷◌, ltb, leb,
  length, take, drop, if◌then◌else◌,
}
use bridge_sessions.Codec.Result.{Result, ok, err, ◌>>=◌, stuck}
use bridge_sessions.Codec.Zstd.{Zstd}
use bridge_sessions.Codec.Message.{Message}
use bridge_sessions.Codec.Frame.{frame_header_layout, decode}

-- An exception of the layout counts as complete, so that `decode` tells of it.
abbrev pub layout_complete : ℕ → Result (ℕ × ℕ) → Bool
layout_complete n (err e) = true
layout_complete n (ok (hdr, size)) = leb hdr n && leb (hdr + size) n

unfoldable pub buffered_bytes_hold_complete_frame : List ℕ → Bool
buffered_bytes_hold_complete_frame bytes =
    leb 6 (length bytes) && layout_complete (length bytes) (frame_header_layout bytes)

-- The two tests that leave the loop: the header and the payload are there, or nothing is taken.
abbrev pub frame_size : ℕ → ℕ × ℕ → Option ℕ
frame_size avail (hdr, size) =
    if ltb avail hdr || ltb avail (hdr + size) then none else some (hdr + size)

-- How many bytes the next round of the loop takes; none when the loop ends.
unfoldable pub next_frame : List ℕ → Result (Option ℕ)
next_frame buffered =
    if ltb (length buffered) 6
    then ok none
    else (frame_header_layout buffered >>= λ layout. ok (frame_size (length buffered) layout))

module _ (z : Zstd) where
  -- The messages, and the bytes that stay in the buffer. A frame has six bytes at least, so one round
  -- for each byte is enough.
  unfoldable pub drain : ℕ → List ℕ → Result (List Message × List ℕ)
  drain zero buffered = err stuck
  drain (suc fuel) buffered = next_frame buffered >>= λ next. elim next [
    | none ↦ ok ([], buffered)
    | some n ↦ do
      m ← decode z (take n buffered)
      rest ← drain fuel (drop n buffered)
      ok (m ∷ rest.0, rest.1)
  ]

  unfoldable pub drain_complete_frames : List ℕ → Result (List Message × List ℕ)
  drain_complete_frames buffered = drain (suc (length buffered)) buffered
