-- ===== src/Codec/Frame.antt =====
-- Frames: `encode`, `frame_header_layout` and `decode`.
pub mod RoundTrip
pub mod Total
pub mod Legacy
use bridge_sessions.Base.{
  ℕ, ◌+◌, ◌*◌, ◌%◌, ◌^◌, ◌≡◌, Bool, true, false, not, ◌&&◌, List, [], ◌∷◌, ◌++◌, bit_and, bit_or,
  ltb, ◌==◌, length, take, drop, get_or, if◌then◌else◌,
}
use bridge_sessions.Codec.Result.{
  Result, Error, ok, err, ◌>>=◌, logical_over_cap, encoded_over_u32, encoded_over_u16,
  header_truncated, u32_header_truncated, payload_over_u32, frame_too_short, frame_truncated,
  decoded_over_u32,
}
use bridge_sessions.Codec.Serializer.{be_bytes}
use bridge_sessions.Codec.Decoder.{read_u16, read_u32be}
use bridge_sessions.Codec.File.{max_frame_payload_u32}
use bridge_sessions.Codec.Zstd.{Zstd, zstd_compress, zstd_decompress}
use bridge_sessions.Codec.MessageType.{type_byte}
use bridge_sessions.Codec.Message.{Message, message_type, serialize_msg}
use bridge_sessions.Codec.Dispatch.{decode_payload}

abbrev pub max_frame_payload_u16 : ℕ
max_frame_payload_u16 = 65535

abbrev pub compression_threshold : ℕ
compression_threshold = 256

abbrev pub control_stream_id : ℕ
control_stream_id = 0

-- `enum FrameFlags`
abbrev pub flag_compressed : ℕ
flag_compressed = 0x01

abbrev pub flag_control : ℕ
flag_control = 0x02

abbrev pub flag_length_u32 : ℕ
flag_length_u32 = 0x08

-- `logical_cap` of `encode`
abbrev pub logical_cap : Bool → ℕ
logical_cap allow_large = if allow_large then max_frame_payload_u32 else max_frame_payload_u16

-- `if (over) throw e;`
abbrev pub check : Bool → Error → Result (Unit {0})
check over e = if over then err e else ok tt

-- `if (b) flags |= flag;`
abbrev pub set_flag : Bool → ℕ → ℕ → ℕ
set_flag b flag flags = if b then bit_or flags flag else flags

-- A frame with a 32-bit length, and one with a 16-bit length.
unfoldable pub frame_u32 : ℕ → ℕ → ℕ → List ℕ → List ℕ
frame_u32 stream_id type flags payload =
    be_bytes 2 stream_id ++ (type ∷ flags ∷ (be_bytes 4 (length payload % 2 ^ 32) ++ payload))

unfoldable pub frame_u16 : ℕ → ℕ → ℕ → List ℕ → List ℕ
frame_u16 stream_id type flags payload =
    be_bytes 2 stream_id ++ (type ∷ flags ∷ (be_bytes 2 (length payload % 2 ^ 16) ++ payload))

-- The end of `encode`: the length takes 32 bits if the payload needs them and the peer reads them.
unfoldable pub build_frame : ℕ → ℕ → ℕ → Bool → List ℕ → Result (List ℕ)
build_frame stream_id type flags allow_large payload =
    if allow_large && ltb max_frame_payload_u16 (length payload)
    then (do
      _ ← check (ltb max_frame_payload_u32 (length payload)) encoded_over_u32
      ok (frame_u32 stream_id type (bit_or flags flag_length_u32) payload))
    else (do
      _ ← check (ltb max_frame_payload_u16 (length payload)) encoded_over_u16
      ok (frame_u16 stream_id type flags payload))

module _ (z : Zstd) where
  -- The part of `encode` behind the serializer and the check of the logical payload.
  unfoldable pub pack : ℕ → ℕ → Bool → List ℕ → Result (List ℕ)
  pack type stream_id allow_large logical =
      let compress = ltb compression_threshold (length logical) in
      do
        payload ← if compress then zstd_compress z logical else ok logical
        let flags =
            set_flag (stream_id == control_stream_id) flag_control
              (set_flag compress flag_compressed 0)
        build_frame stream_id type flags allow_large payload

  unfoldable pub encode : Message → ℕ → Bool → Result (List ℕ)
  encode msg stream_id allow_large = do
    logical ← serialize_msg msg
    _ ← check (ltb (logical_cap allow_large) (length logical)) logical_over_cap
    pack (type_byte (message_type msg)) stream_id allow_large logical

-- The size of the header and the length of the payload.
unfoldable pub frame_header_layout : List ℕ → Result (ℕ × ℕ)
frame_header_layout raw = do
  _ ← check (ltb (length raw) 6) header_truncated
  let flags = get_or raw 3 0
  if not (bit_and flags flag_length_u32 == 0)
      then (do
        _ ← check (ltb (length raw) 8) u32_header_truncated
        let n = read_u32be (get_or raw 4 0) (get_or raw 5 0) (get_or raw 6 0) (get_or raw 7 0)
        _ ← check (ltb max_frame_payload_u32 n) payload_over_u32
        ok (8, n))
      else ok (6, read_u16 (get_or raw 4 0) (get_or raw 5 0))

-- The type byte, the flags and the payload of a frame.
unfoldable pub split_frame : List ℕ → Result (ℕ × ℕ × List ℕ)
split_frame raw = do
  _ ← check (ltb (length raw) 6) frame_too_short
  layout ← frame_header_layout raw
  _ ← check (ltb (length raw) (layout.0 + layout.1)) frame_truncated
  ok (get_or raw 2 0, get_or raw 3 0, take layout.1 (drop layout.0 raw))

module _ (z : Zstd) where
  unfoldable pub unpack : ℕ → List ℕ → Result (List ℕ)
  unpack flags body =
      if not (bit_and flags flag_compressed == 0) && ltb 0 (length body)
      then zstd_decompress z body
      else ok body

  unfoldable pub decode : List ℕ → Result Message
  decode raw = do
    parts ← split_frame raw
    payload ← unpack parts.1 parts.2
    _ ← check (ltb max_frame_payload_u32 (length payload)) decoded_over_u32
    msg ← decode_payload parts.0 payload
    ok msg.0
