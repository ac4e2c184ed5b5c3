-- ===== src/Codec/Frame/Legacy.antt =====
-- Peers that do not announce `+frm2` read 16-bit lengths only.
use bridge_sessions.Base.{
  ℕ, ◌+◌, ◌%◌, ◌^◌, ◌≤◌, ◌≡◌, subst, Bool, false, List, arith, ltb, ◌==◌, bit_and, length,
  if◌then◌else◌,
}
use bridge_sessions.Codec.Result.{ok, >>=-eq-ok, logical_over_cap, encoded_over_u16}
use bridge_sessions.Codec.Serializer.{be_bytes}
use bridge_sessions.Codec.Zstd.{Zstd, zstd_compress}
use bridge_sessions.Codec.MessageType.{type_byte}
use bridge_sessions.Codec.Message.{Message, message_type, serialize_msg}
use bridge_sessions.Codec.Wire.Words.{read_u16_be}
use bridge_sessions.Codec.Wire.{ok-injective}
use bridge_sessions.Codec.Frame.{
  max_frame_payload_u16, compression_threshold, control_stream_id, flag_length_u32, logical_cap,
  build_frame, frame_u16, frame_header_layout, pack, encode,
}
use bridge_sessions.Codec.Frame.RoundTrip.{flag_facts, check_passed}

-- A frame that a reader of 16-bit lengths takes whole: six bytes of header, then the payload.
pub record IsLegacyFrame (frame : List ℕ) : Type 0 where
  pub size : ℕ
  pub fits : size ≤ max_frame_payload_u16
  pub layout : frame_header_layout frame ≡ ok (6, size)
  pub whole : length frame ≡ 6 + size

frame_u16-IsLegacyFrame :
    (stream_id type flags : ℕ) (payload : List ℕ)
    → bit_and flags flag_length_u32 ≡ 0
    → length payload ≤ max_frame_payload_u16
    → IsLegacyFrame (frame_u16 stream_id type flags payload)
unfolding frame_u16 frame_header_layout be_bytes
frame_u16-IsLegacyFrame stream_id type flags payload plain fits = record {
  size = length payload;
  fits = fits;
  layout = ground (arith, read_u16_be (length payload % 2 ^ 16));
  whole = omega arith;
}

build_frame-IsLegacyFrame :
    (stream_id type flags : ℕ) (payload frame : List ℕ)
    → bit_and flags flag_length_u32 ≡ 0
    → build_frame stream_id type flags false payload ≡ ok frame
    → IsLegacyFrame frame
unfolding build_frame
build_frame-IsLegacyFrame stream_id type flags payload frame plain e =
    let (passed, built) =
      check_passed (ltb max_frame_payload_u16 (length payload)) encoded_over_u16
        (ok (frame_u16 stream_id type flags payload)) e in
    subst IsLegacyFrame (ok-injective built)
      (frame_u16-IsLegacyFrame stream_id type flags payload plain (ground arith))

-- Without `allow_large`, whatever `encode` accepts is a frame with a 16-bit length.
pub encode-IsLegacyFrame :
    (z : Zstd) (m : Message) (stream_id : ℕ) (frame : List ℕ)
    → encode z m stream_id false ≡ ok frame
    → IsLegacyFrame frame
unfolding encode pack
encode-IsLegacyFrame z m stream_id frame e =
    let (logical, written, rest) = >>=-eq-ok (serialize_msg m) _ e in
    let (passed, packed) =
      check_passed (ltb (logical_cap false) (length logical)) logical_over_cap
        (pack z (type_byte (message_type m)) stream_id false logical) rest in
    let compressed : Bool = ltb compression_threshold (length logical) in
    let (payload, made, built) =
      >>=-eq-ok (if compressed then zstd_compress z logical else ok logical) _ packed in
    build_frame-IsLegacyFrame stream_id _ _ payload frame
      (flag_facts compressed (stream_id == control_stream_id)).short built
