-- ===== src/Tests/Frames.antt =====
-- Frames at concrete messages, with a stand-in for libzstd that puts one byte before the content.
use bridge_sessions.Base.{
  leb, if◌then◌else◌, arith, ℕ, ◌≡◌, ◌≢◌, refl, true, false, Option, none, some, List, [], ◌∷◌,
  arith, length, replicate,
}
use bridge_sessions.Codec.Result.{ok, err, stuck}
use bridge_sessions.Codec.Serializer.{◌>>◌, be_bytes, put_u16, put_str}
use bridge_sessions.Codec.Zstd.{
  ContentSize, size_error, size_known, Zstd, IsZstd, zstd_compress, zstd_decompress, AgreeBelow,
  zstd_decompress-AgreeBelow,
}
use bridge_sessions.Codec.File.{max_frame_payload_u32}
use bridge_sessions.Codec.MessageType.{type_byte}
use bridge_sessions.Codec.Terminal.{serialize_keystroke, serialize_resize}
use bridge_sessions.Codec.Message.{Message, keystroke, resize, message_type, serialize_msg}
use bridge_sessions.Codec.Frame.{frame_u16, build_frame, pack, encode, decode}
use bridge_sessions.Codec.Frame.RoundTrip.{decode-encode}
use bridge_sessions.Codec.Frame.Legacy.{IsLegacyFrame, encode-IsLegacyFrame}
use bridge_sessions.Codec.Frame.Total.{decode-ne-stuck}

abbrev content_of : List ℕ → ContentSize
content_of [] = size_error
content_of (b ∷ d) = size_known (length d)

abbrev tail_of : ℕ → List ℕ → Option (List ℕ)
tail_of n [] = none
tail_of n (b ∷ d) = some d

abbrev pub plain_zstd : Zstd
plain_zstd = record {
  compress_cctx = λ d. some (40 ∷ d);
  frame_content_size = content_of;
  decompress_dctx = tail_of;
}

pub plain_zstd-IsZstd : IsZstd plain_zstd
plain_zstd-IsZstd = record {
  nonempty = λ d c e. ground arith;
  content = λ d c e. ground arith;
  inverse = λ d c e. ground arith;
}

abbrev pub window : Message
window = resize (record { cols = 80; rows = 24 })

abbrev pub window_frame : List ℕ
window_frame = 0 ∷ 0 ∷ 3 ∷ 2 ∷ 0 ∷ 4 ∷ 0 ∷ 80 ∷ 0 ∷ 24 ∷ []

pub encode-window : encode plain_zstd window 0 false ≡ ok window_frame
unfolding encode serialize_msg serialize_resize put_u16 be_bytes ◌>>◌ pack build_frame frame_u16
    type_byte message_type
encode-window = refl

-- A paste of 300 bytes is compressed.
abbrev pub paste : Message
paste = keystroke (record { payload = replicate 300 b'a' })

abbrev pub paste_frame : List ℕ
paste_frame = 0 ∷ 7 ∷ 1 ∷ 1 ∷ 1 ∷ 45 ∷ 40 ∷ replicate 300 b'a'

pub encode-paste : encode plain_zstd paste 7 true ≡ ok paste_frame
unfolding encode serialize_msg serialize_keystroke put_str be_bytes ◌>>◌ pack build_frame frame_u16
    type_byte message_type zstd_compress
encode-paste = refl

decode-encode_example : decode plain_zstd paste_frame ≡ ok paste
decode-encode_example =
    decode-encode plain_zstd plain_zstd-IsZstd paste 7 true paste_frame tt encode-paste

encode-IsLegacyFrame_example : IsLegacyFrame window_frame
encode-IsLegacyFrame_example = encode-IsLegacyFrame plain_zstd window 0 window_frame encode-window

decode-ne-stuck_example : decode plain_zstd (9 ∷ 9 ∷ []) ≢ err stuck
decode-ne-stuck_example = decode-ne-stuck plain_zstd (9 ∷ 9 ∷ [])

-- A libzstd that gives nothing where there is room for more than 4 MiB.
abbrev small_zstd : Zstd
small_zstd = record {
  compress_cctx = λ d. some (40 ∷ d);
  frame_content_size = content_of;
  decompress_dctx = λ n d. if leb n max_frame_payload_u32 then tail_of n d else none;
}

plain-small : AgreeBelow plain_zstd small_zstd
plain-small = record { sizes = λ d. refl; outputs = λ n d small. ground arith }

zstd_decompress-AgreeBelow_example :
    zstd_decompress plain_zstd (40 ∷ 7 ∷ []) ≡ zstd_decompress small_zstd (40 ∷ 7 ∷ [])
zstd_decompress-AgreeBelow_example =
    zstd_decompress-AgreeBelow plain_zstd small_zstd (40 ∷ 7 ∷ []) plain-small
