-- ===== src/Codec/Media/RoundTrip.antt =====
-- The image and computer-use messages read back.
use bridge_sessions.Base.{ℕ, ◌*◌, ◌^◌, ◌≤◌, ◌<◌, ◌≡◌, false, List, arith, ltb, length}
use bridge_sessions.Base.Signed.{IsI16}
use bridge_sessions.Codec.Result.{
  ok, image_over_cap, image_frame_over_cap, cua_text_over_cap, cua_data_over_cap,
}
use bridge_sessions.Codec.Serializer.{put_str_prefixed}
use bridge_sessions.Codec.Wire.{◌⨾◌, Wire, next, last, wire_check, last_checked}
use bridge_sessions.Codec.Wire.Words.{wire_u8, wire_u16, wire_u32be, wire_i16}
use bridge_sessions.Codec.Wire.Texts.{wire_str_prefixed, wire_str_prefixed_u16}
use bridge_sessions.Codec.Wire.Blobs.{wire_blob}
use bridge_sessions.Codec.Media.{
  max_image_bytes, CuaVideoCaptureMsg, serialize_cua_video_capture, decode_cua_video_capture,
  CuaVideoCaptureResultMsg, serialize_cua_video_capture_result, decode_cua_video_capture_result,
  ImageDataMsg, serialize_image_data, decode_image_data, ImageFrameMsg, serialize_image_frame,
  decode_image_frame, CuaRequestMsg, serialize_cua_request, decode_cua_request, CuaResponseMsg,
  serialize_cua_response, decode_cua_response,
}

abbrev pub CuaVideoCaptureFits : CuaVideoCaptureMsg → Type 0
CuaVideoCaptureFits m = (m.request_id < 2 ^ 32) × (m.duration_sec < 2 ^ 16) × (m.max_width < 2 ^ 16)

pub wire_cua_video_capture :
    (m : CuaVideoCaptureMsg)
    → CuaVideoCaptureFits m
    → Wire (serialize_cua_video_capture m) decode_cua_video_capture m
unfolding serialize_cua_video_capture decode_cua_video_capture
wire_cua_video_capture m (request_id_fits, duration_sec_fits, max_width_fits) =
    next _ (wire_u32be request_id_fits)
    ⨾ next _ (wire_u8 m.fps)
    ⨾ next _ (wire_u16 duration_sec_fits)
    ⨾ next _ (wire_u8 m.quality)
    ⨾ last _ (wire_u16 max_width_fits)

abbrev pub CuaVideoCaptureResultFits : CuaVideoCaptureResultMsg → Type 0
CuaVideoCaptureResultFits m =
    (m.request_id < 2 ^ 32) × (m.duration_sec < 2 ^ 16) × (m.width < 2 ^ 16) × (m.height < 2 ^ 16)

pub wire_cua_video_capture_result :
    (m : CuaVideoCaptureResultMsg)
    → CuaVideoCaptureResultFits m
    → Wire (serialize_cua_video_capture_result m) decode_cua_video_capture_result m
unfolding serialize_cua_video_capture_result decode_cua_video_capture_result
wire_cua_video_capture_result m (request_id_fits, duration_sec_fits, width_fits, height_fits) =
    next _ (wire_u32be request_id_fits)
    ⨾ next _ (wire_u8 m.status)
    ⨾ next _ (wire_str_prefixed m.error)
    ⨾ next _ (wire_str_prefixed m.file_path)
    ⨾ next _ (wire_u16 duration_sec_fits)
    ⨾ next _ (wire_u16 width_fits)
    ⨾ next _ (wire_u16 height_fits)
    ⨾ last _ (wire_u8 m.format)

pub wire_image_data : (m : ImageDataMsg) → Wire (serialize_image_data m) decode_image_data m
unfolding serialize_image_data decode_image_data
wire_image_data m = wire_check (ltb max_image_bytes (length m.payload)) image_over_cap λ small.
    next _ (wire_u8 m.format)
    ⨾ next _ (wire_str_prefixed_u16 m.name)
    ⨾ last _ (wire_blob max_image_bytes image_over_cap m.payload (omega arith) (ground arith))

abbrev pub ImageFrameFits : ImageFrameMsg → Type 0
ImageFrameFits m = (m.delay_ms < 2 ^ 32) × (m.loop_count < 2 ^ 32)

pub wire_image_frame :
    (m : ImageFrameMsg) → ImageFrameFits m → Wire (serialize_image_frame m) decode_image_frame m
unfolding serialize_image_frame decode_image_frame
wire_image_frame m (delay, loops) =
    wire_check (ltb max_image_bytes (length m.payload)) image_frame_over_cap λ small.
      next _ (wire_u8 m.format)
      ⨾ next _ (wire_u32be delay)
      ⨾ next _ (wire_u32be loops)
      ⨾ last _
          (wire_blob max_image_bytes image_frame_over_cap m.payload (omega arith) (ground arith))

abbrev pub CuaRequestFits : CuaRequestMsg → Type 0
CuaRequestFits m = (m.request_id < 2 ^ 32) × IsI16 m.x × IsI16 m.y × (m.hid_key < 2 ^ 32)

-- The check of the text's size never throws on what was written.
short_text : (s bs : List ℕ) → put_str_prefixed s ≡ ok bs → ltb (64 * 1024) (length s) ≡ false
unfolding put_str_prefixed
short_text s bs e = ground arith

pub wire_cua_request :
    (m : CuaRequestMsg) → CuaRequestFits m → Wire (serialize_cua_request m) decode_cua_request m
unfolding serialize_cua_request decode_cua_request
wire_cua_request m (request_id, x, y, hid_key) =
    next _ (wire_u32be request_id)
    ⨾ next _ (wire_u8 m.action)
    ⨾ next _ (wire_i16 x)
    ⨾ next _ (wire_i16 y)
    ⨾ next _ (wire_u8 m.button)
    ⨾ next _ (wire_u32be hid_key)
    ⨾ next _ (wire_u8 m.modifiers)
    ⨾ last_checked _ cua_text_over_cap _ (short_text m.text) (wire_str_prefixed m.text)

-- The serializer does not check the cap on the data; the decoder does.
abbrev pub CuaResponseFits : CuaResponseMsg → Type 0
CuaResponseFits m =
    (m.request_id < 2 ^ 32)
    × (m.screen_w < 2 ^ 32)
    × (m.screen_h < 2 ^ 32)
    × (length m.payload ≤ max_image_bytes)

pub wire_cua_response :
    (m : CuaResponseMsg) → CuaResponseFits m → Wire (serialize_cua_response m) decode_cua_response m
unfolding serialize_cua_response decode_cua_response
wire_cua_response m (request_id, w, h, small) =
    next _ (wire_u32be request_id)
    ⨾ next _ (wire_u8 m.status)
    ⨾ next _ (wire_str_prefixed m.error)
    ⨾ next _ (wire_u32be w)
    ⨾ next _ (wire_u32be h)
    ⨾ next _ (wire_u8 m.format)
    ⨾ last _ (wire_blob max_image_bytes cua_data_over_cap m.payload (omega arith) small)
