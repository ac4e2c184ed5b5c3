-- ===== src/Codec/Media.antt =====
-- Images and computer use: pictures sent to a terminal, actions on a remote screen with their
-- replies, and video captures.
pub mod RoundTrip
use bridge_sessions.Base.{
  ℕ, zero, suc, ◌+◌, ◌-◌, ◌*◌, ◌%◌, ◌^◌, ◌≤◌, ◌<◌, ◌≡◌, refl, sym, ap, subst, ◌∙◌, ◌≢◌, inl, inr,
  Bool, true, false, not, ◌&&◌, ◌||◌, Option, none, some, List, [], ◌∷◌, ◌++◌, arith, ltb, leb,
  ◌==◌, min, length, take, drop, length-append, append-nil, append_assoc, All, if◌then◌else◌,
  Bool-cases, Option-cases,
}
use bridge_sessions.Base.Signed.{ℤ, IsI32, IsI16}
use bridge_sessions.Codec.Result.{
  Error, ok, err, clipboard_separator, image_over_cap, image_frame_over_cap, file_chunk_over_cap,
  cua_text_over_cap, cua_data_over_cap, batch_over_512,
}
use bridge_sessions.Codec.Serializer.{
  Put, ◌>>◌, put_nothing, put_bytes, put_u8, put_u16, put_u32be, put_u64be, put_str,
  put_str_prefixed, put_str_prefixed_u16, put_flag, put_u64_halves, put_i32, put_i16, put_check,
  put_blob, put_each,
}
use bridge_sessions.Codec.Decoder.{
  Get, ◌>>=◌, pure, throw, get_u8, get_u16, get_u32be, get_u64be, get_str_size, get_rest,
  get_str_prefixed, get_str_prefixed_u16, get_flag, get_u64_halves, get_i32, get_i16, get_if,
  get_check, get_blob, get_many,
}

pub record CuaVideoCaptureMsg : Type 0 where
  pub request_id : ℕ
  pub fps : ℕ
  pub duration_sec : ℕ
  pub quality : ℕ
  pub max_width : ℕ

unfoldable pub serialize_cua_video_capture : CuaVideoCaptureMsg → Put
serialize_cua_video_capture m = do
  put_u32be m.request_id
  put_u8 m.fps
  put_u16 m.duration_sec
  put_u8 m.quality
  put_u16 m.max_width

unfoldable pub decode_cua_video_capture : Get CuaVideoCaptureMsg
decode_cua_video_capture = do
  request_id ← get_u32be
  fps ← get_u8
  duration_sec ← get_u16
  quality ← get_u8
  max_width ← get_u16
  pure (record {
    request_id = request_id;
    fps = fps;
    duration_sec = duration_sec;
    quality = quality;
    max_width = max_width;
  })

pub record CuaVideoCaptureResultMsg : Type 0 where
  pub request_id : ℕ
  pub status : ℕ
  pub error : List ℕ
  pub file_path : List ℕ
  pub duration_sec : ℕ
  pub width : ℕ
  pub height : ℕ
  pub format : ℕ

unfoldable pub serialize_cua_video_capture_result : CuaVideoCaptureResultMsg → Put
serialize_cua_video_capture_result m = do
  put_u32be m.request_id
  put_u8 m.status
  put_str_prefixed m.error
  put_str_prefixed m.file_path
  put_u16 m.duration_sec
  put_u16 m.width
  put_u16 m.height
  put_u8 m.format

unfoldable pub decode_cua_video_capture_result : Get CuaVideoCaptureResultMsg
decode_cua_video_capture_result = do
  request_id ← get_u32be
  status ← get_u8
  error ← get_str_prefixed
  file_path ← get_str_prefixed
  duration_sec ← get_u16
  width ← get_u16
  height ← get_u16
  format ← get_u8
  pure (record {
    request_id = request_id;
    status = status;
    error = error;
    file_path = file_path;
    duration_sec = duration_sec;
    width = width;
    height = height;
    format = format;
  })

-- `MAX_IMAGE_BYTES`
abbrev pub max_image_bytes : ℕ
max_image_bytes = 50 * 1024 * 1024

pub record ImageDataMsg : Type 0 where
  pub format : ℕ
  pub name : List ℕ
  pub payload : List ℕ

unfoldable pub serialize_image_data : ImageDataMsg → Put
serialize_image_data m = do
  put_check (ltb max_image_bytes (length m.payload)) image_over_cap
  put_u8 m.format
  put_str_prefixed_u16 m.name
  put_blob m.payload

unfoldable pub decode_image_data : Get ImageDataMsg
decode_image_data = do
  format ← get_u8
  name ← get_str_prefixed_u16
  payload ← get_blob max_image_bytes image_over_cap
  pure (record { format = format; name = name; payload = payload })

pub record ImageFrameMsg : Type 0 where
  pub format : ℕ
  pub delay_ms : ℕ
  pub loop_count : ℕ
  pub payload : List ℕ

unfoldable pub serialize_image_frame : ImageFrameMsg → Put
serialize_image_frame m = do
  put_check (ltb max_image_bytes (length m.payload)) image_frame_over_cap
  put_u8 m.format
  put_u32be m.delay_ms
  put_u32be m.loop_count
  put_blob m.payload

unfoldable pub decode_image_frame : Get ImageFrameMsg
decode_image_frame = do
  format ← get_u8
  delay_ms ← get_u32be
  loop_count ← get_u32be
  payload ← get_blob max_image_bytes image_frame_over_cap
  pure (record { format = format; delay_ms = delay_ms; loop_count = loop_count; payload = payload })

pub record CuaRequestMsg : Type 0 where
  pub request_id : ℕ
  pub action : ℕ
  pub x : ℤ
  pub y : ℤ
  pub button : ℕ
  pub hid_key : ℕ
  pub modifiers : ℕ
  pub text : List ℕ

unfoldable pub serialize_cua_request : CuaRequestMsg → Put
serialize_cua_request m = do
  put_u32be m.request_id
  put_u8 m.action
  put_i16 m.x
  put_i16 m.y
  put_u8 m.button
  put_u32be m.hid_key
  put_u8 m.modifiers
  put_str_prefixed m.text

unfoldable pub decode_cua_request : Get CuaRequestMsg
decode_cua_request = do
  request_id ← get_u32be
  action ← get_u8
  x ← get_i16
  y ← get_i16
  button ← get_u8
  hid_key ← get_u32be
  modifiers ← get_u8
  text ← get_str_prefixed
  _ ← get_check (ltb (64 * 1024) (length text)) cua_text_over_cap
  pure (record {
    request_id = request_id;
    action = action;
    x = x;
    y = y;
    button = button;
    hid_key = hid_key;
    modifiers = modifiers;
    text = text;
  })

pub record CuaResponseMsg : Type 0 where
  pub request_id : ℕ
  pub status : ℕ
  pub error : List ℕ
  pub screen_w : ℕ
  pub screen_h : ℕ
  pub format : ℕ
  pub payload : List ℕ

unfoldable pub serialize_cua_response : CuaResponseMsg → Put
serialize_cua_response m = do
  put_u32be m.request_id
  put_u8 m.status
  put_str_prefixed m.error
  put_u32be m.screen_w
  put_u32be m.screen_h
  put_u8 m.format
  put_blob m.payload

unfoldable pub decode_cua_response : Get CuaResponseMsg
decode_cua_response = do
  request_id ← get_u32be
  status ← get_u8
  error ← get_str_prefixed
  screen_w ← get_u32be
  screen_h ← get_u32be
  format ← get_u8
  payload ← get_blob max_image_bytes cua_data_over_cap
  pure (record {
    request_id = request_id;
    status = status;
    error = error;
    screen_w = screen_w;
    screen_h = screen_h;
    format = format;
    payload = payload;
  })
