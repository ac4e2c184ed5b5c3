-- ===== src/Codec/Terminal.antt =====
-- The messages of a terminal session: the structs of bs-codec.h, their `serialize_msg` overloads,
-- and their cases of the switch in `decode`. A `std::string` is its bytes; a field `data` is
-- `payload`. The structs without fields have no record: `Message` has a constructor for each.
pub mod RoundTrip
use bridge_sessions.Base.{
  ℕ, zero, suc, ◌+◌, ◌-◌, ◌*◌, ◌%◌, ◌^◌, ◌≤◌, ◌<◌, ◌≡◌, refl, sym, ap, subst, ◌∙◌, ◌≢◌, inl, inr,
  Bool, true, false, not, ◌&&◌, ◌||◌, Option, none, some, List, [], ◌∷◌, ◌++◌, arith, ltb, leb,
  ◌==◌, min, length, take, drop, length-append, append-nil, append_assoc, All, if◌then◌else◌,
  Bool-cases, Option-cases,
}
use bridge_sessions.Base.Signed.{ℤ, IsI32, IsI16}
use bridge_sessions.Codec.Result.{
  Error, ok, err, clipboard_separator, image_over_cap, image_frame_over_cap, file_chunk_over_cap,
  cua_text_over_cap, cua_data_over_cap, batch_over_512,
}
use bridge_sessions.Codec.Serializer.{
  Put, ◌>>◌, put_nothing, put_bytes, put_u8, put_u16, put_u32be, put_u64be, put_str,
  put_str_prefixed, put_str_prefixed_u16, put_flag, put_u64_halves, put_i32, put_i16, put_check,
  put_blob, put_each,
}
use bridge_sessions.Codec.Decoder.{
  Get, ◌>>=◌, pure, throw, get_u8, get_u16, get_u32be, get_u64be, get_str_size, get_rest,
  get_str_prefixed, get_str_prefixed_u16, get_flag, get_u64_halves, get_i32, get_i16, get_if,
  get_check, get_blob, get_many,
}

pub record KeystrokeMsg : Type 0 where
  pub payload : List ℕ

unfoldable pub serialize_keystroke : KeystrokeMsg → Put
serialize_keystroke m = do put_str m.payload

unfoldable pub decode_keystroke : Get KeystrokeMsg
decode_keystroke = do payload ← get_rest; pure (record { payload = payload })

pub record OutputMsg : Type 0 where
  pub payload : List ℕ
  pub render_markdown : Bool

unfoldable pub serialize_output : OutputMsg → Put
serialize_output m = do put_flag m.render_markdown; put_str m.payload

unfoldable pub decode_output : Get OutputMsg
decode_output = do
  render_markdown ← get_flag
  payload ← get_rest
  pure (record { payload = payload; render_markdown = render_markdown })

pub record ResizeMsg : Type 0 where
  pub cols : ℕ
  pub rows : ℕ

unfoldable pub serialize_resize : ResizeMsg → Put
serialize_resize m = do put_u16 m.cols; put_u16 m.rows

unfoldable pub decode_resize : Get ResizeMsg
decode_resize = do cols ← get_u16; rows ← get_u16; pure (record { cols = cols; rows = rows })

pub record ClipboardEchoMsg : Type 0 where
  pub hash : List ℕ

unfoldable pub serialize_clipboard_echo : ClipboardEchoMsg → Put
serialize_clipboard_echo m = do put_str m.hash

unfoldable pub decode_clipboard_echo : Get ClipboardEchoMsg
decode_clipboard_echo = do hash ← get_rest; pure (record { hash = hash })

pub record ScrollbackMsg : Type 0 where
  pub payload : List ℕ
  pub total_lines : ℕ
  pub chunk_index : ℕ

unfoldable pub serialize_scrollback : ScrollbackMsg → Put
serialize_scrollback m = do put_u32be m.total_lines; put_u32be m.chunk_index; put_str m.payload

unfoldable pub decode_scrollback : Get ScrollbackMsg
decode_scrollback = do
  total_lines ← get_u32be
  chunk_index ← get_u32be
  payload ← get_rest
  pure (record { payload = payload; total_lines = total_lines; chunk_index = chunk_index })

pub record SignalMsg : Type 0 where
  pub signal : ℕ
  pub process : List ℕ

unfoldable pub serialize_signal : SignalMsg → Put
serialize_signal m = do put_u8 m.signal; put_str_prefixed_u16 m.process

unfoldable pub decode_signal : Get SignalMsg
decode_signal = do
  signal ← get_u8
  process ← get_str_prefixed_u16
  pure (record { signal = signal; process = process })

pub record ExitCodeMsg : Type 0 where
  pub code : ℤ

unfoldable pub serialize_exit_code : ExitCodeMsg → Put
serialize_exit_code m = do put_i32 m.code

unfoldable pub decode_exit_code : Get ExitCodeMsg
decode_exit_code = do code ← get_i32; pure (record { code = code })

pub record SessionDiedMsg : Type 0 where
  pub exit_code : ℤ
  pub signal_num : ℤ

unfoldable pub serialize_session_died : SessionDiedMsg → Put
serialize_session_died m = do put_i32 m.exit_code; put_i32 m.signal_num

unfoldable pub decode_session_died : Get SessionDiedMsg
decode_session_died = do
  exit_code ← get_i32
  signal_num ← get_i32
  pure (record { exit_code = exit_code; signal_num = signal_num })

pub record AttachAckMsg : Type 0 where
  pub attach_id : ℕ
  pub session_name : List ℕ
  pub cols : ℕ
  pub rows : ℕ

unfoldable pub serialize_attach_ack : AttachAckMsg → Put
serialize_attach_ack m = do
  put_u32be m.attach_id
  put_str_prefixed m.session_name
  put_u16 m.cols
  put_u16 m.rows

unfoldable pub decode_attach_ack : Get AttachAckMsg
decode_attach_ack = do
  attach_id ← get_u32be
  session_name ← get_str_prefixed
  cols ← get_u16
  rows ← get_u16
  pure (record { attach_id = attach_id; session_name = session_name; cols = cols; rows = rows })

pub record OutputGapMsg : Type 0 where
  pub dropped_bytes : ℕ

unfoldable pub serialize_output_gap : OutputGapMsg → Put
serialize_output_gap m = do put_u64be m.dropped_bytes

unfoldable pub decode_output_gap : Get OutputGapMsg
decode_output_gap = do dropped_bytes ← get_u64be; pure (record { dropped_bytes = dropped_bytes })

pub record AttachMsg : Type 0 where
  pub session_name : List ℕ
  pub routing : List ℕ
  pub cols : ℕ
  pub rows : ℕ
  pub term : List ℕ
  pub command : List ℕ
  pub signal_on_detach : List ℕ
  pub client_instance_id : ℕ
  pub spectator : Bool
  pub reconnect_only : Bool

unfoldable pub serialize_attach : AttachMsg → Put
serialize_attach m = do
  put_u16 m.cols
  put_u16 m.rows
  put_str_prefixed m.term
  put_str_prefixed m.session_name
  put_str_prefixed m.routing
  put_str_prefixed_u16 m.command
  put_str_prefixed_u16 m.signal_on_detach
  put_u32be m.client_instance_id
  put_flag m.spectator
  put_flag m.reconnect_only

unfoldable pub decode_attach : Get AttachMsg
decode_attach = do
  cols ← get_u16
  rows ← get_u16
  term ← get_str_prefixed
  session_name ← get_str_prefixed
  routing ← get_str_prefixed
  command ← get_if 2 get_str_prefixed_u16 []
  signal_on_detach ← get_if 2 get_str_prefixed_u16 []
  client_instance_id ← get_if 4 get_u32be 0
  spectator ← get_if 1 get_flag Bool.false
  reconnect_only ← get_if 1 get_flag Bool.false
  pure (record {
    session_name = session_name;
    routing = routing;
    cols = cols;
    rows = rows;
    term = term;
    command = command;
    signal_on_detach = signal_on_detach;
    client_instance_id = client_instance_id;
    spectator = spectator;
    reconnect_only = reconnect_only;
  })
