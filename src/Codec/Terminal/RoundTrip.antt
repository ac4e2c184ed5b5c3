-- ===== src/Codec/Terminal/RoundTrip.antt =====
-- The terminal messages read back. `…Fits` says that the numbers are values of their C++ types.
use bridge_sessions.Base.{◌^◌, ◌<◌}
use bridge_sessions.Base.Signed.{IsI32}
use bridge_sessions.Codec.Wire.{◌⨾◌, Wire, Ends, next, next_end, last, last_end, wire_if}
use bridge_sessions.Codec.Wire.Words.{
  wire_u8, wire_u16, wire_u32be, wire_u64be, wire_i32, wire_flag, AtLeast-u32be, AtLeast-flag,
}
use bridge_sessions.Codec.Wire.Texts.{
  Ends-rest, wire_str_prefixed, wire_str_prefixed_u16, AtLeast-str_prefixed_u16,
}
use bridge_sessions.Codec.Terminal.{
  KeystrokeMsg, serialize_keystroke, decode_keystroke, OutputMsg, serialize_output, decode_output,
  ResizeMsg, serialize_resize, decode_resize, ClipboardEchoMsg, serialize_clipboard_echo,
  decode_clipboard_echo, ScrollbackMsg, serialize_scrollback, decode_scrollback, SignalMsg,
  serialize_signal, decode_signal, ExitCodeMsg, serialize_exit_code, decode_exit_code,
  SessionDiedMsg, serialize_session_died, decode_session_died, AttachAckMsg, serialize_attach_ack,
  decode_attach_ack, OutputGapMsg, serialize_output_gap, decode_output_gap, AttachMsg,
  serialize_attach, decode_attach,
}

pub Ends-keystroke : (m : KeystrokeMsg) → Ends (serialize_keystroke m) decode_keystroke m
unfolding serialize_keystroke decode_keystroke
Ends-keystroke m = last_end _ (Ends-rest m.payload)

pub Ends-output : (m : OutputMsg) → Ends (serialize_output m) decode_output m
unfolding serialize_output decode_output
Ends-output m = next_end _ (wire_flag m.render_markdown) ⨾ last_end _ (Ends-rest m.payload)

abbrev pub ResizeFits : ResizeMsg → Type 0
ResizeFits m = (m.cols < 2 ^ 16) × (m.rows < 2 ^ 16)

pub wire_resize : (m : ResizeMsg) → ResizeFits m → Wire (serialize_resize m) decode_resize m
unfolding serialize_resize decode_resize
wire_resize m (cols_fits, rows_fits) = next _ (wire_u16 cols_fits) ⨾ last _ (wire_u16 rows_fits)

pub Ends-clipboard_echo :
    (m : ClipboardEchoMsg) → Ends (serialize_clipboard_echo m) decode_clipboard_echo m
unfolding serialize_clipboard_echo decode_clipboard_echo
Ends-clipboard_echo m = last_end _ (Ends-rest m.hash)

abbrev pub ScrollbackFits : ScrollbackMsg → Type 0
ScrollbackFits m = (m.total_lines < 2 ^ 32) × (m.chunk_index < 2 ^ 32)

pub Ends-scrollback :
    (m : ScrollbackMsg) → ScrollbackFits m → Ends (serialize_scrollback m) decode_scrollback m
unfolding serialize_scrollback decode_scrollback
Ends-scrollback m (total_lines_fits, chunk_index_fits) =
    next_end _ (wire_u32be total_lines_fits)
    ⨾ next_end _ (wire_u32be chunk_index_fits)
    ⨾ last_end _ (Ends-rest m.payload)

pub wire_signal : (m : SignalMsg) → Wire (serialize_signal m) decode_signal m
unfolding serialize_signal decode_signal
wire_signal m = next _ (wire_u8 m.signal) ⨾ last _ (wire_str_prefixed_u16 m.process)

abbrev pub ExitCodeFits : ExitCodeMsg → Type 0
ExitCodeFits m = IsI32 m.code

pub wire_exit_code :
    (m : ExitCodeMsg) → ExitCodeFits m → Wire (serialize_exit_code m) decode_exit_code m
unfolding serialize_exit_code decode_exit_code
wire_exit_code m code_fits = last _ (wire_i32 code_fits)

abbrev pub SessionDiedFits : SessionDiedMsg → Type 0
SessionDiedFits m = (IsI32 m.exit_code) × (IsI32 m.signal_num)

pub wire_session_died :
    (m : SessionDiedMsg) → SessionDiedFits m → Wire (serialize_session_died m) decode_session_died m
unfolding serialize_session_died decode_session_died
wire_session_died m (exit_code_fits, signal_num_fits) =
    next _ (wire_i32 exit_code_fits) ⨾ last _ (wire_i32 signal_num_fits)

abbrev pub AttachAckFits : AttachAckMsg → Type 0
AttachAckFits m = (m.attach_id < 2 ^ 32) × (m.cols < 2 ^ 16) × (m.rows < 2 ^ 16)

pub wire_attach_ack :
    (m : AttachAckMsg) → AttachAckFits m → Wire (serialize_attach_ack m) decode_attach_ack m
unfolding serialize_attach_ack decode_attach_ack
wire_attach_ack m (attach_id_fits, cols_fits, rows_fits) =
    next _ (wire_u32be attach_id_fits)
    ⨾ next _ (wire_str_prefixed m.session_name)
    ⨾ next _ (wire_u16 cols_fits)
    ⨾ last _ (wire_u16 rows_fits)

abbrev pub OutputGapFits : OutputGapMsg → Type 0
OutputGapFits m = m.dropped_bytes < 2 ^ 64

pub wire_output_gap :
    (m : OutputGapMsg) → OutputGapFits m → Wire (serialize_output_gap m) decode_output_gap m
unfolding serialize_output_gap decode_output_gap
wire_output_gap m dropped_bytes_fits = last _ (wire_u64be dropped_bytes_fits)

abbrev pub AttachFits : AttachMsg → Type 0
AttachFits m = (m.cols < 2 ^ 16) × (m.rows < 2 ^ 16) × (m.client_instance_id < 2 ^ 32)

pub wire_attach : (m : AttachMsg) → AttachFits m → Wire (serialize_attach m) decode_attach m
unfolding serialize_attach decode_attach
wire_attach m (cols, rows, instance_id) =
    next _ (wire_u16 cols)
    ⨾ next _ (wire_u16 rows)
    ⨾ next _ (wire_str_prefixed m.term)
    ⨾ next _ (wire_str_prefixed m.session_name)
    ⨾ next _ (wire_str_prefixed m.routing)
    ⨾ next _ (wire_if _ (AtLeast-str_prefixed_u16 _) (wire_str_prefixed_u16 m.command))
    ⨾ next _ (wire_if _ (AtLeast-str_prefixed_u16 _) (wire_str_prefixed_u16 m.signal_on_detach))
    ⨾ next _ (wire_if _ (AtLeast-u32be _) (wire_u32be instance_id))
    ⨾ next _ (wire_if _ (AtLeast-flag _) (wire_flag m.spectator))
    ⨾ last _ (wire_if _ (AtLeast-flag _) (wire_flag m.reconnect_only))
