-- ===== src/Codec/Steady/Messages.antt =====
-- Every case of the switch of `decode` ends, whatever the bytes.
use bridge_sessions.Base.{ℕ, ◌==◌}
use bridge_sessions.Codec.Result.{unknown_type}
use bridge_sessions.Codec.Decoder.{Get}
use bridge_sessions.Codec.Steady.{Steady, Steady-bind, Steady-pure, Steady-throw}
use bridge_sessions.Codec.Wire.{◌⨾◌}
use bridge_sessions.Codec.Steady.Loops.{steady_rules}
use bridge_sessions.Codec.Clipboard.{find_byte}
use bridge_sessions.Codec.ServerInfo.{legacy_split}
use bridge_sessions.Codec.Message.{Message}
use bridge_sessions.Codec.Dispatch.{get_as, decode_payload}
use bridge_sessions.Codec.Terminal.{
  decode_keystroke, decode_output, decode_resize, decode_clipboard_echo, decode_attach,
  decode_scrollback, decode_signal, decode_exit_code, decode_session_died, decode_attach_ack,
  decode_output_gap,
}
use bridge_sessions.Codec.Clipboard.{decode_clipboard, decode_session_list}
use bridge_sessions.Codec.ServerInfo.{decode_server_info}
use bridge_sessions.Codec.Media.{
  decode_image_data, decode_image_frame, decode_cua_request, decode_cua_response,
  decode_cua_video_capture, decode_cua_video_capture_result,
}
use bridge_sessions.Codec.Mesh.{
  decode_hello, decode_gossip, decode_session_search, decode_sdp_offer, decode_sdp_answer,
  decode_dht_find_node, decode_dht_find_value,
}
use bridge_sessions.Codec.File.{
  decode_file_meta, decode_file_chunk, decode_file_ack, decode_file_request,
}
use bridge_sessions.Codec.Conversation.{
  decode_conversation_append, decode_conversation_query, decode_conversation_batch,
}
use bridge_sessions.Codec.Join.{decode_join_request, decode_join_reply, decode_directory_enroll}
use bridge_sessions.Codec.Steady.Items.{
  IsReal-unknown_type, item_rules, Steady-meta_ext, Steady-branch, Steady-join_accepted,
  Steady-join_refused, Steady-clipboard_from, Steady-server_info_from,
}

Steady-keystroke : Steady decode_keystroke
unfolding decode_keystroke
Steady-keystroke = search (item_rules) depth 26

Steady-output : Steady decode_output
unfolding decode_output
Steady-output = search (item_rules) depth 26

Steady-resize : Steady decode_resize
unfolding decode_resize
Steady-resize = search (item_rules) depth 26

Steady-clipboard : Steady decode_clipboard
unfolding decode_clipboard
Steady-clipboard = record { at = λ s. (Steady-clipboard_from (find_byte b'\n' s)).at s }

Steady-clipboard_echo : Steady decode_clipboard_echo
unfolding decode_clipboard_echo
Steady-clipboard_echo = search (item_rules) depth 26

Steady-attach : Steady decode_attach
unfolding decode_attach
Steady-attach = search (item_rules) depth 26

Steady-session_list : Steady decode_session_list
unfolding decode_session_list
Steady-session_list = search (item_rules) depth 26

Steady-server_info : Steady decode_server_info
unfolding decode_server_info
Steady-server_info = record { at = λ s. (Steady-server_info_from (legacy_split s)).at s }

Steady-scrollback : Steady decode_scrollback
unfolding decode_scrollback
Steady-scrollback = search (item_rules) depth 26

Steady-signal : Steady decode_signal
unfolding decode_signal
Steady-signal = search (item_rules) depth 26

Steady-exit_code : Steady decode_exit_code
unfolding decode_exit_code
Steady-exit_code = search (item_rules) depth 26

Steady-session_died : Steady decode_session_died
unfolding decode_session_died
Steady-session_died = search (item_rules) depth 26

Steady-image_data : Steady decode_image_data
unfolding decode_image_data
Steady-image_data = search (item_rules) depth 26

Steady-image_frame : Steady decode_image_frame
unfolding decode_image_frame
Steady-image_frame = search (item_rules) depth 26

Steady-hello : Steady decode_hello
unfolding decode_hello
Steady-hello = search (item_rules) depth 26

Steady-gossip : Steady decode_gossip
unfolding decode_gossip
Steady-gossip = search (item_rules) depth 26

Steady-session_search : Steady decode_session_search
unfolding decode_session_search
Steady-session_search = search (item_rules) depth 26

Steady-sdp_offer : Steady decode_sdp_offer
unfolding decode_sdp_offer
Steady-sdp_offer = search (item_rules) depth 26

Steady-sdp_answer : Steady decode_sdp_answer
unfolding decode_sdp_answer
Steady-sdp_answer = search (item_rules) depth 26

Steady-dht_find_node : Steady decode_dht_find_node
unfolding decode_dht_find_node
Steady-dht_find_node = search (item_rules) depth 26

Steady-dht_find_value : Steady decode_dht_find_value
unfolding decode_dht_find_value
Steady-dht_find_value = search (item_rules) depth 26

Steady-file_meta : Steady decode_file_meta
unfolding decode_file_meta
Steady-file_meta = search (item_rules, Steady-meta_ext) depth 26

Steady-file_chunk : Steady decode_file_chunk
unfolding decode_file_chunk
Steady-file_chunk = search (item_rules) depth 26

Steady-file_ack : Steady decode_file_ack
unfolding decode_file_ack
Steady-file_ack = search (item_rules) depth 26

Steady-file_request : Steady decode_file_request
unfolding decode_file_request
Steady-file_request = search (item_rules) depth 26

Steady-attach_ack : Steady decode_attach_ack
unfolding decode_attach_ack
Steady-attach_ack = search (item_rules) depth 26

Steady-output_gap : Steady decode_output_gap
unfolding decode_output_gap
Steady-output_gap = search (item_rules) depth 26

Steady-conversation_append : Steady decode_conversation_append
unfolding decode_conversation_append
Steady-conversation_append = search (item_rules) depth 26

Steady-conversation_query : Steady decode_conversation_query
unfolding decode_conversation_query
Steady-conversation_query = search (item_rules) depth 26

Steady-conversation_batch : Steady decode_conversation_batch
unfolding decode_conversation_batch
Steady-conversation_batch = search (item_rules) depth 26

Steady-cua_request : Steady decode_cua_request
unfolding decode_cua_request
Steady-cua_request = search (item_rules) depth 26

Steady-cua_response : Steady decode_cua_response
unfolding decode_cua_response
Steady-cua_response = search (item_rules) depth 26

Steady-join_request : Steady decode_join_request
unfolding decode_join_request
Steady-join_request = search (item_rules) depth 26

Steady-join_reply : Steady decode_join_reply
unfolding decode_join_reply
Steady-join_reply =
    search (steady_rules, Steady-branch, Steady-join_accepted, Steady-join_refused) depth 8

Steady-cua_video_capture : Steady decode_cua_video_capture
unfolding decode_cua_video_capture
Steady-cua_video_capture = search (item_rules) depth 26

Steady-cua_video_capture_result : Steady decode_cua_video_capture_result
unfolding decode_cua_video_capture_result
Steady-cua_video_capture_result = search (item_rules) depth 26

Steady-directory_enroll : Steady decode_directory_enroll
unfolding decode_directory_enroll
Steady-directory_enroll = search (item_rules) depth 26

Steady-as : {A : Type 0} (wrap : A → Message) {g : Get A} → Steady g → Steady (get_as wrap g)
unfolding get_as
Steady-as wrap v = Steady-bind v (λ a. Steady-pure (wrap a))

pub Steady-payload : (t : ℕ) → Steady (decode_payload t)
unfolding decode_payload
Steady-payload t =
    Steady-branch (t == 0x01) (Steady-as _ Steady-keystroke)
    ⨾ Steady-branch (t == 0x02) (Steady-as _ Steady-output)
    ⨾ Steady-branch (t == 0x03) (Steady-as _ Steady-resize)
    ⨾ Steady-branch (t == 0x04) (Steady-as _ Steady-clipboard)
    ⨾ Steady-branch (t == 0x05) (Steady-as _ Steady-clipboard)
    ⨾ Steady-branch (t == 0x11) (Steady-as _ Steady-clipboard_echo)
    ⨾ Steady-branch (t == 0x06) (Steady-as _ Steady-attach)
    ⨾ Steady-branch (t == 0x07) (Steady-pure _)
    ⨾ Steady-branch (t == 0x08) (Steady-as _ Steady-session_list)
    ⨾ Steady-branch (t == 0x09) (Steady-as _ Steady-server_info)
    ⨾ Steady-branch (t == 0x0a) (Steady-pure _)
    ⨾ Steady-branch (t == 0x0b) (Steady-pure _)
    ⨾ Steady-branch (t == 0x0c) (Steady-as _ Steady-scrollback)
    ⨾ Steady-branch (t == 0x0d) (Steady-as _ Steady-signal)
    ⨾ Steady-branch (t == 0x0e) (Steady-as _ Steady-exit_code)
    ⨾ Steady-branch (t == 0x0f) (Steady-pure _)
    ⨾ Steady-branch (t == 0x10) (Steady-as _ Steady-session_died)
    ⨾ Steady-branch (t == 0x12) (Steady-as _ Steady-image_data)
    ⨾ Steady-branch (t == 0x13) (Steady-as _ Steady-image_frame)
    ⨾ Steady-branch (t == 0x14) (Steady-pure _)
    ⨾ Steady-branch (t == 0x15) (Steady-as _ Steady-hello)
    ⨾ Steady-branch (t == 0x16) (Steady-as _ Steady-gossip)
    ⨾ Steady-branch (t == 0x17) (Steady-as _ Steady-session_search)
    ⨾ Steady-branch (t == 0x18) (Steady-as _ Steady-sdp_offer)
    ⨾ Steady-branch (t == 0x19) (Steady-as _ Steady-sdp_answer)
    ⨾ Steady-branch (t == 0x1a) (Steady-as _ Steady-dht_find_node)
    ⨾ Steady-branch (t == 0x1b) (Steady-as _ Steady-dht_find_value)
    ⨾ Steady-branch (t == 0x1c) (Steady-as _ Steady-file_meta)
    ⨾ Steady-branch (t == 0x1d) (Steady-as _ Steady-file_chunk)
    ⨾ Steady-branch (t == 0x1e) (Steady-as _ Steady-file_ack)
    ⨾ Steady-branch (t == 0x1f) (Steady-as _ Steady-file_request)
    ⨾ Steady-branch (t == 0x21) (Steady-as _ Steady-attach_ack)
    ⨾ Steady-branch (t == 0x22) (Steady-as _ Steady-output_gap)
    ⨾ Steady-branch (t == 0x23) (Steady-as _ Steady-conversation_append)
    ⨾ Steady-branch (t == 0x24) (Steady-as _ Steady-conversation_query)
    ⨾ Steady-branch (t == 0x25) (Steady-as _ Steady-conversation_batch)
    ⨾ Steady-branch (t == 0x26) (Steady-as _ Steady-cua_request)
    ⨾ Steady-branch (t == 0x27) (Steady-as _ Steady-cua_response)
    ⨾ Steady-branch (t == 0x28) (Steady-as _ Steady-join_request)
    ⨾ Steady-branch (t == 0x29) (Steady-as _ Steady-join_reply)
    ⨾ Steady-branch (t == 0x2a) (Steady-as _ Steady-cua_video_capture)
    ⨾ Steady-branch (t == 0x2b) (Steady-as _ Steady-cua_video_capture_result)
    ⨾ Steady-branch (t == 0x2c) (Steady-as _ Steady-directory_enroll)
    ⨾ Steady-throw (unknown_type t) (IsReal-unknown_type t)
