-- ===== src/Codec/Dispatch.antt =====
-- The switch of `decode` on the type byte.
use bridge_sessions.Base.{ℕ, ◌==◌, if◌then◌else◌}
use bridge_sessions.Codec.Result.{unknown_type}
use bridge_sessions.Codec.Decoder.{Get, ◌>>=◌, pure, throw}
use bridge_sessions.Codec.Terminal.{
  decode_keystroke, decode_output, decode_resize, decode_clipboard_echo, decode_attach,
  decode_scrollback, decode_signal, decode_exit_code, decode_session_died, decode_attach_ack,
  decode_output_gap,
}
use bridge_sessions.Codec.Clipboard.{decode_clipboard, decode_session_list}
use bridge_sessions.Codec.ServerInfo.{decode_server_info}
use bridge_sessions.Codec.Media.{
  decode_image_data, decode_image_frame, decode_cua_request, decode_cua_response,
  decode_cua_video_capture, decode_cua_video_capture_result,
}
use bridge_sessions.Codec.Mesh.{
  decode_hello, decode_gossip, decode_session_search, decode_sdp_offer, decode_sdp_answer,
  decode_dht_find_node, decode_dht_find_value,
}
use bridge_sessions.Codec.File.{
  decode_file_meta, decode_file_chunk, decode_file_ack, decode_file_request,
}
use bridge_sessions.Codec.Conversation.{
  decode_conversation_append, decode_conversation_query, decode_conversation_batch,
}
use bridge_sessions.Codec.Join.{decode_join_request, decode_join_reply, decode_directory_enroll}
use bridge_sessions.Codec.Message.{
  Message, keystroke, output, resize, clipboard, clipboard_echo, attach, detach, session_list,
  server_info, ping, pong, scrollback, signal, exit_code, scrollback_ack, session_died, image_data,
  image_frame, image_ack, hello, gossip, session_search, sdp_offer, sdp_answer, dht_find_node,
  dht_find_value, file_meta, file_chunk, file_ack, file_request, attach_ack, output_gap,
  conversation_append, conversation_query, conversation_batch, cua_request, cua_response,
  join_request, join_reply, cua_video_capture, cua_video_capture_result, directory_enroll,
}

unfoldable pub get_as : {A : Type 0} → (A → Message) → Get A → Get Message
get_as wrap g = do a ← g; pure (wrap a)

-- The switch of `decode` on the type byte.
unfoldable pub decode_payload : ℕ → Get Message
decode_payload t =
    if t == 0x01
    then get_as keystroke decode_keystroke
    else if t == 0x02
    then get_as output decode_output
    else if t == 0x03
    then get_as resize decode_resize
    else if t == 0x04
    then get_as clipboard decode_clipboard
    else if t == 0x05
    then get_as clipboard decode_clipboard
    else if t == 0x11
    then get_as clipboard_echo decode_clipboard_echo
    else if t == 0x06
    then get_as attach decode_attach
    else if t == 0x07
    then pure detach
    else if t == 0x08
    then get_as session_list decode_session_list
    else if t == 0x09
    then get_as server_info decode_server_info
    else if t == 0x0a
    then pure ping
    else if t == 0x0b
    then pure pong
    else if t == 0x0c
    then get_as scrollback decode_scrollback
    else if t == 0x0d
    then get_as signal decode_signal
    else if t == 0x0e
    then get_as exit_code decode_exit_code
    else if t == 0x0f
    then pure scrollback_ack
    else if t == 0x10
    then get_as session_died decode_session_died
    else if t == 0x12
    then get_as image_data decode_image_data
    else if t == 0x13
    then get_as image_frame decode_image_frame
    else if t == 0x14
    then pure image_ack
    else if t == 0x15
    then get_as hello decode_hello
    else if t == 0x16
    then get_as gossip decode_gossip
    else if t == 0x17
    then get_as session_search decode_session_search
    else if t == 0x18
    then get_as sdp_offer decode_sdp_offer
    else if t == 0x19
    then get_as sdp_answer decode_sdp_answer
    else if t == 0x1a
    then get_as dht_find_node decode_dht_find_node
    else if t == 0x1b
    then get_as dht_find_value decode_dht_find_value
    else if t == 0x1c
    then get_as file_meta decode_file_meta
    else if t == 0x1d
    then get_as file_chunk decode_file_chunk
    else if t == 0x1e
    then get_as file_ack decode_file_ack
    else if t == 0x1f
    then get_as file_request decode_file_request
    else if t == 0x21
    then get_as attach_ack decode_attach_ack
    else if t == 0x22
    then get_as output_gap decode_output_gap
    else if t == 0x23
    then get_as conversation_append decode_conversation_append
    else if t == 0x24
    then get_as conversation_query decode_conversation_query
    else if t == 0x25
    then get_as conversation_batch decode_conversation_batch
    else if t == 0x26
    then get_as cua_request decode_cua_request
    else if t == 0x27
    then get_as cua_response decode_cua_response
    else if t == 0x28
    then get_as join_request decode_join_request
    else if t == 0x29
    then get_as join_reply decode_join_reply
    else if t == 0x2a
    then get_as cua_video_capture decode_cua_video_capture
    else if t == 0x2b
    then get_as cua_video_capture_result decode_cua_video_capture_result
    else if t == 0x2c
    then get_as directory_enroll decode_directory_enroll
    else throw (unknown_type t)
