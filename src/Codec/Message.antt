-- ===== src/Codec/Message.antt =====
-- `Message`, the variant of all messages; its type bytes and serializer by alternative.
pub mod RoundTrip
use bridge_sessions.Base.{ℕ, ◌==◌, if◌then◌else◌}
use bridge_sessions.Codec.Result.{unknown_type}
use bridge_sessions.Codec.Serializer.{Put, put_nothing}
use bridge_sessions.Codec.Decoder.{Get, ◌>>=◌, pure, throw}
use bridge_sessions.Codec.MessageType
use bridge_sessions.Codec.MessageType.{MessageType}
use bridge_sessions.Codec.Terminal.{
  KeystrokeMsg, serialize_keystroke, decode_keystroke, OutputMsg, serialize_output, decode_output,
  ResizeMsg, serialize_resize, decode_resize, ClipboardEchoMsg, serialize_clipboard_echo,
  decode_clipboard_echo, AttachMsg, serialize_attach, decode_attach, ScrollbackMsg,
  serialize_scrollback, decode_scrollback, SignalMsg, serialize_signal, decode_signal, ExitCodeMsg,
  serialize_exit_code, decode_exit_code, SessionDiedMsg, serialize_session_died,
  decode_session_died, AttachAckMsg, serialize_attach_ack, decode_attach_ack, OutputGapMsg,
  serialize_output_gap, decode_output_gap,
}
use bridge_sessions.Codec.Clipboard.{
  ClipboardMsg, serialize_clipboard, decode_clipboard, SessionListMsg, serialize_session_list,
  decode_session_list,
}
use bridge_sessions.Codec.ServerInfo.{ServerInfoMsg, serialize_server_info, decode_server_info}
use bridge_sessions.Codec.Media.{
  ImageDataMsg, serialize_image_data, decode_image_data, ImageFrameMsg, serialize_image_frame,
  decode_image_frame, CuaRequestMsg, serialize_cua_request, decode_cua_request, CuaResponseMsg,
  serialize_cua_response, decode_cua_response, CuaVideoCaptureMsg, serialize_cua_video_capture,
  decode_cua_video_capture, CuaVideoCaptureResultMsg, serialize_cua_video_capture_result,
  decode_cua_video_capture_result,
}
use bridge_sessions.Codec.Mesh.{
  HelloMsg, serialize_hello, decode_hello, GossipMsg, serialize_gossip, decode_gossip,
  SessionSearchMsg, serialize_session_search, decode_session_search, SdpOfferMsg,
  serialize_sdp_offer, decode_sdp_offer, SdpAnswerMsg, serialize_sdp_answer, decode_sdp_answer,
  DhtFindNodeMsg, serialize_dht_find_node, decode_dht_find_node, DhtFindValueMsg,
  serialize_dht_find_value, decode_dht_find_value,
}
use bridge_sessions.Codec.File.{
  FileMetaMsg, serialize_file_meta, decode_file_meta, FileChunkMsg, serialize_file_chunk,
  decode_file_chunk, FileAckMsg, serialize_file_ack, decode_file_ack, FileRequestMsg,
  serialize_file_request, decode_file_request,
}
use bridge_sessions.Codec.Conversation.{
  ConversationAppendMsg, serialize_conversation_append, decode_conversation_append,
  ConversationQueryMsg, serialize_conversation_query, decode_conversation_query,
  ConversationBatchMsg, serialize_conversation_batch, decode_conversation_batch,
}
use bridge_sessions.Codec.Join.{
  JoinRequestMsg, serialize_join_request, decode_join_request, JoinReplyMsg, serialize_join_reply,
  decode_join_reply, DirectoryEnrollMsg, serialize_directory_enroll, decode_directory_enroll,
}

pub data Message : Type 0 where
  keystroke : KeystrokeMsg → Message
  output : OutputMsg → Message
  resize : ResizeMsg → Message
  clipboard : ClipboardMsg → Message
  clipboard_echo : ClipboardEchoMsg → Message
  attach : AttachMsg → Message
  detach : Message
  session_list : SessionListMsg → Message
  server_info : ServerInfoMsg → Message
  ping : Message
  pong : Message
  scrollback : ScrollbackMsg → Message
  signal : SignalMsg → Message
  exit_code : ExitCodeMsg → Message
  scrollback_ack : Message
  session_died : SessionDiedMsg → Message
  image_data : ImageDataMsg → Message
  image_frame : ImageFrameMsg → Message
  image_ack : Message
  hello : HelloMsg → Message
  gossip : GossipMsg → Message
  session_search : SessionSearchMsg → Message
  sdp_offer : SdpOfferMsg → Message
  sdp_answer : SdpAnswerMsg → Message
  dht_find_node : DhtFindNodeMsg → Message
  dht_find_value : DhtFindValueMsg → Message
  file_meta : FileMetaMsg → Message
  file_chunk : FileChunkMsg → Message
  file_ack : FileAckMsg → Message
  file_request : FileRequestMsg → Message
  attach_ack : AttachAckMsg → Message
  output_gap : OutputGapMsg → Message
  conversation_append : ConversationAppendMsg → Message
  conversation_query : ConversationQueryMsg → Message
  conversation_batch : ConversationBatchMsg → Message
  cua_request : CuaRequestMsg → Message
  cua_response : CuaResponseMsg → Message
  join_request : JoinRequestMsg → Message
  join_reply : JoinReplyMsg → Message
  cua_video_capture : CuaVideoCaptureMsg → Message
  cua_video_capture_result : CuaVideoCaptureResultMsg → Message
  directory_enroll : DirectoryEnrollMsg → Message

-- `message_type`: the table `index_to_type` at the index of the alternative
unfoldable pub message_type : Message → MessageType
message_type (keystroke m) = MessageType.keystroke
message_type (output m) = MessageType.output
message_type (resize m) = MessageType.resize
message_type (clipboard m) = MessageType.clipboard_get
message_type (clipboard_echo m) = MessageType.clipboard_echo
message_type (attach m) = MessageType.attach
message_type detach = MessageType.detach
message_type (session_list m) = MessageType.session_list
message_type (server_info m) = MessageType.server_info
message_type ping = MessageType.ping
message_type pong = MessageType.pong
message_type (scrollback m) = MessageType.scrollback
message_type (signal m) = MessageType.signal
message_type (exit_code m) = MessageType.proc_exited
message_type scrollback_ack = MessageType.scrollback_ack
message_type (session_died m) = MessageType.session_died
message_type (image_data m) = MessageType.image_data
message_type (image_frame m) = MessageType.image_frame
message_type image_ack = MessageType.image_ack
message_type (hello m) = MessageType.hello
message_type (gossip m) = MessageType.gossip
message_type (session_search m) = MessageType.session_search
message_type (sdp_offer m) = MessageType.sdp_offer
message_type (sdp_answer m) = MessageType.sdp_answer
message_type (dht_find_node m) = MessageType.dht_find_node
message_type (dht_find_value m) = MessageType.dht_find_value
message_type (file_meta m) = MessageType.file_meta
message_type (file_chunk m) = MessageType.file_chunk
message_type (file_ack m) = MessageType.file_ack
message_type (file_request m) = MessageType.file_request
message_type (attach_ack m) = MessageType.attach_ack
message_type (output_gap m) = MessageType.output_gap
message_type (conversation_append m) = MessageType.conversation_append
message_type (conversation_query m) = MessageType.conversation_query
message_type (conversation_batch m) = MessageType.conversation_batch
message_type (cua_request m) = MessageType.cua_request
message_type (cua_response m) = MessageType.cua_response
message_type (join_request m) = MessageType.join_request
message_type (join_reply m) = MessageType.join_reply
message_type (cua_video_capture m) = MessageType.cua_video_capture
message_type (cua_video_capture_result m) = MessageType.cua_video_capture_result
message_type (directory_enroll m) = MessageType.directory_enroll

-- `std::visit` of `serialize_msg`
unfoldable pub serialize_msg : Message → Put
serialize_msg (keystroke m) = serialize_keystroke m
serialize_msg (output m) = serialize_output m
serialize_msg (resize m) = serialize_resize m
serialize_msg (clipboard m) = serialize_clipboard m
serialize_msg (clipboard_echo m) = serialize_clipboard_echo m
serialize_msg (attach m) = serialize_attach m
serialize_msg detach = put_nothing
serialize_msg (session_list m) = serialize_session_list m
serialize_msg (server_info m) = serialize_server_info m
serialize_msg ping = put_nothing
serialize_msg pong = put_nothing
serialize_msg (scrollback m) = serialize_scrollback m
serialize_msg (signal m) = serialize_signal m
serialize_msg (exit_code m) = serialize_exit_code m
serialize_msg scrollback_ack = put_nothing
serialize_msg (session_died m) = serialize_session_died m
serialize_msg (image_data m) = serialize_image_data m
serialize_msg (image_frame m) = serialize_image_frame m
serialize_msg image_ack = put_nothing
serialize_msg (hello m) = serialize_hello m
serialize_msg (gossip m) = serialize_gossip m
serialize_msg (session_search m) = serialize_session_search m
serialize_msg (sdp_offer m) = serialize_sdp_offer m
serialize_msg (sdp_answer m) = serialize_sdp_answer m
serialize_msg (dht_find_node m) = serialize_dht_find_node m
serialize_msg (dht_find_value m) = serialize_dht_find_value m
serialize_msg (file_meta m) = serialize_file_meta m
serialize_msg (file_chunk m) = serialize_file_chunk m
serialize_msg (file_ack m) = serialize_file_ack m
serialize_msg (file_request m) = serialize_file_request m
serialize_msg (attach_ack m) = serialize_attach_ack m
serialize_msg (output_gap m) = serialize_output_gap m
serialize_msg (conversation_append m) = serialize_conversation_append m
serialize_msg (conversation_query m) = serialize_conversation_query m
serialize_msg (conversation_batch m) = serialize_conversation_batch m
serialize_msg (cua_request m) = serialize_cua_request m
serialize_msg (cua_response m) = serialize_cua_response m
serialize_msg (join_request m) = serialize_join_request m
serialize_msg (join_reply m) = serialize_join_reply m
serialize_msg (cua_video_capture m) = serialize_cua_video_capture m
serialize_msg (cua_video_capture_result m) = serialize_cua_video_capture_result m
serialize_msg (directory_enroll m) = serialize_directory_enroll m
