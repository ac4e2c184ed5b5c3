-- ===== src/Codec/Message/RoundTrip.antt =====
-- Every message reads back from its payload.
use bridge_sessions.Base.{ℕ, ◌≡◌, refl, none, List, []}
use bridge_sessions.Codec.Result.{ok}
use bridge_sessions.Codec.Decoder.{pure}
use bridge_sessions.Codec.Wire.{Ends, last_end, ends, Ends-of_ok}
use bridge_sessions.Codec.Serializer.{put_nothing}
use bridge_sessions.Codec.MessageType.{type_byte}
use bridge_sessions.Codec.Terminal.RoundTrip.{
  Ends-keystroke, Ends-output, wire_resize, ResizeFits, Ends-clipboard_echo, wire_attach,
  AttachFits, Ends-scrollback, ScrollbackFits, wire_signal, wire_exit_code, ExitCodeFits,
  wire_session_died, SessionDiedFits, wire_attach_ack, AttachAckFits, wire_output_gap,
  OutputGapFits,
}
use bridge_sessions.Codec.Clipboard.RoundTrip.{
  Ends-clipboard, ClipboardFits, Ends-session_list, SessionListFits,
}
use bridge_sessions.Codec.ServerInfo.RoundTrip.{decode-serialize_server_info, ServerInfoFits}
use bridge_sessions.Codec.Media.RoundTrip.{
  wire_image_data, wire_image_frame, ImageFrameFits, wire_cua_request, CuaRequestFits,
  wire_cua_response, CuaResponseFits, wire_cua_video_capture, CuaVideoCaptureFits,
  wire_cua_video_capture_result, CuaVideoCaptureResultFits,
}
use bridge_sessions.Codec.Mesh.RoundTrip.{
  Ends-hello, HelloFits, Ends-gossip, GossipFits, wire_session_search, SessionSearchFits,
  wire_sdp_offer, wire_sdp_answer, wire_dht_find_node, DhtFindNodeFits, wire_dht_find_value,
  DhtFindValueFits,
}
use bridge_sessions.Codec.File.RoundTrip.{
  Ends-file_meta, FileMetaFits, wire_file_chunk, FileChunkFits, wire_file_ack, FileAckFits,
  Ends-file_request,
}
use bridge_sessions.Codec.Conversation.RoundTrip.{
  wire_conversation_append, ConversationAppendFits, wire_conversation_query, ConversationQueryFits,
  Ends-conversation_batch, ConversationBatchFits,
}
use bridge_sessions.Codec.Join.RoundTrip.{
  wire_join_request, wire_join_reply, JoinReplyFits, Ends-directory_enroll, DirectoryEnrollFits,
}
use bridge_sessions.Codec.ServerInfo.{
  ServerInfoMsg, serialize_server_info, decode_server_info, legacy_split,
}
use bridge_sessions.Codec.Message.{
  Message, keystroke, output, resize, clipboard, clipboard_echo, attach, detach, session_list,
  server_info, ping, pong, scrollback, signal, exit_code, scrollback_ack, session_died, image_data,
  image_frame, image_ack, hello, gossip, session_search, sdp_offer, sdp_answer, dht_find_node,
  dht_find_value, file_meta, file_chunk, file_ack, file_request, attach_ack, output_gap,
  conversation_append, conversation_query, conversation_batch, cua_request, cua_response,
  join_request, join_reply, cua_video_capture, cua_video_capture_result, directory_enroll,
  message_type, serialize_msg,
}
use bridge_sessions.Codec.Dispatch.{get_as, decode_payload}

-- The payload of a server description cannot be taken for the old newline format.
abbrev pub IsUnambiguous : ServerInfoMsg → Type 0
IsUnambiguous m = (bs : List ℕ) → serialize_server_info m ≡ ok bs → legacy_split bs ≡ none

-- The numbers are values of their C++ types, and nothing is lost on the wire: times fit 32 bits,
-- a hash has no newline, only one branch of a join reply is filled, a batch has 512 messages at
-- most, a response 50 MiB, and a server description is unambiguous.
abbrev pub MessageFits : Message → Type 0
MessageFits (keystroke m) = Unit {0}
MessageFits (output m) = Unit {0}
MessageFits (resize m) = ResizeFits m
MessageFits (clipboard m) = ClipboardFits m
MessageFits (clipboard_echo m) = Unit {0}
MessageFits (attach m) = AttachFits m
MessageFits detach = Unit {0}
MessageFits (session_list m) = SessionListFits m
MessageFits (server_info m) = ServerInfoFits m × IsUnambiguous m
MessageFits ping = Unit {0}
MessageFits pong = Unit {0}
MessageFits (scrollback m) = ScrollbackFits m
MessageFits (signal m) = Unit {0}
MessageFits (exit_code m) = ExitCodeFits m
MessageFits scrollback_ack = Unit {0}
MessageFits (session_died m) = SessionDiedFits m
MessageFits (image_data m) = Unit {0}
MessageFits (image_frame m) = ImageFrameFits m
MessageFits image_ack = Unit {0}
MessageFits (hello m) = HelloFits m
MessageFits (gossip m) = GossipFits m
MessageFits (session_search m) = SessionSearchFits m
MessageFits (sdp_offer m) = Unit {0}
MessageFits (sdp_answer m) = Unit {0}
MessageFits (dht_find_node m) = DhtFindNodeFits m
MessageFits (dht_find_value m) = DhtFindValueFits m
MessageFits (file_meta m) = FileMetaFits m
MessageFits (file_chunk m) = FileChunkFits m
MessageFits (file_ack m) = FileAckFits m
MessageFits (file_request m) = Unit {0}
MessageFits (attach_ack m) = AttachAckFits m
MessageFits (output_gap m) = OutputGapFits m
MessageFits (conversation_append m) = ConversationAppendFits m
MessageFits (conversation_query m) = ConversationQueryFits m
MessageFits (conversation_batch m) = ConversationBatchFits m
MessageFits (cua_request m) = CuaRequestFits m
MessageFits (cua_response m) = CuaResponseFits m
MessageFits (join_request m) = Unit {0}
MessageFits (join_reply m) = JoinReplyFits m
MessageFits (cua_video_capture m) = CuaVideoCaptureFits m
MessageFits (cua_video_capture_result m) = CuaVideoCaptureResultFits m
MessageFits (directory_enroll m) = DirectoryEnrollFits m

Ends-server_info :
    (m : ServerInfoMsg)
    → ServerInfoFits m
    → IsUnambiguous m
    → Ends (serialize_server_info m) decode_server_info m
Ends-server_info m fits plain = record {
  reads = λ bs e. decode-serialize_server_info m bs fits e (plain bs e);
}

Ends-nothing : (m : Message) → Ends put_nothing (pure m) m
unfolding pure
Ends-nothing m = Ends-of_ok (pure m) m [] refl

pub Ends-msg :
    (m : Message)
    → MessageFits m
    → Ends (serialize_msg m) (decode_payload (type_byte (message_type m))) m
unfolding serialize_msg decode_payload type_byte message_type get_as
Ends-msg (keystroke m) fits = last_end keystroke (Ends-keystroke m)
Ends-msg (output m) fits = last_end output (Ends-output m)
Ends-msg (resize m) fits = last_end resize (ends (wire_resize m fits))
Ends-msg (clipboard m) fits = last_end clipboard (Ends-clipboard m fits)
Ends-msg (clipboard_echo m) fits = last_end clipboard_echo (Ends-clipboard_echo m)
Ends-msg (attach m) fits = last_end attach (ends (wire_attach m fits))
Ends-msg detach fits = Ends-nothing detach
Ends-msg (session_list m) fits = last_end session_list (Ends-session_list m fits)
Ends-msg (server_info m) (fits, plain) = last_end server_info (Ends-server_info m fits plain)
Ends-msg ping fits = Ends-nothing ping
Ends-msg pong fits = Ends-nothing pong
Ends-msg (scrollback m) fits = last_end scrollback (Ends-scrollback m fits)
Ends-msg (signal m) fits = last_end signal (ends (wire_signal m))
Ends-msg (exit_code m) fits = last_end exit_code (ends (wire_exit_code m fits))
Ends-msg scrollback_ack fits = Ends-nothing scrollback_ack
Ends-msg (session_died m) fits = last_end session_died (ends (wire_session_died m fits))
Ends-msg (image_data m) fits = last_end image_data (ends (wire_image_data m))
Ends-msg (image_frame m) fits = last_end image_frame (ends (wire_image_frame m fits))
Ends-msg image_ack fits = Ends-nothing image_ack
Ends-msg (hello m) fits = last_end hello (Ends-hello m fits)
Ends-msg (gossip m) fits = last_end gossip (Ends-gossip m fits)
Ends-msg (session_search m) fits = last_end session_search (ends (wire_session_search m fits))
Ends-msg (sdp_offer m) fits = last_end sdp_offer (ends (wire_sdp_offer m))
Ends-msg (sdp_answer m) fits = last_end sdp_answer (ends (wire_sdp_answer m))
Ends-msg (dht_find_node m) fits = last_end dht_find_node (ends (wire_dht_find_node m fits))
Ends-msg (dht_find_value m) fits = last_end dht_find_value (ends (wire_dht_find_value m fits))
Ends-msg (file_meta m) fits = last_end file_meta (Ends-file_meta m fits)
Ends-msg (file_chunk m) fits = last_end file_chunk (ends (wire_file_chunk m fits))
Ends-msg (file_ack m) fits = last_end file_ack (ends (wire_file_ack m fits))
Ends-msg (file_request m) fits = last_end file_request (Ends-file_request m)
Ends-msg (attach_ack m) fits = last_end attach_ack (ends (wire_attach_ack m fits))
Ends-msg (output_gap m) fits = last_end output_gap (ends (wire_output_gap m fits))
Ends-msg (conversation_append m) fits =
    last_end conversation_append (ends (wire_conversation_append m fits))
Ends-msg (conversation_query m) fits =
    last_end conversation_query (ends (wire_conversation_query m fits))
Ends-msg (conversation_batch m) fits = last_end conversation_batch (Ends-conversation_batch m fits)
Ends-msg (cua_request m) fits = last_end cua_request (ends (wire_cua_request m fits))
Ends-msg (cua_response m) fits = last_end cua_response (ends (wire_cua_response m fits))
Ends-msg (join_request m) fits = last_end join_request (ends (wire_join_request m))
Ends-msg (join_reply m) fits = last_end join_reply (ends (wire_join_reply m fits))
Ends-msg (cua_video_capture m) fits =
    last_end cua_video_capture (ends (wire_cua_video_capture m fits))
Ends-msg (cua_video_capture_result m) fits =
    last_end cua_video_capture_result (ends (wire_cua_video_capture_result m fits))
Ends-msg (directory_enroll m) fits = last_end directory_enroll (Ends-directory_enroll m fits)
