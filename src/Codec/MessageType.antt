-- ===== src/Codec/MessageType.antt =====
-- `enum class MessageType`: the byte that names a message on the wire.
use bridge_sessions.Base.{ℕ}

pub data MessageType : Type 0 where
  keystroke : MessageType
  output : MessageType
  resize : MessageType
  clipboard_get : MessageType
  clipboard_put : MessageType
  attach : MessageType
  detach : MessageType
  session_list : MessageType
  server_info : MessageType
  ping : MessageType
  pong : MessageType
  scrollback : MessageType
  signal : MessageType
  proc_exited : MessageType
  scrollback_ack : MessageType
  session_died : MessageType
  clipboard_echo : MessageType
  image_data : MessageType
  image_frame : MessageType
  image_ack : MessageType
  hello : MessageType
  gossip : MessageType
  session_search : MessageType
  sdp_offer : MessageType
  sdp_answer : MessageType
  dht_find_node : MessageType
  dht_find_value : MessageType
  file_meta : MessageType
  file_chunk : MessageType
  file_ack : MessageType
  file_request : MessageType
  attach_ack : MessageType
  output_gap : MessageType
  conversation_append : MessageType
  conversation_query : MessageType
  conversation_batch : MessageType
  cua_request : MessageType
  cua_response : MessageType
  join_request : MessageType
  join_reply : MessageType
  cua_video_capture : MessageType
  cua_video_capture_result : MessageType
  directory_enroll : MessageType

-- `static_cast<uint8_t>` of a type
unfoldable pub type_byte : MessageType → ℕ
type_byte keystroke = 0x01
type_byte output = 0x02
type_byte resize = 0x03
type_byte clipboard_get = 0x04
type_byte clipboard_put = 0x05
type_byte attach = 0x06
type_byte detach = 0x07
type_byte session_list = 0x08
type_byte server_info = 0x09
type_byte ping = 0x0a
type_byte pong = 0x0b
type_byte scrollback = 0x0c
type_byte signal = 0x0d
type_byte proc_exited = 0x0e
type_byte scrollback_ack = 0x0f
type_byte session_died = 0x10
type_byte clipboard_echo = 0x11
type_byte image_data = 0x12
type_byte image_frame = 0x13
type_byte image_ack = 0x14
type_byte hello = 0x15
type_byte gossip = 0x16
type_byte session_search = 0x17
type_byte sdp_offer = 0x18
type_byte sdp_answer = 0x19
type_byte dht_find_node = 0x1a
type_byte dht_find_value = 0x1b
type_byte file_meta = 0x1c
type_byte file_chunk = 0x1d
type_byte file_ack = 0x1e
type_byte file_request = 0x1f
type_byte attach_ack = 0x21
type_byte output_gap = 0x22
type_byte conversation_append = 0x23
type_byte conversation_query = 0x24
type_byte conversation_batch = 0x25
type_byte cua_request = 0x26
type_byte cua_response = 0x27
type_byte join_request = 0x28
type_byte join_reply = 0x29
type_byte cua_video_capture = 0x2a
type_byte cua_video_capture_result = 0x2b
type_byte directory_enroll = 0x2c
