-- ===== src/Codec/Steady/Items.antt =====
-- The items of lists, the parts of messages and the errors of `decode`: each read ends.
use bridge_sessions.Base.{ℕ, none, some, Option, Bool, true, false, if◌then◌else◌, List}
use bridge_sessions.Codec.Result.{
  clipboard_separator, image_over_cap, image_frame_over_cap, cua_text_over_cap, cua_data_over_cap,
  file_chunk_size_over_cap, batch_over_512, unknown_type,
}
use bridge_sessions.Codec.Decoder.{Get}
use bridge_sessions.Codec.Steady.{Steady, Eats, IsReal, Steady-throw}
use bridge_sessions.Codec.Steady.Loops.{steady_rules}
use bridge_sessions.Codec.Clipboard.{decode_session_info, clipboard_from}
use bridge_sessions.Codec.Mesh.{decode_peer_info}
use bridge_sessions.Codec.Join.{get_join_accepted, get_join_refused}
use bridge_sessions.Codec.File.{get_meta_ext}
use bridge_sessions.Codec.ServerInfo.{server_info_from, server_info_tail}
use bridge_sessions.Codec.Conversation.{decode_conversation_append}

pub IsReal-image_over_cap : IsReal image_over_cap
IsReal-image_over_cap e = cc

pub IsReal-image_frame_over_cap : IsReal image_frame_over_cap
IsReal-image_frame_over_cap e = cc

pub IsReal-cua_text_over_cap : IsReal cua_text_over_cap
IsReal-cua_text_over_cap e = cc

pub IsReal-cua_data_over_cap : IsReal cua_data_over_cap
IsReal-cua_data_over_cap e = cc

pub IsReal-file_chunk_size_over_cap : IsReal file_chunk_size_over_cap
IsReal-file_chunk_size_over_cap e = cc

pub IsReal-clipboard_separator : IsReal clipboard_separator
IsReal-clipboard_separator e = cc

pub IsReal-batch_over_512 : IsReal batch_over_512
IsReal-batch_over_512 e = cc

pub IsReal-unknown_type : (t : ℕ) → IsReal (unknown_type t)
IsReal-unknown_type t e = cc

pub ruleset real_errors = (
  IsReal-image_over_cap, IsReal-image_frame_over_cap, IsReal-cua_text_over_cap,
  IsReal-cua_data_over_cap, IsReal-file_chunk_size_over_cap, IsReal-clipboard_separator,
  IsReal-batch_over_512,
)

pub Eats-session_info : Eats decode_session_info
unfolding decode_session_info
Eats-session_info = search steady_rules depth 12

pub Eats-peer_info : Eats decode_peer_info
unfolding decode_peer_info
Eats-peer_info = search steady_rules depth 12

pub Eats-conversation_append : Eats decode_conversation_append
unfolding decode_conversation_append
Eats-conversation_append = search steady_rules depth 16

pub ruleset item_rules =
    (steady_rules, real_errors, Eats-session_info, Eats-peer_info, Eats-conversation_append)

pub Steady-meta_ext : Steady get_meta_ext
unfolding get_meta_ext
Steady-meta_ext = search steady_rules depth 8

pub Steady-branch :
    {A : Type 0} (b : Bool) {g h : Get A} → Steady g → Steady h → Steady (if b then g else h)
Steady-branch true v w = v
Steady-branch false v w = w

pub Steady-join_accepted : Steady get_join_accepted
unfolding get_join_accepted
Steady-join_accepted = search steady_rules depth 12

pub Steady-join_refused : Steady get_join_refused
unfolding get_join_refused
Steady-join_refused = search steady_rules depth 8

pub Steady-clipboard_from : (o : Option ℕ) → Steady (clipboard_from o)
unfolding clipboard_from
Steady-clipboard_from none = Steady-throw clipboard_separator IsReal-clipboard_separator
Steady-clipboard_from (some n) = search steady_rules depth 12

pub Steady-server_info_tail : (h v : List ℕ) → Steady (server_info_tail h v)
unfolding server_info_tail
Steady-server_info_tail h v = search steady_rules depth 12

pub Steady-server_info_from : (o : Option (ℕ × ℕ)) → Steady (server_info_from o)
unfolding server_info_from
Steady-server_info_from none = search (steady_rules, Steady-server_info_tail) depth 12
Steady-server_info_from (some (n, k)) = search (steady_rules, Steady-server_info_tail) depth 12
