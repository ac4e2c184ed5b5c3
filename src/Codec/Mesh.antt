-- ===== src/Codec/Mesh.antt =====
-- The messages between mesh nodes: introductions, gossip, searches, WebRTC and DHT exchanges.
pub mod RoundTrip
use bridge_sessions.Base.{
  ℕ, zero, suc, ◌+◌, ◌-◌, ◌*◌, ◌%◌, ◌^◌, ◌≤◌, ◌<◌, ◌≡◌, refl, sym, ap, subst, ◌∙◌, ◌≢◌, ◌⊎◌, inl,
  inr, Bool, true, false, not, ◌&&◌, ◌||◌, Option, none, some, List, [], ◌∷◌, ◌++◌, arith, ltb, leb,
  ◌==◌, min, length, take, drop, length-append, append-nil, append_assoc, All, if◌then◌else◌,
  Bool-cases, Option-cases,
}
use bridge_sessions.Base.Signed.{ℤ, IsI32, IsI16}
use bridge_sessions.Codec.Result.{
  Error, ok, err, clipboard_separator, image_over_cap, image_frame_over_cap, file_chunk_over_cap,
  cua_text_over_cap, cua_data_over_cap, batch_over_512,
}
use bridge_sessions.Codec.Serializer.{
  Put, ◌>>◌, put_nothing, put_bytes, put_u8, put_u16, put_u32be, put_u64be, put_str,
  put_str_prefixed, put_str_prefixed_u16, put_flag, put_u64_halves, put_i32, put_i16, put_check,
  put_blob, put_each,
}
use bridge_sessions.Codec.Decoder.{
  Get, ◌>>=◌, pure, throw, get_u8, get_u16, get_u32be, get_u64be, get_str_size, get_rest,
  get_str_prefixed, get_str_prefixed_u16, get_flag, get_u64_halves, get_i32, get_i16, get_if,
  get_check, get_blob, get_many,
}

pub record SessionSearchMsg : Type 0 where
  pub session_name : List ℕ
  pub routing : List ℕ
  pub cols : ℕ
  pub rows : ℕ
  pub term : List ℕ

unfoldable pub serialize_session_search : SessionSearchMsg → Put
serialize_session_search m = do
  put_str_prefixed m.session_name
  put_str_prefixed m.routing
  put_u16 m.cols
  put_u16 m.rows
  put_str_prefixed m.term

unfoldable pub decode_session_search : Get SessionSearchMsg
decode_session_search = do
  session_name ← get_str_prefixed
  routing ← get_str_prefixed
  cols ← get_u16
  rows ← get_u16
  term ← get_str_prefixed
  pure (record {
    session_name = session_name;
    routing = routing;
    cols = cols;
    rows = rows;
    term = term;
  })

pub record SdpOfferMsg : Type 0 where
  pub sdp : List ℕ
  pub peer_name : List ℕ

unfoldable pub serialize_sdp_offer : SdpOfferMsg → Put
serialize_sdp_offer m = do put_str_prefixed m.peer_name; put_str_prefixed_u16 m.sdp

unfoldable pub decode_sdp_offer : Get SdpOfferMsg
decode_sdp_offer = do
  peer_name ← get_str_prefixed
  sdp ← get_str_prefixed_u16
  pure (record { sdp = sdp; peer_name = peer_name })

pub record SdpAnswerMsg : Type 0 where
  pub sdp : List ℕ
  pub peer_name : List ℕ

unfoldable pub serialize_sdp_answer : SdpAnswerMsg → Put
serialize_sdp_answer m = do put_str_prefixed m.peer_name; put_str_prefixed_u16 m.sdp

unfoldable pub decode_sdp_answer : Get SdpAnswerMsg
decode_sdp_answer = do
  peer_name ← get_str_prefixed
  sdp ← get_str_prefixed_u16
  pure (record { sdp = sdp; peer_name = peer_name })

pub record PeerInfo : Type 0 where
  pub name : List ℕ
  pub addr : List ℕ
  pub pubkey_hex : List ℕ
  pub last_seen : ℕ

-- The body of the loops over `known_peers` and `peers`; `last_seen` is cut to 32 bits.
unfoldable pub serialize_peer_info : PeerInfo → Put
serialize_peer_info p = do
  put_str_prefixed p.name
  put_str_prefixed p.addr
  put_str_prefixed p.pubkey_hex
  put_u32be (p.last_seen % 2 ^ 32)

unfoldable pub decode_peer_info : Get PeerInfo
decode_peer_info = do
  name ← get_str_prefixed
  addr ← get_str_prefixed
  pubkey_hex ← get_str_prefixed
  last_seen ← get_u32be
  pure (record { name = name; addr = addr; pubkey_hex = pubkey_hex; last_seen = last_seen })

pub record HelloMsg : Type 0 where
  pub node_name : List ℕ
  pub version : List ℕ
  pub pubkey_hex : List ℕ
  pub known_peers : List PeerInfo

unfoldable pub serialize_hello : HelloMsg → Put
serialize_hello m = do
  put_str_prefixed m.node_name
  put_str_prefixed m.version
  put_str_prefixed m.pubkey_hex
  put_each serialize_peer_info m.known_peers

unfoldable pub decode_hello : Get HelloMsg
decode_hello = do
  node_name ← get_str_prefixed
  version ← get_str_prefixed
  pubkey_hex ← get_str_prefixed
  known_peers ← get_many decode_peer_info
  pure (record {
    node_name = node_name;
    version = version;
    pubkey_hex = pubkey_hex;
    known_peers = known_peers;
  })

pub record GossipMsg : Type 0 where
  pub peers : List PeerInfo

unfoldable pub serialize_gossip : GossipMsg → Put
serialize_gossip m = put_each serialize_peer_info m.peers

unfoldable pub decode_gossip : Get GossipMsg
decode_gossip = do peers ← get_many decode_peer_info; pure (record { peers = peers })

pub record DhtFindNodeMsg : Type 0 where
  pub target_id : List ℕ
  pub sender_name : List ℕ

-- `std::array<uint8_t, 32>` is a list of 32 bytes.
unfoldable pub serialize_dht_find_node : DhtFindNodeMsg → Put
serialize_dht_find_node m = do put_bytes m.target_id; put_str_prefixed m.sender_name

unfoldable pub decode_dht_find_node : Get DhtFindNodeMsg
decode_dht_find_node = do
  target_id ← get_str_size 32
  sender_name ← get_str_prefixed
  pure (record { target_id = target_id; sender_name = sender_name })

pub record DhtFindValueMsg : Type 0 where
  pub key : List ℕ
  pub sender_name : List ℕ

unfoldable pub serialize_dht_find_value : DhtFindValueMsg → Put
serialize_dht_find_value m = do put_bytes m.key; put_str_prefixed m.sender_name

unfoldable pub decode_dht_find_value : Get DhtFindValueMsg
decode_dht_find_value = do
  key ← get_str_size 32
  sender_name ← get_str_prefixed
  pure (record { key = key; sender_name = sender_name })
