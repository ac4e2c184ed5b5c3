-- ===== src/Codec/Mesh/RoundTrip.antt =====
-- The mesh messages read back.
use bridge_sessions.Base.{◌%◌, ◌^◌, ◌<◌, ◌≡◌, List, [], ◌∷◌, arith, length, All}
use bridge_sessions.Codec.Serializer.{put_each}
use bridge_sessions.Codec.Decoder.{get_many}
use bridge_sessions.Codec.Wire.{
  ◌⨾◌, Wire, Ends, AtLeast, next, next_end, last, last_end, AtLeast-first,
}
use bridge_sessions.Codec.Wire.Words.{wire_u16, wire_u32be}
use bridge_sessions.Codec.Wire.Texts.{
  wire_bytes, wire_str_prefixed, wire_str_prefixed_u16, AtLeast-str_prefixed,
}
use bridge_sessions.Codec.Wire.Blobs.{Ends-many}
use bridge_sessions.Codec.Mesh.{
  SessionSearchMsg, serialize_session_search, decode_session_search, SdpOfferMsg,
  serialize_sdp_offer, decode_sdp_offer, SdpAnswerMsg, serialize_sdp_answer, decode_sdp_answer,
  PeerInfo, serialize_peer_info, decode_peer_info, HelloMsg, serialize_hello, decode_hello,
  GossipMsg, serialize_gossip, decode_gossip, DhtFindNodeMsg, serialize_dht_find_node,
  decode_dht_find_node, DhtFindValueMsg, serialize_dht_find_value, decode_dht_find_value,
}

abbrev pub SessionSearchFits : SessionSearchMsg → Type 0
SessionSearchFits m = (m.cols < 2 ^ 16) × (m.rows < 2 ^ 16)

pub wire_session_search :
    (m : SessionSearchMsg)
    → SessionSearchFits m
    → Wire (serialize_session_search m) decode_session_search m
unfolding serialize_session_search decode_session_search
wire_session_search m (cols_fits, rows_fits) =
    next _ (wire_str_prefixed m.session_name)
    ⨾ next _ (wire_str_prefixed m.routing)
    ⨾ next _ (wire_u16 cols_fits)
    ⨾ next _ (wire_u16 rows_fits)
    ⨾ last _ (wire_str_prefixed m.term)

pub wire_sdp_offer : (m : SdpOfferMsg) → Wire (serialize_sdp_offer m) decode_sdp_offer m
unfolding serialize_sdp_offer decode_sdp_offer
wire_sdp_offer m = next _ (wire_str_prefixed m.peer_name) ⨾ last _ (wire_str_prefixed_u16 m.sdp)

pub wire_sdp_answer : (m : SdpAnswerMsg) → Wire (serialize_sdp_answer m) decode_sdp_answer m
unfolding serialize_sdp_answer decode_sdp_answer
wire_sdp_answer m = next _ (wire_str_prefixed m.peer_name) ⨾ last _ (wire_str_prefixed_u16 m.sdp)

-- The time stamp on the wire has 32 bits.
abbrev pub PeerInfoFits : PeerInfo → Type 0
PeerInfoFits p = p.last_seen < 2 ^ 32

wire_peer_info : (p : PeerInfo) → PeerInfoFits p → Wire (serialize_peer_info p) decode_peer_info p
unfolding serialize_peer_info decode_peer_info
wire_peer_info p fits =
    let kept : p.last_seen % 2 ^ 32 ≡ p.last_seen = omega arith in
    next _ (wire_str_prefixed p.name)
    ⨾ next _ (wire_str_prefixed p.addr)
    ⨾ next _ (wire_str_prefixed p.pubkey_hex)
    ⨾ rw kept (last _ (wire_u32be fits))

AtLeast-peer_info : (p : PeerInfo) → AtLeast 1 (serialize_peer_info p)
unfolding serialize_peer_info
AtLeast-peer_info p = AtLeast-first _ (AtLeast-str_prefixed p.name)

wire_peer_infos :
    (xs : List PeerInfo)
    → All PeerInfoFits xs
    → All (λ p. Wire (serialize_peer_info p) decode_peer_info p) xs
wire_peer_infos [] h = tt
wire_peer_infos (x ∷ xs) (h, hs) = (wire_peer_info x h, wire_peer_infos xs hs)

Ends-peer_infos :
    (xs : List PeerInfo)
    → All PeerInfoFits xs
    → Ends (put_each serialize_peer_info xs) (get_many decode_peer_info) xs
Ends-peer_infos xs fits = Ends-many _ _ xs AtLeast-peer_info (wire_peer_infos xs fits)

abbrev pub HelloFits : HelloMsg → Type 0
HelloFits m = All PeerInfoFits m.known_peers

pub Ends-hello : (m : HelloMsg) → HelloFits m → Ends (serialize_hello m) decode_hello m
unfolding serialize_hello decode_hello
Ends-hello m fits =
    next_end _ (wire_str_prefixed m.node_name)
    ⨾ next_end _ (wire_str_prefixed m.version)
    ⨾ next_end _ (wire_str_prefixed m.pubkey_hex)
    ⨾ last_end _ (Ends-peer_infos m.known_peers fits)

abbrev pub GossipFits : GossipMsg → Type 0
GossipFits m = All PeerInfoFits m.peers

pub Ends-gossip : (m : GossipMsg) → GossipFits m → Ends (serialize_gossip m) decode_gossip m
unfolding serialize_gossip decode_gossip
Ends-gossip m fits = last_end _ (Ends-peer_infos m.peers fits)

abbrev pub DhtFindNodeFits : DhtFindNodeMsg → Type 0
DhtFindNodeFits m = length m.target_id ≡ 32

pub wire_dht_find_node :
    (m : DhtFindNodeMsg)
    → DhtFindNodeFits m
    → Wire (serialize_dht_find_node m) decode_dht_find_node m
unfolding serialize_dht_find_node decode_dht_find_node
wire_dht_find_node m size =
    next _ (rw (← size) (wire_bytes m.target_id)) ⨾ last _ (wire_str_prefixed m.sender_name)

abbrev pub DhtFindValueFits : DhtFindValueMsg → Type 0
DhtFindValueFits m = length m.key ≡ 32

pub wire_dht_find_value :
    (m : DhtFindValueMsg)
    → DhtFindValueFits m
    → Wire (serialize_dht_find_value m) decode_dht_find_value m
unfolding serialize_dht_find_value decode_dht_find_value
wire_dht_find_value m size =
    next _ (rw (← size) (wire_bytes m.key)) ⨾ last _ (wire_str_prefixed m.sender_name)
