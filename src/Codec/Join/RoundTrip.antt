-- ===== src/Codec/Join/RoundTrip.antt =====
-- The join messages read back.
use bridge_sessions.Base.{
  ◌^◌, ◌<◌, ◌≡◌, subst, ◌⊎◌, inl, inr, true, false, [], arith, if◌then◌else◌, Bool-cases,
}
use bridge_sessions.Codec.Serializer.{put_str_prefixed}
use bridge_sessions.Codec.Wire.{◌⨾◌, Wire, Ends, next, next_end, last, last_end, wire_if}
use bridge_sessions.Codec.Wire.Words.{wire_u64be, wire_flag}
use bridge_sessions.Codec.Wire.Texts.{
  Ends-rest, wire_str_prefixed, wire_str_prefixed_u16, AtLeast-str_prefixed,
}
use bridge_sessions.Codec.Join.{
  put_join_accepted, get_join_accepted, get_join_refused, JoinRequestMsg, serialize_join_request,
  decode_join_request, JoinReplyMsg, serialize_join_reply, decode_join_reply, DirectoryEnrollMsg,
  serialize_directory_enroll, decode_directory_enroll,
}

pub wire_join_request : (m : JoinRequestMsg) → Wire (serialize_join_request m) decode_join_request m
unfolding serialize_join_request decode_join_request
wire_join_request m =
    next _ (wire_str_prefixed m.token)
    ⨾ next _ (wire_if [] (AtLeast-str_prefixed _) (wire_str_prefixed m.node_name))
    ⨾ last _ (wire_if [] (AtLeast-str_prefixed _) (wire_str_prefixed m.listen_addr))

-- Only the fields of the branch that `ok` selects are sent; the others are empty.
abbrev pub JoinReplyFits : JoinReplyMsg → Type 0
JoinReplyFits m =
    ((m.accepted ≡ true) × (m.error ≡ []))
    ⊎ ((m.accepted ≡ false)
        × (m.node_name ≡ [])
        × (m.seeds_csv ≡ [])
        × (m.host_pubkey ≡ [])
        × (m.host_addr ≡ [])
        × (m.peer_pubkeys_json ≡ []))

wire_join_accepted :
    (m : JoinReplyMsg)
    → Wire (put_join_accepted m) get_join_accepted (record m { accepted = true; error = [] })
unfolding put_join_accepted get_join_accepted
wire_join_accepted m =
    next _ (wire_str_prefixed m.node_name)
    ⨾ next _ (wire_str_prefixed_u16 m.seeds_csv)
    ⨾ next _ (wire_str_prefixed m.host_pubkey)
    ⨾ next _ (wire_str_prefixed m.host_addr)
    ⨾ last _ (wire_str_prefixed_u16 m.peer_pubkeys_json)

accepted_reply :
    (m : JoinReplyMsg)
    → JoinReplyFits m
    → m.accepted ≡ true
    → record m { accepted = true; error = [] } ≡ m
accepted_reply m fits a = ground arith

refused_reply :
    (m : JoinReplyMsg)
    → JoinReplyFits m
    → m.accepted ≡ false
    → record {
      accepted = false;
      node_name = [];
      seeds_csv = [];
      host_pubkey = [];
      host_addr = [];
      peer_pubkeys_json = [];
      error = m.error;
    }
      ≡ m
refused_reply m fits r = ground arith

wire_join_body :
    (m : JoinReplyMsg)
    → JoinReplyFits m
    → Wire
        (if m.accepted then put_join_accepted m else put_str_prefixed m.error)
        (if m.accepted then get_join_accepted else get_join_refused)
        m
unfolding get_join_refused
wire_join_body m fits = elim (Bool-cases m.accepted) [
  | inl a ↦ simp a (subst (Wire _ _) (accepted_reply m fits a) (wire_join_accepted m))
  | inr r ↦ simp r (subst (Wire _ _) (refused_reply m fits r) (last _ (wire_str_prefixed m.error)))
]

pub wire_join_reply :
    (m : JoinReplyMsg) → JoinReplyFits m → Wire (serialize_join_reply m) decode_join_reply m
unfolding serialize_join_reply decode_join_reply
wire_join_reply m fits = next _ (wire_flag m.accepted) (wire_join_body m fits)

abbrev pub DirectoryEnrollFits : DirectoryEnrollMsg → Type 0
DirectoryEnrollFits m = m.issued_at < 2 ^ 64

pub Ends-directory_enroll :
    (m : DirectoryEnrollMsg)
    → DirectoryEnrollFits m
    → Ends (serialize_directory_enroll m) decode_directory_enroll m
unfolding serialize_directory_enroll decode_directory_enroll
Ends-directory_enroll m fits =
    next_end _ (wire_str_prefixed m.name)
    ⨾ next_end _ (wire_str_prefixed m.pubkey_hex)
    ⨾ next_end _ (wire_str_prefixed m.addr)
    ⨾ next_end _ (wire_str_prefixed m.issuer_pubkey)
    ⨾ next_end _ (wire_u64be fits)
    ⨾ last_end _ (Ends-rest m.signature)
