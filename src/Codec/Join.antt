-- ===== src/Codec/Join.antt =====
-- Joining a mesh: the request with its token, the reply, and the signed directory entry.
pub mod RoundTrip
use bridge_sessions.Base.{
  ℕ, zero, suc, ◌+◌, ◌-◌, ◌*◌, ◌%◌, ◌^◌, ◌≤◌, ◌<◌, ◌≡◌, refl, sym, ap, subst, ◌∙◌, ◌≢◌, ◌⊎◌, inl,
  inr, Bool, true, false, not, ◌&&◌, ◌||◌, Option, none, some, List, [], ◌∷◌, ◌++◌, arith, ltb, leb,
  ◌==◌, min, length, take, drop, length-append, append-nil, append_assoc, All, if◌then◌else◌,
  Bool-cases, Option-cases,
}
use bridge_sessions.Base.Signed.{ℤ, IsI32, IsI16}
use bridge_sessions.Codec.Result.{
  Error, ok, err, clipboard_separator, image_over_cap, image_frame_over_cap, file_chunk_over_cap,
  cua_text_over_cap, cua_data_over_cap, batch_over_512,
}
use bridge_sessions.Codec.Serializer.{
  Put, ◌>>◌, put_nothing, put_bytes, put_u8, put_u16, put_u32be, put_u64be, put_str,
  put_str_prefixed, put_str_prefixed_u16, put_flag, put_u64_halves, put_i32, put_i16, put_check,
  put_blob, put_each,
}
use bridge_sessions.Codec.Decoder.{
  Get, ◌>>=◌, pure, throw, get_u8, get_u16, get_u32be, get_u64be, get_str_size, get_rest,
  get_str_prefixed, get_str_prefixed_u16, get_flag, get_u64_halves, get_i32, get_i16, get_if,
  get_check, get_blob, get_many,
}

pub record JoinRequestMsg : Type 0 where
  pub token : List ℕ
  pub node_name : List ℕ
  pub listen_addr : List ℕ

unfoldable pub serialize_join_request : JoinRequestMsg → Put
serialize_join_request m = do
  put_str_prefixed m.token
  put_str_prefixed m.node_name
  put_str_prefixed m.listen_addr

unfoldable pub decode_join_request : Get JoinRequestMsg
decode_join_request = do
  token ← get_str_prefixed
  node_name ← get_if 1 get_str_prefixed []
  listen_addr ← get_if 1 get_str_prefixed []
  pure (record { token = token; node_name = node_name; listen_addr = listen_addr })

-- The field `ok` is `accepted`.
pub record JoinReplyMsg : Type 0 where
  pub accepted : Bool
  pub node_name : List ℕ
  pub seeds_csv : List ℕ
  pub host_pubkey : List ℕ
  pub host_addr : List ℕ
  pub peer_pubkeys_json : List ℕ
  pub error : List ℕ

unfoldable pub put_join_accepted : JoinReplyMsg → Put
put_join_accepted m = do
  put_str_prefixed m.node_name
  put_str_prefixed_u16 m.seeds_csv
  put_str_prefixed m.host_pubkey
  put_str_prefixed m.host_addr
  put_str_prefixed_u16 m.peer_pubkeys_json

unfoldable pub serialize_join_reply : JoinReplyMsg → Put
serialize_join_reply m = do
  put_flag m.accepted
  if m.accepted then put_join_accepted m else put_str_prefixed m.error

unfoldable pub get_join_accepted : Get JoinReplyMsg
get_join_accepted = do
  node_name ← get_str_prefixed
  seeds_csv ← get_str_prefixed_u16
  host_pubkey ← get_str_prefixed
  host_addr ← get_str_prefixed
  peer_pubkeys_json ← get_str_prefixed_u16
  pure (record {
    accepted = true;
    node_name = node_name;
    seeds_csv = seeds_csv;
    host_pubkey = host_pubkey;
    host_addr = host_addr;
    peer_pubkeys_json = peer_pubkeys_json;
    error = [];
  })

unfoldable pub get_join_refused : Get JoinReplyMsg
get_join_refused = do
  error ← get_str_prefixed
  pure (record {
    accepted = false;
    node_name = [];
    seeds_csv = [];
    host_pubkey = [];
    host_addr = [];
    peer_pubkeys_json = [];
    error = error;
  })

unfoldable pub decode_join_reply : Get JoinReplyMsg
decode_join_reply = do accepted ← get_flag; if accepted then get_join_accepted else get_join_refused

pub record DirectoryEnrollMsg : Type 0 where
  pub name : List ℕ
  pub pubkey_hex : List ℕ
  pub addr : List ℕ
  pub issuer_pubkey : List ℕ
  pub issued_at : ℕ
  pub signature : List ℕ

unfoldable pub serialize_directory_enroll : DirectoryEnrollMsg → Put
serialize_directory_enroll m = do
  put_str_prefixed m.name
  put_str_prefixed m.pubkey_hex
  put_str_prefixed m.addr
  put_str_prefixed m.issuer_pubkey
  put_u64be m.issued_at
  put_str m.signature

-- `bytes_size(d.end - d.p)` for the signature
unfoldable pub decode_directory_enroll : Get DirectoryEnrollMsg
decode_directory_enroll = do
  name ← get_str_prefixed
  pubkey_hex ← get_str_prefixed
  addr ← get_str_prefixed
  issuer_pubkey ← get_str_prefixed
  issued_at ← get_u64be
  signature ← get_rest
  pure (record {
    name = name;
    pubkey_hex = pubkey_hex;
    addr = addr;
    issuer_pubkey = issuer_pubkey;
    issued_at = issued_at;
    signature = signature;
  })
