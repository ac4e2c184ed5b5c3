-- ===== src/Codec/Conversation.antt =====
-- The messages of a conversation between agents: one message, a query, and an ordered run.
pub mod RoundTrip
use bridge_sessions.Base.{
  ℕ, zero, suc, ◌+◌, ◌-◌, ◌*◌, ◌%◌, ◌^◌, ◌≤◌, ◌<◌, ◌≡◌, refl, sym, ap, subst, ◌∙◌, ◌≢◌, ◌⊎◌, inl,
  inr, Bool, true, false, not, ◌&&◌, ◌||◌, Option, none, some, List, [], ◌∷◌, ◌++◌, arith, ltb, leb,
  ◌==◌, min, length, take, drop, length-append, append-nil, append_assoc, All, if◌then◌else◌,
  Bool-cases, Option-cases,
}
use bridge_sessions.Base.Signed.{ℤ, IsI32, IsI16}
use bridge_sessions.Codec.Result.{
  Error, ok, err, clipboard_separator, image_over_cap, image_frame_over_cap, file_chunk_over_cap,
  cua_text_over_cap, cua_data_over_cap, batch_over_512,
}
use bridge_sessions.Codec.Serializer.{
  Put, ◌>>◌, put_nothing, put_bytes, put_u8, put_u16, put_u32be, put_u64be, put_str,
  put_str_prefixed, put_str_prefixed_u16, put_flag, put_u64_halves, put_i32, put_i16, put_check,
  put_blob, put_each,
}
use bridge_sessions.Codec.Decoder.{
  Get, ◌>>=◌, pure, throw, get_u8, get_u16, get_u32be, get_u64be, get_str_size, get_rest,
  get_str_prefixed, get_str_prefixed_u16, get_flag, get_u64_halves, get_i32, get_i16, get_if,
  get_check, get_blob, get_many, get_upto, get_end,
}

pub record ConversationAppendMsg : Type 0 where
  pub conv_id : List ℕ
  pub seq : ℕ
  pub ts : ℕ
  pub agent_id : List ℕ
  pub role : ℕ
  pub body : List ℕ

unfoldable pub serialize_conversation_append : ConversationAppendMsg → Put
serialize_conversation_append m = do
  put_str_prefixed m.conv_id
  put_u64be m.seq
  put_u64be m.ts
  put_str_prefixed m.agent_id
  put_u8 m.role
  put_str_prefixed_u16 m.body

unfoldable pub decode_conversation_append : Get ConversationAppendMsg
decode_conversation_append = do
  conv_id ← get_str_prefixed
  seq ← get_u64be
  ts ← get_u64be
  agent_id ← get_str_prefixed
  role ← get_u8
  body ← get_str_prefixed_u16
  pure (record {
    conv_id = conv_id;
    seq = seq;
    ts = ts;
    agent_id = agent_id;
    role = role;
    body = body;
  })

pub record ConversationQueryMsg : Type 0 where
  pub conv_id : List ℕ
  pub since_seq : ℕ

unfoldable pub serialize_conversation_query : ConversationQueryMsg → Put
serialize_conversation_query m = do put_str_prefixed m.conv_id; put_u64be m.since_seq

unfoldable pub decode_conversation_query : Get ConversationQueryMsg
decode_conversation_query = do
  conv_id ← get_str_prefixed
  since_seq ← get_u64be
  pure (record { conv_id = conv_id; since_seq = since_seq })

pub record ConversationBatchMsg : Type 0 where
  pub conv_id : List ℕ
  pub messages : List ConversationAppendMsg

unfoldable pub serialize_conversation_batch : ConversationBatchMsg → Put
serialize_conversation_batch m = do
  put_str_prefixed m.conv_id
  put_each serialize_conversation_append m.messages

-- `kMaxConversationBatch`
abbrev pub max_conversation_batch : ℕ
max_conversation_batch = 512

unfoldable pub decode_conversation_batch : Get ConversationBatchMsg
decode_conversation_batch = do
  conv_id ← get_str_prefixed
  messages ← get_upto max_conversation_batch decode_conversation_append
  _ ← get_end batch_over_512
  pure (record { conv_id = conv_id; messages = messages })
