-- ===== src/Codec/Conversation/RoundTrip.antt =====
-- The conversation messages read back.
use bridge_sessions.Base.{◌^◌, ◌≤◌, ◌<◌, ◌≡◌, refl, List, [], ◌∷◌, length, All}
use bridge_sessions.Codec.Result.{Error, ok, batch_over_512}
use bridge_sessions.Codec.Decoder.{◌>>=◌, pure, get_end}
use bridge_sessions.Codec.Wire.{◌⨾◌, Wire, Ends, AtLeast, next, next_end, last, AtLeast-first}
use bridge_sessions.Codec.Wire.Words.{wire_u8, wire_u64be}
use bridge_sessions.Codec.Wire.Texts.{
  wire_str_prefixed, wire_str_prefixed_u16, AtLeast-str_prefixed,
}
use bridge_sessions.Codec.Wire.Blobs.{Ends-upto, then_nothing}
use bridge_sessions.Codec.Conversation.{
  max_conversation_batch, ConversationAppendMsg, serialize_conversation_append,
  decode_conversation_append, ConversationQueryMsg, serialize_conversation_query,
  decode_conversation_query, ConversationBatchMsg, serialize_conversation_batch,
  decode_conversation_batch,
}

abbrev pub ConversationAppendFits : ConversationAppendMsg → Type 0
ConversationAppendFits m = (m.seq < 2 ^ 64) × (m.ts < 2 ^ 64)

pub wire_conversation_append :
    (m : ConversationAppendMsg)
    → ConversationAppendFits m
    → Wire (serialize_conversation_append m) decode_conversation_append m
unfolding serialize_conversation_append decode_conversation_append
wire_conversation_append m (seq_fits, ts_fits) =
    next _ (wire_str_prefixed m.conv_id)
    ⨾ next _ (wire_u64be seq_fits)
    ⨾ next _ (wire_u64be ts_fits)
    ⨾ next _ (wire_str_prefixed m.agent_id)
    ⨾ next _ (wire_u8 m.role)
    ⨾ last _ (wire_str_prefixed_u16 m.body)

abbrev pub ConversationQueryFits : ConversationQueryMsg → Type 0
ConversationQueryFits m = m.since_seq < 2 ^ 64

pub wire_conversation_query :
    (m : ConversationQueryMsg)
    → ConversationQueryFits m
    → Wire (serialize_conversation_query m) decode_conversation_query m
unfolding serialize_conversation_query decode_conversation_query
wire_conversation_query m since_seq_fits =
    next _ (wire_str_prefixed m.conv_id) ⨾ last _ (wire_u64be since_seq_fits)

AtLeast-conversation_append :
    (m : ConversationAppendMsg) → AtLeast 1 (serialize_conversation_append m)
unfolding serialize_conversation_append
AtLeast-conversation_append m = AtLeast-first _ (AtLeast-str_prefixed m.conv_id)

wire_conversation_appends :
    (xs : List ConversationAppendMsg)
    → All ConversationAppendFits xs
    → All (λ m. Wire (serialize_conversation_append m) decode_conversation_append m) xs
wire_conversation_appends [] h = tt
wire_conversation_appends (x ∷ xs) (h, hs) =
    (wire_conversation_append x h, wire_conversation_appends xs hs)

-- The receiver takes 512 messages at most; the sender does not count.
abbrev pub ConversationBatchFits : ConversationBatchMsg → Type 0
ConversationBatchFits m =
    All ConversationAppendFits m.messages × (length m.messages ≤ max_conversation_batch)

nothing_left : {B : Type 0} (e : Error) (k : B) → (get_end e >>= λ _. pure k) [] ≡ ok (k, [])
unfolding get_end ◌>>=◌ pure
nothing_left e k = refl

pub Ends-conversation_batch :
    (m : ConversationBatchMsg)
    → ConversationBatchFits m
    → Ends (serialize_conversation_batch m) decode_conversation_batch m
unfolding serialize_conversation_batch decode_conversation_batch
Ends-conversation_batch m (fits, few) =
    next_end _ (wire_str_prefixed m.conv_id)
    ⨾ then_nothing _
        (Ends-upto _ _ max_conversation_batch m.messages AtLeast-conversation_append
          (wire_conversation_appends m.messages fits) few)
        (nothing_left batch_over_512 m)
