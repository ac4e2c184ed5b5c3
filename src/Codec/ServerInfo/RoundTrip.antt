-- ===== src/Codec/ServerInfo/RoundTrip.antt =====
-- The server description reads back where the payload cannot be taken for the old format.
use bridge_sessions.Base.{
  ℕ, ◌≡◌, refl, sym, ap, true, false, not, none, List, [], ◌∷◌, arith, length,
}
use bridge_sessions.Codec.Result.{ok}
use bridge_sessions.Codec.Serializer.{◌>>◌, put_bytes, put_str_prefixed_u16, put_if, is_empty}
use bridge_sessions.Codec.Decoder.{◌>>=◌, pure, get_str_prefixed_u16, get_if}
use bridge_sessions.Codec.Wire.{
  ◌⨾◌, Ends, AtLeast, ok-injective, next_end, last_end, wire_if, Ends-absent, nothing->>,
  next_absent, Ends-optional,
}
use bridge_sessions.Codec.Wire.Texts.{wire_bytes, wire_str_prefixed_u16, AtLeast-str_prefixed_u16}
use bridge_sessions.Codec.ServerInfo.{
  zero_load, ServerInfoMsg, serialize_server_info, server_info_tail, legacy_split, server_info_from,
  decode_server_info,
}

-- The load has eight bytes, and latencies are sent only behind host statistics.
abbrev pub ServerInfoFits : ServerInfoMsg → Type 0
ServerInfoFits m =
    (length m.load ≡ 8) × (is_empty m.host_stats_json ≡ true → is_empty m.latency_json ≡ true)

nil_of_is_empty : (s : List ℕ) → is_empty s ≡ true → s ≡ []
unfolding is_empty
nil_of_is_empty [] h = refl
nil_of_is_empty (x ∷ s) h = cc

sent_json : (s : List ℕ) → not (is_empty s) ≡ false → s ≡ []
sent_json s h = nil_of_is_empty s (ground arith)

Ends-last_json :
    {B : Type 0} (f : List ℕ → B) (latency : List ℕ)
    → Ends
        (put_if (not (is_empty latency)) (put_str_prefixed_u16 latency))
        (get_if 2 get_str_prefixed_u16 [] >>= λ x. pure (f x))
        (f latency)
Ends-last_json f latency = last_end _ (
    Ends-optional (not (is_empty latency)) (omega arith) (AtLeast-str_prefixed_u16 latency)
      (wire_str_prefixed_u16 latency) (sent_json latency))

Ends-jsons :
    {B : Type 0} (f : List ℕ → List ℕ → B) (stats latency : List ℕ)
    → (is_empty stats ≡ true → is_empty latency ≡ true)
    → Ends
        (put_if (not (is_empty stats)) (put_str_prefixed_u16 stats)
          >> put_if (not (is_empty latency)) (put_str_prefixed_u16 latency))
        (get_if 2 get_str_prefixed_u16 [] >>= λ x.
          get_if 2 get_str_prefixed_u16 [] >>= λ y. pure (f x y))
        (f stats latency)
unfolding put_if is_empty
Ends-jsons f (c ∷ stats) latency h =
    next_end _ (wire_if [] (AtLeast-str_prefixed_u16 _) (wire_str_prefixed_u16 (c ∷ stats)))
    ⨾ Ends-last_json (f (c ∷ stats)) latency
Ends-jsons f [] [] h = rw nothing->> (
    next_absent 2 get_str_prefixed_u16 [] _ (omega arith)
      (last_end _ (Ends-absent 2 get_str_prefixed_u16 [] (omega arith))))
Ends-jsons f [] (c ∷ latency) h = cc (h refl)

AtLeast-load : (s : List ℕ) → length s ≡ 8 → AtLeast 8 (put_bytes s)
unfolding put_bytes
AtLeast-load s h = record { room = λ bs e. omega (arith, ap length (ok-injective (sym e))) }

Ends-prefixed :
    (m : ServerInfoMsg)
    → ServerInfoFits m
    → Ends (serialize_server_info m) (server_info_from none) m
unfolding serialize_server_info server_info_from server_info_tail
Ends-prefixed m (eight, order) =
    next_end _ (wire_str_prefixed_u16 m.hostname)
    ⨾ next_end _ (wire_str_prefixed_u16 m.version)
    ⨾ next_end _ (wire_if zero_load (AtLeast-load m.load eight) (rw (← eight) (wire_bytes m.load)))
    ⨾ next_end _
        (wire_if [] (AtLeast-str_prefixed_u16 _) (wire_str_prefixed_u16 m.sessions_summary_json))
    ⨾ Ends-jsons _ m.host_stats_json m.latency_json order

-- On a payload with fewer than two newlines, the message reads back.
pub decode-serialize_server_info :
    (m : ServerInfoMsg) (bs : List ℕ)
    → ServerInfoFits m
    → serialize_server_info m ≡ ok bs
    → legacy_split bs ≡ none
    → decode_server_info bs ≡ ok (m, [])
unfolding decode_server_info
decode-serialize_server_info m bs fits e plain = rw plain ((Ends-prefixed m fits).reads bs e)
