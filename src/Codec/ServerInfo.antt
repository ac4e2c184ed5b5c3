-- ===== src/Codec/ServerInfo.antt =====
-- `ServerInfoMsg`, which two formats share: the old one ends the hostname and the version by a
-- newline, and the present one writes their lengths before them.
pub mod RoundTrip
use bridge_sessions.Base.{
  ℕ, zero, suc, ◌+◌, ◌-◌, ◌*◌, ◌%◌, ◌^◌, ◌≤◌, ◌<◌, ◌≡◌, refl, sym, ap, subst, ◌∙◌, ◌≢◌, ◌⊎◌, inl,
  inr, Bool, true, false, not, ◌&&◌, ◌||◌, Option, none, some, List, [], ◌∷◌, ◌++◌, arith, ltb, leb,
  ◌==◌, min, length, take, drop, replicate, length-append, append-nil, append_assoc, All,
  if◌then◌else◌, Bool-cases, Option-cases,
}
use bridge_sessions.Base.Signed.{ℤ, IsI32, IsI16}
use bridge_sessions.Codec.Result.{
  Error, ok, err, clipboard_separator, image_over_cap, image_frame_over_cap, file_chunk_over_cap,
  cua_text_over_cap, cua_data_over_cap, batch_over_512,
}
use bridge_sessions.Codec.Serializer.{
  Put, ◌>>◌, put_nothing, put_bytes, put_u8, put_u16, put_u32be, put_u64be, put_str,
  put_str_prefixed, put_str_prefixed_u16, put_flag, put_u64_halves, put_i32, put_i16, put_check,
  put_blob, put_each, put_if, is_empty,
}
use bridge_sessions.Codec.Decoder.{
  Get, ◌>>=◌, pure, throw, get_u8, get_u16, get_u32be, get_u64be, get_str_size, get_rest,
  get_str_prefixed, get_str_prefixed_u16, get_flag, get_u64_halves, get_i32, get_i16, get_if,
  get_check, get_blob, get_many,
}
use bridge_sessions.Codec.Clipboard.{find_byte}

-- `load`, a `double`, is the eight bytes of its representation.
pub record ServerInfoMsg : Type 0 where
  pub hostname : List ℕ
  pub version : List ℕ
  pub load : List ℕ
  pub sessions_summary_json : List ℕ
  pub host_stats_json : List ℕ
  pub latency_json : List ℕ

unfoldable pub serialize_server_info : ServerInfoMsg → Put
serialize_server_info m = do
  put_str_prefixed_u16 m.hostname
  put_str_prefixed_u16 m.version
  put_bytes m.load
  put_str_prefixed_u16 m.sessions_summary_json
  put_if (not (is_empty m.host_stats_json)) (put_str_prefixed_u16 m.host_stats_json)
  put_if (not (is_empty m.latency_json)) (put_str_prefixed_u16 m.latency_json)

-- `0.0`
abbrev pub zero_load : List ℕ
zero_load = replicate 8 0

-- What both formats have behind the version.
unfoldable pub server_info_tail : List ℕ → List ℕ → Get ServerInfoMsg
server_info_tail hostname version = do
  load ← get_if 8 (get_str_size 8) zero_load
  sessions_summary_json ← get_if 2 get_str_prefixed_u16 []
  host_stats_json ← get_if 2 get_str_prefixed_u16 []
  latency_json ← get_if 2 get_str_prefixed_u16 []
  pure (record {
    hostname = hostname;
    version = version;
    load = load;
    sessions_summary_json = sessions_summary_json;
    host_stats_json = host_stats_json;
    latency_json = latency_json;
  })

-- Where the two newlines of the old format stand: the lengths of the hostname and the version.
unfoldable pub legacy_split : List ℕ → Option (ℕ × ℕ)
legacy_split s = elim (find_byte b'\n' s) [
  | none ↦ none
  | some n ↦ elim (find_byte b'\n' (drop (suc n) s)) [ none ↦ none | some k ↦ some (n, k) ]
]

unfoldable pub server_info_from : Option (ℕ × ℕ) → Get ServerInfoMsg
server_info_from (some (n, k)) = do
  hostname ← get_str_size n
  _ ← get_u8
  version ← get_str_size k
  _ ← get_u8
  server_info_tail hostname version
server_info_from none = do
  hostname ← get_str_prefixed_u16
  version ← get_str_prefixed_u16
  server_info_tail hostname version

-- The newline-delimited format is tried first; with fewer than two newlines the reader starts over.
unfoldable pub decode_server_info : Get ServerInfoMsg
decode_server_info s = server_info_from (legacy_split s) s
