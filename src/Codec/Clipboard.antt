-- ===== src/Codec/Clipboard.antt =====
-- `ClipboardMsg` and `SessionListMsg`: a hash up to a newline, and a run of entries without a count.
pub mod RoundTrip
use bridge_sessions.Base.{
  ℕ, zero, suc, ◌+◌, ◌-◌, ◌*◌, ◌%◌, ◌^◌, ◌≤◌, ◌<◌, ◌≡◌, refl, sym, ap, subst, ◌∙◌, ◌≢◌, inl, inr,
  Bool, true, false, not, ◌&&◌, ◌||◌, Option, none, some, List, [], ◌∷◌, ◌++◌, arith, ltb, leb,
  ◌==◌, min, length, take, drop, length-append, append-nil, append_assoc, All, if◌then◌else◌,
  Bool-cases, Option-cases,
}
use bridge_sessions.Base.Signed.{ℤ, IsI32, IsI16}
use bridge_sessions.Codec.Result.{
  Error, ok, err, clipboard_separator, image_over_cap, image_frame_over_cap, file_chunk_over_cap,
  cua_text_over_cap, cua_data_over_cap, batch_over_512,
}
use bridge_sessions.Codec.Serializer.{
  Put, ◌>>◌, put_nothing, put_bytes, put_u8, put_u16, put_u32be, put_u64be, put_str,
  put_str_prefixed, put_str_prefixed_u16, put_flag, put_u64_halves, put_i32, put_i16, put_check,
  put_blob, put_each,
}
use bridge_sessions.Codec.Decoder.{
  Get, ◌>>=◌, pure, throw, get_u8, get_u16, get_u32be, get_u64be, get_str_size, get_rest,
  get_str_prefixed, get_str_prefixed_u16, get_flag, get_u64_halves, get_i32, get_i16, get_if,
  get_check, get_blob, get_many,
}

pub record ClipboardMsg : Type 0 where
  pub text : List ℕ
  pub hash : List ℕ

unfoldable pub serialize_clipboard : ClipboardMsg → Put
serialize_clipboard m = do put_str m.hash; put_u8 b'\n'; put_str m.text

-- `std::find` of a byte: how many bytes stand before it.
unfoldable pub find_byte : ℕ → List ℕ → Option ℕ
find_byte b [] = none
find_byte b (x ∷ xs) =
    let rest = find_byte b xs in
    if x == b then some 0 else elim rest [ none ↦ none | some n ↦ some (suc n) ]

unfoldable pub clipboard_from : Option ℕ → Get ClipboardMsg
clipboard_from none = throw clipboard_separator
clipboard_from (some n) = do
  hash ← get_str_size n
  _ ← get_u8
  text ← get_rest
  pure (record { text = text; hash = hash })

unfoldable pub decode_clipboard : Get ClipboardMsg
decode_clipboard s = clipboard_from (find_byte b'\n' s) s

pub record SessionInfo : Type 0 where
  pub name : List ℕ
  pub state : List ℕ
  pub uptime_seconds : ℕ

unfoldable pub serialize_session_info : SessionInfo → Put
serialize_session_info si = do
  put_str_prefixed si.name
  put_str_prefixed si.state
  put_u32be (min si.uptime_seconds (2 ^ 32 - 1))

unfoldable pub decode_session_info : Get SessionInfo
decode_session_info = do
  name ← get_str_prefixed
  state ← get_str_prefixed
  uptime_seconds ← get_u32be
  pure (record { name = name; state = state; uptime_seconds = uptime_seconds })

pub record SessionListMsg : Type 0 where
  pub sessions : List SessionInfo

unfoldable pub serialize_session_list : SessionListMsg → Put
serialize_session_list m = put_each serialize_session_info m.sessions

unfoldable pub decode_session_list : Get SessionListMsg
decode_session_list = do
  sessions ← get_many decode_session_info
  pure (record { sessions = sessions })
