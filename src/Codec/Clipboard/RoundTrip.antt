-- ===== src/Codec/Clipboard/RoundTrip.antt =====
-- The clipboard and the session list read back.
use bridge_sessions.Base.{
  ℕ, ◌-◌, ◌^◌, ◌<◌, ◌≡◌, none, some, List, [], ◌∷◌, ◌++◌, arith, min, length, All,
}
use bridge_sessions.Codec.Result.{ok}
use bridge_sessions.Codec.Serializer.{◌>>◌, put_u8, put_str}
use bridge_sessions.Codec.Wire.{
  ◌⨾◌, Wire, Ends, AtLeast, ok-injective, >>-eq-ok, next, next_end, last, last_end, AtLeast-first,
}
use bridge_sessions.Codec.Wire.Words.{wire_u8, wire_u32be}
use bridge_sessions.Codec.Wire.Texts.{wire_str, Ends-rest, wire_str_prefixed, AtLeast-str_prefixed}
use bridge_sessions.Codec.Wire.Blobs.{Ends-many}
use bridge_sessions.Codec.Clipboard.{
  ClipboardMsg, serialize_clipboard, find_byte, clipboard_from, decode_clipboard, SessionInfo,
  serialize_session_info, decode_session_info, SessionListMsg, serialize_session_list,
  decode_session_list,
}

-- The hash, a string of hex digits, has no newline.
abbrev pub ClipboardFits : ClipboardMsg → Type 0
ClipboardFits m = find_byte b'\n' m.hash ≡ none

pub find_byte-append :
    (b : ℕ) (xs ys : List ℕ)
    → find_byte b xs ≡ none
    → find_byte b (xs ++ (b ∷ ys)) ≡ some (length xs)
unfolding find_byte
find_byte-append b [] ys h = ground arith
find_byte-append b (x ∷ xs) ys h = ground (arith, find_byte-append b xs ys)

clipboard_split :
    (hash text a b : List ℕ)
    → put_str hash ≡ ok a
    → (put_u8 b'\n' >> put_str text) ≡ ok b
    → a ++ b ≡ hash ++ (b'\n' ∷ text)
unfolding put_str put_u8 ◌>>◌
clipboard_split hash text a b ea eb = rw (← ok-injective ea, ← ok-injective eb)

pub Ends-clipboard :
    (m : ClipboardMsg) → ClipboardFits m → Ends (serialize_clipboard m) decode_clipboard m
unfolding serialize_clipboard decode_clipboard clipboard_from
Ends-clipboard m plain = record {
  reads = λ bs e.
      let (a, b, ea, eb, split) = >>-eq-ok (put_str m.hash) (put_u8 b'\n' >> put_str m.text) bs e in
      let found : find_byte b'\n' bs ≡ some (length m.hash) =
        rw (split, clipboard_split m.hash m.text a b ea eb)
          (find_byte-append b'\n' m.hash m.text plain) in
      rw found (past_hash.reads bs e);
}
  where
    past_hash : Ends (serialize_clipboard m) (clipboard_from (some (length m.hash))) m
    past_hash =
        next_end _ (wire_str m.hash) ⨾ next_end _ (wire_u8 b'\n') ⨾ last_end _ (Ends-rest m.text)

-- What the 32 bits on the wire can hold.
abbrev pub SessionInfoFits : SessionInfo → Type 0
SessionInfoFits si = si.uptime_seconds < 2 ^ 32

wire_session_info :
    (si : SessionInfo)
    → SessionInfoFits si
    → Wire (serialize_session_info si) decode_session_info si
unfolding serialize_session_info decode_session_info
wire_session_info si fits =
    let kept : min si.uptime_seconds (2 ^ 32 - 1) ≡ si.uptime_seconds = omega arith in
    next _ (wire_str_prefixed si.name)
    ⨾ next _ (wire_str_prefixed si.state)
    ⨾ rw kept (last _ (wire_u32be fits))

AtLeast-session_info : (si : SessionInfo) → AtLeast 1 (serialize_session_info si)
unfolding serialize_session_info
AtLeast-session_info si = AtLeast-first _ (AtLeast-str_prefixed si.name)

abbrev pub SessionListFits : SessionListMsg → Type 0
SessionListFits m = All SessionInfoFits m.sessions

wire_session_infos :
    (xs : List SessionInfo)
    → All SessionInfoFits xs
    → All (λ si. Wire (serialize_session_info si) decode_session_info si) xs
wire_session_infos [] h = tt
wire_session_infos (x ∷ xs) (h, hs) = (wire_session_info x h, wire_session_infos xs hs)

pub Ends-session_list :
    (m : SessionListMsg) → SessionListFits m → Ends (serialize_session_list m) decode_session_list m
unfolding serialize_session_list decode_session_list
Ends-session_list m fits =
    last_end _ (Ends-many _ _ m.sessions AtLeast-session_info (wire_session_infos m.sessions fits))
