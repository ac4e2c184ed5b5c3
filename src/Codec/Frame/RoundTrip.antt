-- ===== src/Codec/Frame/RoundTrip.antt =====
-- A frame is taken apart into what it was made of, and every message reads back from its frame.
use bridge_sessions.Base.{
  ℕ, ◌%◌, ◌^◌, ◌≤◌, ◌<◌, ◌≡◌, refl, ap, inl, inr, Bool, true, false, not, ◌&&◌, List, [], ◌∷◌,
  arith, bit_and, bit_or, ltb, ◌==◌, length, take, Bool-cases, if◌then◌else◌,
}
use bridge_sessions.Codec.Result.{Result, Error, logical_over_cap, ok, ◌>>=◌, >>=-eq-ok}
use bridge_sessions.Codec.Serializer.{be_bytes}
use bridge_sessions.Codec.File.{max_frame_payload_u32}
use bridge_sessions.Codec.Wire.Words.{read_u16_be, read_u32be_be}
use bridge_sessions.Codec.Zstd.{Zstd, IsZstd, zstd_compress, zstd_decompress-compress}
use bridge_sessions.Codec.MessageType.{type_byte}
use bridge_sessions.Codec.Message.{Message, message_type, serialize_msg}
use bridge_sessions.Codec.Dispatch.{decode_payload}
use bridge_sessions.Codec.Message.RoundTrip.{MessageFits, Ends-msg}
use bridge_sessions.Codec.Frame.{
  max_frame_payload_u16, compression_threshold, flag_compressed, flag_control, flag_length_u32,
  control_stream_id, logical_cap, check, set_flag, frame_u32, frame_u16, build_frame, pack, encode,
  frame_header_layout, split_frame, unpack, decode,
}

pub check_passed :
    {A : Type 0} (over : Bool) (e : Error) (k : Result A) {b : A}
    → (check over e >>= λ _. k) ≡ ok b
    → (over ≡ false) × (k ≡ ok b)
check_passed true e k h = cc
check_passed false e k h = (refl, h)

within_cap :
    (allow_large : Bool) (n : ℕ)
    → ltb (logical_cap allow_large) n ≡ false
    → n ≤ max_frame_payload_u32
within_cap allow_large n h = ground arith

take_all : (xs : List ℕ) → take (length xs) xs ≡ xs
take_all [] = refl
take_all (x ∷ xs) = ap (◌∷◌ x) (take_all xs)

split_frame-frame_u16 :
    (stream_id type flags : ℕ) (payload : List ℕ)
    → bit_and flags flag_length_u32 ≡ 0
    → length payload ≤ max_frame_payload_u16
    → split_frame (frame_u16 stream_id type flags payload) ≡ ok (type, flags, payload)
unfolding split_frame frame_header_layout frame_u16 be_bytes
split_frame-frame_u16 stream_id type flags payload plain fits =
    ground (arith, read_u16_be (length payload % 2 ^ 16), take_all payload)

split_frame-frame_u32 :
    (stream_id type flags : ℕ) (payload : List ℕ)
    → bit_and flags flag_length_u32 ≡ 8
    → length payload ≤ max_frame_payload_u32
    → split_frame (frame_u32 stream_id type flags payload) ≡ ok (type, flags, payload)
unfolding split_frame frame_header_layout frame_u32 be_bytes
split_frame-frame_u32 stream_id type flags payload large fits =
    ground (arith, read_u32be_be (length payload % 2 ^ 32), take_all payload)

-- The flags that `encode` sets before the one for the length.
abbrev flags_of : Bool → Bool → ℕ
flags_of compressed control = set_flag control flag_control (set_flag compressed flag_compressed 0)

pub record FlagFacts (flags : ℕ) (compressed : Bool) : Type 0 where
  pub short : bit_and flags flag_length_u32 ≡ 0
  pub long : bit_and (bit_or flags flag_length_u32) flag_length_u32 ≡ 8
  pub body_short : (bit_and flags flag_compressed == 0) ≡ not compressed
  pub body_long : (bit_and (bit_or flags flag_length_u32) flag_compressed == 0) ≡ not compressed

pub flag_facts : (compressed control : Bool) → FlagFacts (flags_of compressed control) compressed
flag_facts true true = record { short = refl; long = refl; body_short = refl; body_long = refl }
flag_facts true false = record { short = refl; long = refl; body_short = refl; body_long = refl }
flag_facts false true = record { short = refl; long = refl; body_short = refl; body_long = refl }
flag_facts false false = record { short = refl; long = refl; body_short = refl; body_long = refl }

module _ (z : Zstd) (laws : IsZstd z) where
  length_compressed : (d c : List ℕ) → zstd_compress z d ≡ ok c → 0 < length c
  unfolding zstd_compress
  length_compressed d c e = ground (arith, laws.nonempty d c)

  unpack_body :
      (compressed : Bool) (flags : ℕ) (logical payload : List ℕ)
      → (bit_and flags flag_compressed == 0) ≡ not compressed
      → length logical ≤ max_frame_payload_u32
      → (if compressed then zstd_compress z logical else ok logical) ≡ ok payload
      → unpack z flags payload ≡ ok logical
  unfolding unpack
  unpack_body true flags logical payload bits fits e = ground (
    arith,
    length_compressed logical payload e,
    zstd_decompress-compress z logical payload laws fits e,
  )
  unpack_body false flags logical payload bits fits e = ground arith

  -- What `pack` made, `split_frame` and `unpack` take apart again.
  record Splits (type : ℕ) (logical frame : List ℕ) : Type 0 where
    flags : ℕ
    payload : List ℕ
    split : split_frame frame ≡ ok (type, flags, payload)
    unpacked : unpack z flags payload ≡ ok logical

  build_frame-Splits :
      (stream_id type flags : ℕ) (compressed large : Bool) (logical payload frame : List ℕ)
      → FlagFacts flags compressed
      → length logical ≤ max_frame_payload_u32
      → (if compressed then zstd_compress z logical else ok logical) ≡ ok payload
      → build_frame stream_id type flags large payload ≡ ok frame
      → Splits type logical frame
  unfolding build_frame
  build_frame-Splits stream_id type flags compressed large logical payload frame facts fits e b =
      elim (Bool-cases (large && ltb max_frame_payload_u16 (length payload))) [
        | inl wide ↦ record {
          flags = bit_or flags flag_length_u32;
          payload = payload;
          split = ground (
            arith,
            split_frame-frame_u32 stream_id type (bit_or flags flag_length_u32) payload facts.long,
          );
          unpacked = unpack_body compressed _ logical payload facts.body_long fits e;
        }
        | inr narrow ↦ record {
          flags = flags;
          payload = payload;
          split = ground (arith, split_frame-frame_u16 stream_id type flags payload facts.short);
          unpacked = unpack_body compressed flags logical payload facts.body_short fits e;
        }
      ]

  pack-Splits :
      (type stream_id : ℕ) (large : Bool) (logical frame : List ℕ)
      → length logical ≤ max_frame_payload_u32
      → pack z type stream_id large logical ≡ ok frame
      → Splits type logical frame
  unfolding pack
  pack-Splits type stream_id large logical frame fits e =
      let compressed : Bool = ltb compression_threshold (length logical) in
      let (payload, made, built) =
        >>=-eq-ok (if compressed then zstd_compress z logical else ok logical) _ e in
      build_frame-Splits stream_id type _ compressed large logical payload frame
        (flag_facts compressed (stream_id == control_stream_id)) fits made built

  decode-Splits :
      (type : ℕ) (logical frame : List ℕ) (m : Message)
      → length logical ≤ max_frame_payload_u32
      → Splits type logical frame
      → decode_payload type logical ≡ ok (m, [])
      → decode z frame ≡ ok m
  unfolding decode
  decode-Splits type logical frame m fits s read = ground (arith, s.split, s.unpacked, read)

  -- What `encode` makes of a message, `decode` reads back as that message, for every stream, with and
  -- without compression, and with both kinds of length. The fields fit their C++ types and are none
  -- that the layout confuses (`MessageFits`), a batch has at most 512 messages, and libzstd does what it documents (`IsZstd`).
  pub decode-encode :
      (m : Message) (stream_id : ℕ) (allow_large : Bool) (frame : List ℕ)
      → MessageFits m
      → encode z m stream_id allow_large ≡ ok frame
      → decode z frame ≡ ok m
  unfolding encode
  decode-encode m stream_id allow_large frame fits e =
      let (logical, written, rest) = >>=-eq-ok (serialize_msg m) _ e in
      let (passed, packed) =
        check_passed (ltb (logical_cap allow_large) (length logical)) logical_over_cap
          (pack z (type_byte (message_type m)) stream_id allow_large logical) rest in
      let small : length logical ≤ max_frame_payload_u32 =
        within_cap allow_large (length logical) passed in
      decode-Splits _ logical frame m small
        (pack-Splits _ stream_id allow_large logical frame small packed)
        ((Ends-msg m fits).reads logical written)
