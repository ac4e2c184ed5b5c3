-- ===== src/Codec/Wire/Texts.antt =====
-- The reads of strings and byte runs, with a length before them or up to the end of the payload.
use bridge_sessions.Base.{
  ℕ, ◌%◌, ◌^◌, ◌≡◌, refl, inl, inr, List, [], ◌∷◌, ◌++◌, append-nil, arith, ltb, length,
  length-append, take-append, drop-append, Bool-cases,
}
use bridge_sessions.Codec.Result.{ok}
use bridge_sessions.Codec.Serializer.{put_bytes, put_str, put_str_prefixed, put_str_prefixed_u16}
use bridge_sessions.Codec.Decoder.{get_str_size, get_rest, get_str_prefixed, get_str_prefixed_u16}
use bridge_sessions.Codec.Wire.{
  Wire, Ends, AtLeast, wire_of_ok, Ends-of_ok, wire_of_err, next, AtLeast-first,
}
use bridge_sessions.Codec.Wire.Words.{wire_u8, wire_u16, AtLeast-u8, AtLeast-u16}

pub get_str_size-append : (s rest : List ℕ) → get_str_size (length s) (s ++ rest) ≡ ok (s, rest)
unfolding get_str_size
get_str_size-append [] rest = refl
get_str_size-append (x ∷ s) rest =
    ground (arith, length-append s rest, take-append s rest, drop-append s rest)

pub wire_bytes : (s : List ℕ) → Wire (put_bytes s) (get_str_size (length s)) s
unfolding put_bytes
wire_bytes s = wire_of_ok (get_str_size (length s)) s s (λ rest. get_str_size-append s rest)

pub wire_str : (s : List ℕ) → Wire (put_str s) (get_str_size (length s)) s
unfolding put_str
wire_str s = wire_of_ok (get_str_size (length s)) s s (λ rest. get_str_size-append s rest)

pub Ends-rest : (s : List ℕ) → Ends (put_str s) get_rest s
unfolding put_str get_rest
Ends-rest s = Ends-of_ok get_rest s s (rw append-nil at (get_str_size-append s []))

pub wire_str_prefixed : (s : List ℕ) → Wire (put_str_prefixed s) get_str_prefixed s
unfolding put_str_prefixed get_str_prefixed
wire_str_prefixed s = elim (Bool-cases (ltb 255 (length s))) [
  | inl over ↦ rw over wire_of_err
  | inr fits ↦
      let small : length s % 256 ≡ length s = ground arith in
      rw fits (next get_str_size (wire_u8 _) (rw small (wire_str s)))
]

pub wire_str_prefixed_u16 : (s : List ℕ) → Wire (put_str_prefixed_u16 s) get_str_prefixed_u16 s
unfolding put_str_prefixed_u16 get_str_prefixed_u16
wire_str_prefixed_u16 s = elim (Bool-cases (ltb 65535 (length s))) [
  | inl over ↦ rw over wire_of_err
  | inr fits ↦
      let small : length s % 2 ^ 16 ≡ length s = ground arith in
      rw fits (next get_str_size (wire_u16 (omega arith)) (rw small (wire_str s)))
]

pub AtLeast-str_prefixed : (s : List ℕ) → AtLeast 1 (put_str_prefixed s)
unfolding put_str_prefixed
AtLeast-str_prefixed s = elim (Bool-cases (ltb 255 (length s))) [
  | inl over ↦ rw over (record { room = λ bs e. cc })
  | inr fits ↦ rw fits (AtLeast-first _ (AtLeast-u8 _))
]

pub AtLeast-str_prefixed_u16 : (s : List ℕ) → AtLeast 2 (put_str_prefixed_u16 s)
unfolding put_str_prefixed_u16
AtLeast-str_prefixed_u16 s = elim (Bool-cases (ltb 65535 (length s))) [
  | inl over ↦ rw over (record { room = λ bs e. cc })
  | inr fits ↦ rw fits (AtLeast-first _ (AtLeast-u16 _))
]
