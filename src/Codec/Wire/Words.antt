-- ===== src/Codec/Wire/Words.antt =====
-- The fixed-width reads of `struct Decoder` against the writes of `struct Serializer`.
use bridge_sessions.Base.{
  ℕ, ◌+◌, ◌*◌, ◌/◌, ◌%◌, ◌^◌, ◌<◌, ◌≡◌, refl, sym, ap, subst, ◌∙◌, Bool, true, false, List, [], ◌∷◌,
  arith, bit_or, length,
}
use bridge_sessions.Base.Bits.{bit_or-shift}
use bridge_sessions.Base.Signed.{
  ℤ, to_u32, to_u16, IsI32, IsI16, of_u32, of_u16, to_u32-lt, to_u16-lt,
}
use bridge_sessions.Base.Signed.{of_u32-to_u32, of_u16-to_u16}
use bridge_sessions.Codec.Result.{ok}
use bridge_sessions.Codec.Serializer.{
  put_u8, be_bytes, put_u16, put_u32be, put_u64be, put_flag, put_u64_halves, put_i32, put_i16,
}
use bridge_sessions.Codec.Decoder.{
  ◌>>=◌, pure, get_u8, read_u16, get_u16, read_u32be, get_u32be, fold_u64, get_u64be, get_flag,
  get_u64_halves, get_i32, get_i16,
}
use bridge_sessions.Codec.Wire.{Wire, AtLeast, ok-injective, wire_of_ok, AtLeast-both, next, last}

pub wire_u8 : (v : ℕ) → Wire (put_u8 v) get_u8 v
unfolding put_u8 get_u8
wire_u8 v = wire_of_ok get_u8 v (v ∷ []) (λ rest. refl)

-- The two bytes of a word, and the four of a longer one, make up the word again.
pub read_u16_be : (v : ℕ) → v < 2 ^ 16 → read_u16 (v / 2 ^ 8 % 256) (v / 2 ^ 0 % 256) ≡ v
unfolding read_u16
read_u16_be v h = omega (arith, bit_or-shift 8 (v / 2 ^ 8 % 256) (v / 2 ^ 0 % 256))

pub wire_u16 : {v : ℕ} → v < 2 ^ 16 → Wire (put_u16 v) get_u16 v
unfolding put_u16 get_u16 be_bytes
wire_u16 {v} h =
    wire_of_ok get_u16 v (be_bytes 2 v) λ rest. ap (λ (w : ℕ). ok (w, rest)) (read_u16_be v h)

read_u32be_lem :
    (a b c d : ℕ)
    → b < 256
    → c < 256
    → d < 256
    → read_u32be a b c d ≡ a * 2 ^ 24 + b * 2 ^ 16 + c * 2 ^ 8 + d
unfolding read_u32be
read_u32be_lem a b c d hb hc hd = ground (
  arith,
  bit_or-shift 24 a (b * 2 ^ 16),
  bit_or-shift 16 (a * 256 + b) (c * 2 ^ 8),
  bit_or-shift 8 (a * 65536 + b * 256 + c) d,
)

pub read_u32be_be :
    (v : ℕ)
    → v < 2 ^ 32
    → read_u32be (v / 2 ^ 24 % 256) (v / 2 ^ 16 % 256) (v / 2 ^ 8 % 256) (v / 2 ^ 0 % 256) ≡ v
read_u32be_be v h = omega (
  arith,
  read_u32be_lem (v / 2 ^ 24 % 256) (v / 2 ^ 16 % 256) (v / 2 ^ 8 % 256) (v / 2 ^ 0 % 256),
)

pub wire_u32be : {v : ℕ} → v < 2 ^ 32 → Wire (put_u32be v) get_u32be v
unfolding put_u32be get_u32be be_bytes
wire_u32be {v} h =
    wire_of_ok get_u32be v (be_bytes 4 v) λ rest. ap (λ (w : ℕ). ok (w, rest)) (read_u32be_be v h)

-- One round of the loop of `u64be`, from the bytes above `b` to those above the next one.
fold_u64_step :
    (v b w : ℕ) (bs : List ℕ)
    → v < 2 ^ 56
    → b < 256
    → w ≡ v * 256 + b
    → fold_u64 v (b ∷ bs) ≡ fold_u64 w bs
unfolding fold_u64
fold_u64_step v b w bs hv hb e =
    let small : v * 2 ^ 8 % 2 ^ 64 ≡ v * 2 ^ 8 = omega arith in
    ap (λ (x : ℕ). fold_u64 x bs) (rw (e, small) (bit_or-shift 8 v b hb))

fold_u64-be_bytes : (v : ℕ) → v < 2 ^ 64 → fold_u64 0 (be_bytes 8 v) ≡ v
unfolding be_bytes
fold_u64-be_bytes v h =
    step 0 (2 ^ 56) _ (omega arith)
    ∙ step (v / 2 ^ 56) (2 ^ 48) _ (omega arith)
    ∙ step (v / 2 ^ 48) (2 ^ 40) _ (omega arith)
    ∙ step (v / 2 ^ 40) (2 ^ 32) _ (omega arith)
    ∙ step (v / 2 ^ 32) (2 ^ 24) _ (omega arith)
    ∙ step (v / 2 ^ 24) (2 ^ 16) _ (omega arith)
    ∙ step (v / 2 ^ 16) (2 ^ 8) _ (omega arith)
    ∙ step (v / 2 ^ 8) (2 ^ 0) _ (omega arith)
    ∙ unfold fold_u64 in omega arith
  where
    step :
        (above place : ℕ) (bs : List ℕ)
        → (above < 2 ^ 56) × (v / place ≡ above * 256 + v / place % 256)
        → fold_u64 above (v / place % 256 ∷ bs) ≡ fold_u64 (v / place) bs
    step above place bs fits =
        fold_u64_step above (v / place % 256) (v / place) bs fits.0 (omega arith) fits.1

pub wire_u64be : {v : ℕ} → v < 2 ^ 64 → Wire (put_u64be v) get_u64be v
unfolding put_u64be get_u64be be_bytes
wire_u64be {v} h =
    wire_of_ok get_u64be v (be_bytes 8 v) λ rest. ground (arith, fold_u64-be_bytes v h)

word_lt : (x : ℕ) → x % 2 ^ 32 < 2 ^ 32
word_lt x = omega arith

join_halves : (v : ℕ) → v < 2 ^ 64 → bit_or (v / 2 ^ 32 % 2 ^ 32 * 2 ^ 32 % 2 ^ 64) (v % 2 ^ 32) ≡ v
join_halves v h =
    let high : v / 2 ^ 32 % 2 ^ 32 * 2 ^ 32 % 2 ^ 64 ≡ v / 2 ^ 32 * 2 ^ 32 = omega arith in
    rw high (omega (arith, bit_or-shift 32 (v / 2 ^ 32) (v % 2 ^ 32)))

pub wire_u64_halves : {v : ℕ} → v < 2 ^ 64 → Wire (put_u64_halves v) get_u64_halves v
unfolding put_u64_halves get_u64_halves
wire_u64_halves {v} h =
    subst (Wire _ _) (join_halves v h)
      (next _ (wire_u32be (word_lt _)) (last _ (wire_u32be (word_lt _))))

pub wire_i32 : {z : ℤ} → IsI32 z → Wire (put_i32 z) get_i32 z
unfolding put_i32 get_i32
wire_i32 {z} h =
    subst (Wire (put_u32be (to_u32 z)) (get_u32be >>= λ w. pure (of_u32 w))) (of_u32-to_u32 z h)
      (last of_u32 (wire_u32be (to_u32-lt z)))

pub wire_i16 : {z : ℤ} → IsI16 z → Wire (put_i16 z) get_i16 z
unfolding put_i16 get_i16
wire_i16 {z} h =
    subst (Wire (put_u16 (to_u16 z)) (get_u16 >>= λ w. pure (of_u16 w))) (of_u16-to_u16 z h)
      (last of_u16 (wire_u16 (to_u16-lt z)))

pub wire_flag : (b : Bool) → Wire (put_flag b) get_flag b
unfolding put_flag get_flag put_u8 get_u8 ◌>>=◌ pure
wire_flag true = wire_of_ok get_flag true (1 ∷ []) (λ rest. refl)
wire_flag false = wire_of_ok get_flag false (0 ∷ []) (λ rest. refl)

pub AtLeast-u8 : (v : ℕ) → AtLeast 1 (put_u8 v)
unfolding put_u8
AtLeast-u8 v = record { room = λ bs e. omega (arith, ap length (ok-injective (sym e))) }

pub AtLeast-flag : (b : Bool) → AtLeast 1 (put_flag b)
unfolding put_flag
AtLeast-flag b = AtLeast-u8 _

pub AtLeast-u32be : (v : ℕ) → AtLeast 4 (put_u32be v)
unfolding put_u32be be_bytes
AtLeast-u32be v = record { room = λ bs e. omega (arith, ap length (ok-injective (sym e))) }

pub AtLeast-u16 : (v : ℕ) → AtLeast 2 (put_u16 v)
unfolding put_u16 be_bytes
AtLeast-u16 v = record { room = λ bs e. omega (arith, ap length (ok-injective (sym e))) }

pub AtLeast-u64_halves : (v : ℕ) → AtLeast 8 (put_u64_halves v)
unfolding put_u64_halves
AtLeast-u64_halves v = AtLeast-both (AtLeast-u32be _) (AtLeast-u32be _)
