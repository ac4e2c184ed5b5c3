-- ===== src/Escape/Body.antt =====
-- The base64 of a clipboard sequence is that of the line protocol.
use bridge_sessions.Base.{
  ℕ, ◌+◌, ◌-◌, ◌*◌, ◌/◌, ◌%◌, ◌^◌, ◌<◌, ◌≡◌, ◌≢◌, refl, sym, ap, ap₂, ◌∙◌, false, some, List, [],
  ◌∷◌, ◌++◌, All, ◌==◌, arith, leb, if◌then◌else◌,
}
use bridge_sessions.Base.Bits.{bit_or-shift}
use bridge_sessions.Base.Masks.{bit_and-mask}
use bridge_sessions.Base64.{b64_char, b64_feed, b64enc, b64dec}
use bridge_sessions.Base64.RoundTrip.{
  InTable, b64_groups-InTable, feed_0, feed_6, feed_4, feed_2, place_of-b64_char, b64_char-plain,
  b64dec-b64enc,
}
use bridge_sessions.Escape.Osc52.{
  osc52_place, osc52_feed, behind_semicolon, decode_b64, decode_osc52_body,
}

osc52_place-place :
    (acc bits v : ℕ) (next : ℕ → ℕ → List ℕ)
    → v < 64
    → osc52_place acc bits (some v) next ≡ (
        if leb 8 (bits + 6)
        then ((acc * 64 + v) / 2 ^ (bits + 6 - 8) % 256)
          ∷ next ((acc * 64 + v) % 2 ^ (bits + 6 - 8)) (bits + 6 - 8)
        else next (acc * 64 + v) (bits + 6))
osc52_place-place acc bits v next less =
    rw (bit_or-shift 6 acc v less, bit_and-mask (bits + 6 - 8) (acc * 64 + v)) refl

osc52_feed-place :
    (acc bits c v : ℕ) (s : List ℕ)
    → v < 64
    → c ≡ b64_char v
    → osc52_feed acc bits (c ∷ s) ≡ osc52_place acc bits (some v) (λ a b. osc52_feed a b s)
osc52_feed-place acc bits c v s less e =
    rw (e, b64_char-plain v less, place_of-b64_char v less) refl

-- The numbers of bits between two characters.
data Between : ℕ → Type 0 where
  none_left : Between 0
  two_left : Between 2
  four_left : Between 4
  six_left : Between 6

osc52_feed-b64_feed :
    (acc : ℕ) {bits : ℕ} (s : List ℕ)
    → Between bits
    → All InTable s
    → osc52_feed (acc % 2 ^ bits) bits s ≡ b64_feed acc bits s
osc52_feed-b64_feed acc [] b h = refl
osc52_feed-b64_feed acc (c ∷ s) none_left ((v, less, e), h) =
    let word = acc % 2 ^ 26 * 64 + v in
    osc52_feed-place (acc % 2 ^ 0) 0 c v s less e
    ∙ osc52_place-place (acc % 2 ^ 0) 0 v (λ a b. osc52_feed a b s) less
    ∙ ap (λ a. osc52_feed a 6 s) (omega arith)
    ∙ osc52_feed-b64_feed word s six_left h
    ∙ sym (feed_0 acc v s less)
    ∙ ap (λ d. b64_feed acc 0 (d ∷ s)) (sym e)
osc52_feed-b64_feed acc (c ∷ s) six_left ((v, less, e), h) =
    let word = acc % 2 ^ 26 * 64 + v in
    osc52_feed-place (acc % 2 ^ 6) 6 c v s less e
    ∙ osc52_place-place (acc % 2 ^ 6) 6 v (λ a b. osc52_feed a b s) less
    ∙ ap₂ ◌∷◌ (omega arith)
        (ap (λ a. osc52_feed a 4 s) (omega arith) ∙ osc52_feed-b64_feed word s four_left h)
    ∙ sym (feed_6 acc v s less)
    ∙ ap (λ d. b64_feed acc 6 (d ∷ s)) (sym e)
osc52_feed-b64_feed acc (c ∷ s) four_left ((v, less, e), h) =
    let word = acc % 2 ^ 26 * 64 + v in
    osc52_feed-place (acc % 2 ^ 4) 4 c v s less e
    ∙ osc52_place-place (acc % 2 ^ 4) 4 v (λ a b. osc52_feed a b s) less
    ∙ ap₂ ◌∷◌ (omega arith)
        (ap (λ a. osc52_feed a 2 s) (omega arith) ∙ osc52_feed-b64_feed word s two_left h)
    ∙ sym (feed_4 acc v s less)
    ∙ ap (λ d. b64_feed acc 4 (d ∷ s)) (sym e)
osc52_feed-b64_feed acc (c ∷ s) two_left ((v, less, e), h) =
    let word = acc % 2 ^ 26 * 64 + v in
    osc52_feed-place (acc % 2 ^ 2) 2 c v s less e
    ∙ osc52_place-place (acc % 2 ^ 2) 2 v (λ a b. osc52_feed a b s) less
    ∙ ap₂ ◌∷◌ (omega arith)
        (ap (λ a. osc52_feed a 0 s) (omega arith) ∙ osc52_feed-b64_feed word s none_left h)
    ∙ sym (feed_2 acc v s less)
    ∙ ap (λ d. b64_feed acc 2 (d ∷ s)) (sym e)

behind-target :
    (target b64 : List ℕ)
    → All (λ c. (c == b';') ≡ false) target
    → behind_semicolon (target ++ (b';' ∷ b64)) ≡ some b64
behind-target [] b64 h = refl
behind-target (c ∷ target) b64 h = rw h.0 (behind-target target b64 h.1)

decode_b64-all : (b64 : List ℕ) → b64 ≢ [] → decode_b64 (some b64) ≡ some (osc52_feed 0 0 b64)
decode_b64-all [] ne = absurd (ne refl)
decode_b64-all (c ∷ b64) ne = refl

-- A clipboard sequence with the base64 of some bytes, for every target, decodes to the bytes. There is a byte
-- at least.
pub decode_osc52_body-b64enc :
    (target bytes : List ℕ)
    → All (λ c. (c == b';') ≡ false) target
    → All (λ b. b < 256) bytes
    → bytes ≢ []
    → decode_osc52_body (target ++ (b';' ∷ b64enc bytes)) ≡ some bytes
unfolding decode_osc52_body b64enc b64dec
decode_osc52_body-b64enc target bytes named small some_byte =
    let read = b64dec-b64enc bytes small in
    ap decode_b64 (behind-target target (b64enc bytes) named)
    ∙ decode_b64-all (b64enc bytes) (λ e. some_byte (sym read ∙ ap b64dec e))
    ∙ ap some (osc52_feed-b64_feed 0 (b64enc bytes) none_left (b64_groups-InTable bytes) ∙ read)
