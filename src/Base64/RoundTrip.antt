-- ===== src/Base64/RoundTrip.antt =====
-- `b64dec` reads what `b64enc` writes.
use bridge_sessions.Base.{
  ℕ, ◌+◌, ◌*◌, ◌/◌, ◌%◌, ◌^◌, ◌<◌, ◌≡◌, refl, sym, ap, ap₂, subst, ◌∙◌, List, [], ◌∷◌, All, false,
  some, arith, ◌==◌, bit_or,
}
use bridge_sessions.Base.Bits.{bit_or-shift}
use bridge_sessions.Base64.{
  place_of, b64_char, sextet, word_of, b64_groups, keep_or_pop, pop_padding, b64enc, rev_b64, place,
  push_sextet, b64_feed, b64dec,
}
use bridge_sessions.Base64.Table.{k_b64_place, k_b64_plain}

pub place_of-b64_char : (i : ℕ) → i < 64 → place_of (b64_char i) ≡ some i
unfolding place_of b64_char
place_of-b64_char i less = k_b64_place i less

rev_b64-b64_char : (i : ℕ) → i < 64 → rev_b64 (b64_char i) ≡ i
rev_b64-b64_char i less = ap place (place_of-b64_char i less)

pub b64_char-plain : (i : ℕ) → i < 64 → (b64_char i == b'=') ≡ false
unfolding b64_char
b64_char-plain i less = k_b64_plain i less

push_sextet_sum : (acc v : ℕ) → v < 64 → push_sextet acc v ≡ acc % 2 ^ 26 * 64 + v
unfolding push_sextet
push_sextet_sum acc v less =
    ap (λ w. bit_or w v) (omega arith) ∙ bit_or-shift 6 (acc % 2 ^ 26) v less

word_of_sum : (a b c : ℕ) → b < 256 → c < 256 → word_of a b c ≡ a * 2 ^ 16 + b * 2 ^ 8 + c
word_of_sum a b c lb lc =
    ap (λ w. bit_or w c) (bit_or-shift 16 a (b * 2 ^ 8) (omega arith) ∙ omega arith)
    ∙ bit_or-shift 8 (a * 2 ^ 8 + b) c lc
    ∙ omega arith

-- The decoder between two bytes: what it does with the next character, whose place is `v`.
pub feed_0 :
    (acc v : ℕ) (s : List ℕ)
    → v < 64
    → b64_feed acc 0 (b64_char v ∷ s) ≡ b64_feed (acc % 2 ^ 26 * 64 + v) 6 s
feed_0 acc v s less = rw (rev_b64-b64_char v less, push_sextet_sum acc v less) refl

pub feed_6 :
    (acc v : ℕ) (s : List ℕ)
    → v < 64
    → b64_feed acc 6 (b64_char v ∷ s)
      ≡ ((acc % 2 ^ 26 * 64 + v) / 2 ^ 4 % 256) ∷ b64_feed (acc % 2 ^ 26 * 64 + v) 4 s
feed_6 acc v s less = rw (rev_b64-b64_char v less, push_sextet_sum acc v less) refl

pub feed_4 :
    (acc v : ℕ) (s : List ℕ)
    → v < 64
    → b64_feed acc 4 (b64_char v ∷ s)
      ≡ ((acc % 2 ^ 26 * 64 + v) / 2 ^ 2 % 256) ∷ b64_feed (acc % 2 ^ 26 * 64 + v) 2 s
feed_4 acc v s less = rw (rev_b64-b64_char v less, push_sextet_sum acc v less) refl

pub feed_2 :
    (acc v : ℕ) (s : List ℕ)
    → v < 64
    → b64_feed acc 2 (b64_char v ∷ s)
      ≡ ((acc % 2 ^ 26 * 64 + v) % 256) ∷ b64_feed (acc % 2 ^ 26 * 64 + v) 0 s
feed_2 acc v s less =
    rw (rev_b64-b64_char v less, push_sextet_sum acc v less)
      (ap (λ b. b ∷ b64_feed (acc % 2 ^ 26 * 64 + v) 0 s) (omega arith))

byte_first :
    (w v : ℕ)
    → ((w % 2 ^ 26 * 64 + v / 2 ^ 18 % 64) % 2 ^ 26 * 64 + v / 2 ^ 12 % 64) / 2 ^ 4 % 256
      ≡ v / 2 ^ 16 % 256
byte_first w v = omega arith

byte_second :
    (w v : ℕ)
    → ((w % 2 ^ 26 * 64 + v / 2 ^ 12 % 64) % 2 ^ 26 * 64 + v / 2 ^ 6 % 64) / 2 ^ 2 % 256
      ≡ v / 2 ^ 8 % 256
byte_second w v = omega arith

byte_third :
    (w v : ℕ) → ((w % 2 ^ 26 * 64 + v / 2 ^ 6 % 64) % 2 ^ 26 * 64 + v / 2 ^ 0 % 64) % 256 ≡ v % 256
byte_third w v = omega arith

abbrev pushed : ℕ → ℕ → ℕ
pushed acc v = acc % 2 ^ 26 * 64 + v

-- Two, three and four characters of a word.
feed_two :
    (acc v : ℕ) (s : List ℕ)
    → b64_feed acc 0 (sextet v 18 ∷ sextet v 12 ∷ s)
      ≡ (v / 2 ^ 16 % 256) ∷ b64_feed (pushed (pushed acc (v / 2 ^ 18 % 64)) (v / 2 ^ 12 % 64)) 4 s
feed_two acc v s =
    feed_0 acc (v / 2 ^ 18 % 64) (sextet v 12 ∷ s) (omega arith)
    ∙ feed_6 (pushed acc (v / 2 ^ 18 % 64)) (v / 2 ^ 12 % 64) s (omega arith)
    ∙ ap (λ b. b ∷ b64_feed (pushed (pushed acc (v / 2 ^ 18 % 64)) (v / 2 ^ 12 % 64)) 4 s)
        (byte_first acc v)

feed_three :
    (acc v : ℕ) (s : List ℕ)
    → (next : ℕ) × (b64_feed acc 0 (sextet v 18 ∷ sextet v 12 ∷ sextet v 6 ∷ s)
        ≡ (v / 2 ^ 16 % 256) ∷ (v / 2 ^ 8 % 256) ∷ b64_feed (pushed next (v / 2 ^ 6 % 64)) 2 s)
feed_three acc v s =
    let third = pushed acc (v / 2 ^ 18 % 64) in
    (
      pushed third (v / 2 ^ 12 % 64),
      feed_two acc v (sextet v 6 ∷ s)
          ∙ ap (λ t. (v / 2 ^ 16 % 256) ∷ t)
              (feed_4 (pushed third (v / 2 ^ 12 % 64)) (v / 2 ^ 6 % 64) s (omega arith)
                ∙ ap
                    (λ b.
                      b ∷ b64_feed (pushed (pushed third (v / 2 ^ 12 % 64)) (v / 2 ^ 6 % 64)) 2 s)
                    (byte_second third v)),
    )

feed_four :
    (acc v : ℕ) (s : List ℕ)
    → (next : ℕ) × (b64_feed acc 0 (sextet v 18 ∷ sextet v 12 ∷ sextet v 6 ∷ sextet v 0 ∷ s)
        ≡ (v / 2 ^ 16 % 256) ∷ (v / 2 ^ 8 % 256) ∷ (v % 256) ∷ b64_feed next 0 s)
feed_four acc v s =
    let (before, read) = feed_three acc v (sextet v 0 ∷ s) in
    let last = pushed before (v / 2 ^ 6 % 64) in
    (
      pushed last (v / 2 ^ 0 % 64),
      read
          ∙ ap (λ t. (v / 2 ^ 16 % 256) ∷ (v / 2 ^ 8 % 256) ∷ t)
              (feed_2 last (v / 2 ^ 0 % 64) s (omega arith)
                ∙ ap (λ b. b ∷ b64_feed (pushed last (v / 2 ^ 0 % 64)) 0 s) (byte_third before v)),
    )

keep_or_pop-b64_char : (i : ℕ) → i < 64 → (s : List ℕ) → keep_or_pop (b64_char i) s ≡ b64_char i ∷ s
keep_or_pop-b64_char i less [] = rw (b64_char-plain i less) refl
keep_or_pop-b64_char i less (d ∷ s) = refl

-- A character of the table, by its place.
abbrev pub InTable : ℕ → Type 0
InTable c = (v : ℕ) × (v < 64) × (c ≡ b64_char v)

-- A character of the table is no padding.
pop_char : (v k : ℕ) (s : List ℕ) → pop_padding (sextet v k ∷ s) ≡ sextet v k ∷ pop_padding s
pop_char v k s = keep_or_pop-b64_char (v / 2 ^ k % 64) (omega arith) (pop_padding s)

pop_chars :
    (v : ℕ) (s : List ℕ)
    → pop_padding (sextet v 18 ∷ sextet v 12 ∷ s) ≡ sextet v 18 ∷ sextet v 12 ∷ pop_padding s
pop_chars v s = pop_char v 18 (sextet v 12 ∷ s) ∙ ap (◌∷◌ (sextet v 18)) (pop_char v 12 s)

pop_word :
    (v : ℕ) (s : List ℕ)
    → pop_padding (sextet v 18 ∷ sextet v 12 ∷ sextet v 6 ∷ sextet v 0 ∷ s)
      ≡ sextet v 18 ∷ sextet v 12 ∷ sextet v 6 ∷ sextet v 0 ∷ pop_padding s
pop_word v s =
    pop_chars v (sextet v 6 ∷ sextet v 0 ∷ s)
    ∙ ap (λ t. sextet v 18 ∷ sextet v 12 ∷ t)
        (pop_char v 6 (sextet v 0 ∷ s) ∙ ap (◌∷◌ (sextet v 6)) (pop_char v 0 s))

decode_one : (acc a : ℕ) → a < 256 → b64_feed acc 0 (pop_padding (b64_groups (a ∷ []))) ≡ a ∷ []
decode_one acc a la =
    ap (b64_feed acc 0) (pop_chars (word_of a 0 0) (b'=' ∷ b'=' ∷ []))
    ∙ feed_two acc (word_of a 0 0) []
    ∙ ap (λ x. x ∷ []) (omega (arith, word_of_sum a 0 0 (omega arith) (omega arith)))

decode_two :
    (acc a b : ℕ)
    → a < 256
    → b < 256
    → b64_feed acc 0 (pop_padding (b64_groups (a ∷ b ∷ []))) ≡ a ∷ b ∷ []
decode_two acc a b la lb =
    let v = word_of a b 0 in
    let sum = word_of_sum a b 0 lb (omega arith) in
    let (next, read) = feed_three acc v [] in
    ap (b64_feed acc 0) (
      pop_chars v (sextet v 6 ∷ b'=' ∷ [])
      ∙ ap (λ s. sextet v 18 ∷ sextet v 12 ∷ s) (pop_char v 6 (b'=' ∷ [])))
    ∙ read
    ∙ ap₂ (λ x y. x ∷ y ∷ []) (omega (arith, sum)) (omega (arith, sum))

decode_three :
    (acc a b c : ℕ) (more : List ℕ)
    → a < 256
    → b < 256
    → c < 256
    → (next : ℕ) × (b64_feed acc 0 (pop_padding (b64_groups (a ∷ b ∷ c ∷ more)))
        ≡ a ∷ b ∷ c ∷ b64_feed next 0 (pop_padding (b64_groups more)))
decode_three acc a b c more la lb lc =
    let v = word_of a b c in
    let rest = pop_padding (b64_groups more) in
    let sum = word_of_sum a b c lb lc in
    let (next, read) = feed_four acc v rest in
    (
      next,
      ap (b64_feed acc 0) (pop_word v (b64_groups more))
          ∙ read
          ∙ ap₂ (λ x y. x ∷ y ∷ (v % 256) ∷ b64_feed next 0 rest) (omega (arith, sum))
              (omega (arith, sum))
          ∙ ap (λ z. a ∷ b ∷ z ∷ b64_feed next 0 rest) (omega (arith, sum)),
    )

decode_groups :
    (acc : ℕ) (bytes : List ℕ)
    → All (λ b. b < 256) bytes
    → b64_feed acc 0 (pop_padding (b64_groups bytes)) ≡ bytes
decode_groups acc [] h = refl
decode_groups acc (a ∷ []) h = decode_one acc a h.0
decode_groups acc (a ∷ b ∷ []) h = decode_two acc a b h.0 h.1.0
decode_groups acc (a ∷ b ∷ c ∷ more) h =
    let (next, read) = decode_three acc a b c more h.0 h.1.0 h.1.1.0 in
    read ∙ ap (λ s. a ∷ b ∷ c ∷ s) (decode_groups next more h.1.1.1)

InTable-sextet : (v k : ℕ) → InTable (sextet v k)
InTable-sextet v k = (v / 2 ^ k % 64, omega arith, refl)

-- Without the padding there are only characters of the table.
pub b64_groups-InTable : (bytes : List ℕ) → All InTable (pop_padding (b64_groups bytes))
b64_groups-InTable [] = tt
b64_groups-InTable (a ∷ []) =
    subst (All InTable) (sym (pop_chars (word_of a 0 0) (b'=' ∷ b'=' ∷ [])))
      (InTable-sextet _ 18, (InTable-sextet _ 12, tt))
b64_groups-InTable (a ∷ b ∷ []) =
    let v = word_of a b 0 in
    subst (All InTable)
      (sym (
        pop_chars v (sextet v 6 ∷ b'=' ∷ [])
        ∙ ap (λ s. sextet v 18 ∷ sextet v 12 ∷ s) (pop_char v 6 (b'=' ∷ []))))
      (InTable-sextet _ 18, (InTable-sextet _ 12, (InTable-sextet _ 6, tt)))
b64_groups-InTable (a ∷ b ∷ c ∷ more) =
    let v = word_of a b c in
    subst (All InTable) (sym (pop_word v (b64_groups more))) (
      InTable-sextet _ 18,
      (InTable-sextet _ 12, (InTable-sextet _ 6, (InTable-sextet _ 0, b64_groups-InTable more))),
    )

-- `b64dec` gives back the bytes that `b64enc` encodes, without its padding.
pub b64dec-b64enc : (bytes : List ℕ) → All (λ b. b < 256) bytes → b64dec (b64enc bytes) ≡ bytes
unfolding b64dec b64enc
b64dec-b64enc bytes h = decode_groups 0 bytes h
