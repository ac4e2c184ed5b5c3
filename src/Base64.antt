-- ===== src/Base64.antt =====
-- Base64 as the mesh's line protocol uses it: `b64enc` and `b64dec` of bs-mesh-support.h.
pub mod Table
pub mod RoundTrip
use bridge_sessions.Base.{
  ℕ, ◌+◌, ◌-◌, ◌*◌, ◌/◌, ◌%◌, ◌^◌, Bool, true, false, ◌&&◌, Option, none, some, List, [], ◌∷◌,
  codes, ◌==◌, bit_or, get_or, leb, if◌then◌else◌,
}

abbrev pub k_b64 : List ℕ
k_b64 = codes "ABCDEFGHIJKLMNOPQRSTUVWXYZabcdefghijklmnopqrstuvwxyz0123456789+/"

unfoldable pub b64_char : ℕ → ℕ
b64_char i = get_or k_b64 i 0

-- The bits of `v` from place `k` on, six of them: `kB64[(v >> k) & 63]`
abbrev pub sextet : ℕ → ℕ → ℕ
sextet v k = b64_char (v / 2 ^ k % 64)

-- Three bytes, of which the missing ones count as 0.
abbrev pub word_of : ℕ → ℕ → ℕ → ℕ
word_of a b c = bit_or (bit_or (a * 2 ^ 16) (b * 2 ^ 8)) c

-- The loop of `b64enc`
abbrev pub b64_groups : List ℕ → List ℕ
b64_groups [] = []
b64_groups (a ∷ []) = sextet (word_of a 0 0) 18 ∷ sextet (word_of a 0 0) 12 ∷ b'=' ∷ b'=' ∷ []
b64_groups (a ∷ b ∷ []) =
    sextet (word_of a b 0) 18 ∷ sextet (word_of a b 0) 12 ∷ sextet (word_of a b 0) 6 ∷ b'=' ∷ []
b64_groups (a ∷ b ∷ c ∷ data_left) =
    sextet (word_of a b c) 18
    ∷ sextet (word_of a b c) 12
    ∷ sextet (word_of a b c) 6
    ∷ sextet (word_of a b c) 0
    ∷ b64_groups data_left

-- `while (!out.empty() && out.back() == '=') out.pop_back();`
abbrev pub keep_or_pop : ℕ → List ℕ → List ℕ
keep_or_pop c [] = if c == b'=' then [] else c ∷ []
keep_or_pop c (d ∷ s) = c ∷ d ∷ s

abbrev pub pop_padding : List ℕ → List ℕ
pop_padding [] = []
pop_padding (c ∷ s) = keep_or_pop c (pop_padding s)

unfoldable pub b64enc : List ℕ → List ℕ
b64enc bytes = pop_padding (b64_groups bytes)

-- Where a character stands in the table, counted from `i`.
abbrev pub index_from : ℕ → ℕ → List ℕ → Option ℕ
index_from i c [] = none
index_from i c (d ∷ table) = if c == d then some i else index_from (i + 1) c table

unfoldable pub place_of : ℕ → Option ℕ
place_of c = index_from 0 c k_b64

-- The table `t` of `b64dec`: 0 for every other character.
abbrev pub place : Option ℕ → ℕ
place none = 0
place (some i) = i

abbrev pub rev_b64 : ℕ → ℕ
rev_b64 c = place (place_of c)

-- `(acc << 6) | v` of 32 bits
unfoldable pub push_sextet : ℕ → ℕ → ℕ
push_sextet acc v = bit_or (acc * 2 ^ 6 % 2 ^ 32) v

-- The loop of `b64dec`, with `acc` and `bits`.
abbrev pub b64_feed : ℕ → ℕ → List ℕ → List ℕ
b64_feed acc bits [] = []
b64_feed acc bits (c ∷ s) =
    let word = push_sextet acc (rev_b64 c) in
    let full = b64_feed word (bits + 6 - 8) s in
    let short = b64_feed word (bits + 6) s in
    if leb 8 (bits + 6) then (word / 2 ^ (bits + 6 - 8) % 256) ∷ full else short

unfoldable pub b64dec : List ℕ → List ℕ
b64dec s = b64_feed 0 0 s
