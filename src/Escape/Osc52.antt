-- ===== src/Escape/Osc52.antt =====
-- `scan_osc52`: clipboard sequences are taken out of the stream.
use bridge_sessions.Base.{
  ℕ, zero, suc, ◌+◌, ◌-◌, ◌*◌, ◌/◌, ◌%◌, ◌^◌, ◌&&◌, Option, none, some, List, [], ◌∷◌, codes, ◌==◌,
  starts_with, bit_and, bit_or, drop, leb, if◌then◌else◌,
}
use bridge_sessions.Base64.{place_of}

abbrev pub esc : ℕ
esc = 0x1b

abbrev pub bel : ℕ
bel = 7

-- The text behind `n` more bytes, of which the first is `c`.
abbrev pub longer : ℕ → Option (List ℕ × ℕ) → Option (List ℕ × ℕ)
longer c none = none
longer c (some (body, n)) = some (c ∷ body, suc n)

-- `find_osc_end`: what is in front of the terminator, and how many bytes there are with it.
abbrev pub find_osc_end : List ℕ → Option (List ℕ × ℕ)
find_osc_end [] = none
find_osc_end (c ∷ s) =
    let rest = find_osc_end s in
    if c == bel
    then some ([], 1)
    else (if (c == esc) && starts_with (b'\\' ∷ []) s then some ([], 2) else longer c rest)

-- One character of `decode_osc52_body`, whose place in the table is given; `next` is the rest of the
-- loop.
abbrev pub osc52_place : ℕ → ℕ → Option ℕ → (ℕ → ℕ → List ℕ) → List ℕ
osc52_place acc bits none next = next acc bits
osc52_place acc bits (some v) next =
    let word = bit_or (acc * 2 ^ 6) v in
    let left = bits + 6 - 8 in
    if leb 8 (bits + 6)
    then (word / 2 ^ left % 256) ∷ next (bit_and word (2 ^ left - 1)) left
    else next word (bits + 6)

abbrev pub osc52_feed : ℕ → ℕ → List ℕ → List ℕ
osc52_feed acc bits [] = []
osc52_feed acc bits (c ∷ s) =
    if c == b'=' then [] else osc52_place acc bits (place_of c) (λ a b. osc52_feed a b s)

abbrev pub behind_semicolon : List ℕ → Option (List ℕ)
behind_semicolon [] = none
behind_semicolon (c ∷ s) = if c == b';' then some s else behind_semicolon s

abbrev pub decode_b64 : Option (List ℕ) → Option (List ℕ)
decode_b64 none = none
decode_b64 (some []) = none
decode_b64 (some (c ∷ b64)) = some (osc52_feed 0 0 (c ∷ b64))

unfoldable pub decode_osc52_body : List ℕ → Option (List ℕ)
decode_osc52_body body = decode_b64 (behind_semicolon body)

pub record Osc52Result : Type 0 where
  pub cleaned_text : List ℕ
  pub clipboard_text : Option (List ℕ)

-- `if (decoded && !decoded->empty()) result.clipboard_text = *decoded;`
abbrev pub set_clipboard : Option (List ℕ) → Option (List ℕ) → Option (List ℕ)
set_clipboard none clipboard = clipboard
set_clipboard (some []) clipboard = clipboard
set_clipboard (some (c ∷ text)) clipboard = some (c ∷ text)

abbrev pub push_text : ℕ → Osc52Result → Osc52Result
push_text c r = record r { cleaned_text = c ∷ r.cleaned_text }

-- `ESC ] 5 2 ;`
abbrev pub osc52_intro : List ℕ
osc52_intro = esc ∷ codes "]52;"

-- The body and the size of a whole clipboard sequence at the start of `s`.
abbrev pub osc52_at : List ℕ → Option (List ℕ × ℕ)
osc52_at s = if starts_with osc52_intro s then find_osc_end (drop 5 s) else none

-- One round of `scan_osc52`, by the sequence that starts there; `next` is the rest of the loop, behind
-- a number of bytes that it passes over.
abbrev pub scan_found :
    Option (List ℕ × ℕ) → Option (List ℕ) → ℕ → (ℕ → Option (List ℕ) → Osc52Result) → Osc52Result
scan_found none clipboard c next = push_text c (next 0 clipboard)
scan_found (some (body, n)) clipboard c next =
    next (suc (suc (suc (suc n)))) (set_clipboard (decode_osc52_body body) clipboard)

abbrev pub scan_from : ℕ → Option (List ℕ) → List ℕ → Osc52Result
scan_from skip clipboard [] = record { cleaned_text = []; clipboard_text = clipboard }
scan_from (suc skip) clipboard (c ∷ s) = scan_from skip clipboard s
scan_from zero clipboard (c ∷ s) =
    scan_found (osc52_at (c ∷ s)) clipboard c (λ skip found. scan_from skip found s)

unfoldable pub scan_osc52 : List ℕ → Osc52Result
scan_osc52 input = scan_from 0 none input
