-- ===== src/Escape/Plain.antt =====
-- `strip_ansi_escapes`: the plain text of a terminal's output.
use bridge_sessions.Base.{
  ℕ, zero, suc, ◌≡◌, refl, ap, ◌∙◌, Bool, true, false, not, ◌&&◌, Option, none, some, List, [], ◌∷◌,
  ◌++◌, All, ◌≤◌, ◌⊎◌, ◌==◌, inl, inr, Bool-cases, arith, ltb, leb, length, if◌then◌else◌,
}
use bridge_sessions.Escape.Osc52.{esc, find_osc_end}

-- The bytes from `@` to `~`.
abbrev pub is_final : ℕ → Bool
is_final c = leb 0x40 c && leb c 0x7e

-- How many bytes of a CSI sequence follow its `[`: all there are when it does not end.
abbrev pub csi_size : List ℕ → ℕ
csi_size [] = 0
csi_size (c ∷ s) = if is_final c then 1 else suc (csi_size s)

-- The same of an OSC sequence behind its `]`.
abbrev pub whole_or_all : ℕ → Option (List ℕ × ℕ) → ℕ
whole_or_all n none = n
whole_or_all n (some (body, size)) = size

-- How many bytes of an escape sequence follow the escape character; `next` is the first of them.
abbrev pub escape_size : ℕ → List ℕ → ℕ
escape_size next s =
    if next == b'['
    then suc (csi_size s)
    else (if next == b']' then suc (whole_or_all (length s) (find_osc_end s)) else 1)

-- A control character other than line feed, carriage return and tab.
abbrev pub is_dropped : ℕ → Bool
is_dropped c = ltb c 0x20 && not (c == b'\n') && not (c == b'\r') && not (c == b'\t')

abbrev pub keep_char : ℕ → List ℕ → List ℕ
keep_char c out = if is_dropped c then out else c ∷ out

-- The loop, `skip` bytes in front of its next position. A last escape character is dropped as a control
-- character.
abbrev pub strip_from : ℕ → List ℕ → List ℕ
strip_from skip [] = []
strip_from (suc skip) (c ∷ s) = strip_from skip s
strip_from zero (c ∷ []) = keep_char c []
strip_from zero (c ∷ next ∷ s) =
    let passed = strip_from (escape_size next s) (next ∷ s) in
    let kept = strip_from 0 (next ∷ s) in if c == esc then passed else keep_char c kept

unfoldable pub strip_ansi_escapes : List ℕ → List ℕ
strip_ansi_escapes input = strip_from 0 input

-- No byte below 32 but line feed (10), carriage return (13) and tab (9).
abbrev pub IsPlainText : List ℕ → Type 0
IsPlainText s = All (λ c. (32 ≤ c) ⊎ ((c ≡ 10) ⊎ ((c ≡ 13) ⊎ (c ≡ 9)))) s

plain_of_kept : (c : ℕ) → is_dropped c ≡ false → (32 ≤ c) ⊎ ((c ≡ 10) ⊎ ((c ≡ 13) ⊎ (c ≡ 9)))
plain_of_kept c e = ground arith

kept_of_plain : (c : ℕ) → (32 ≤ c) ⊎ ((c ≡ 10) ⊎ ((c ≡ 13) ⊎ (c ≡ 9))) → is_dropped c ≡ false
kept_of_plain c h = ground arith

keep_char-IsPlainText : (c : ℕ) (out : List ℕ) → IsPlainText out → IsPlainText (keep_char c out)
keep_char-IsPlainText c out h = elim (Bool-cases (is_dropped c)) [
  | inl gone ↦ rw gone h
  | inr kept ↦ rw kept (plain_of_kept c kept, h)
]

strip_from-IsPlainText : (skip : ℕ) (s : List ℕ) → IsPlainText (strip_from skip s)
strip_from-IsPlainText skip [] = tt
strip_from-IsPlainText (suc skip) (c ∷ s) = strip_from-IsPlainText skip s
strip_from-IsPlainText zero (c ∷ []) = keep_char-IsPlainText c [] tt
strip_from-IsPlainText zero (c ∷ next ∷ s) = elim (Bool-cases (c == esc)) [
  | inl start ↦ rw start (strip_from-IsPlainText (escape_size next s) (next ∷ s))
  | inr other ↦ rw other (keep_char-IsPlainText c _ (strip_from-IsPlainText 0 (next ∷ s)))
]

plain_not_esc : (c : ℕ) → is_dropped c ≡ false → (c == esc) ≡ false
plain_not_esc c h = ground arith

strip_from-plain : (s : List ℕ) → IsPlainText s → strip_from 0 s ≡ s
strip_from-plain [] h = refl
strip_from-plain (c ∷ []) h = rw (kept_of_plain c h.0) refl
strip_from-plain (c ∷ next ∷ s) h =
    let kept = kept_of_plain c h.0 in
    rw (plain_not_esc c kept, kept) (ap (◌∷◌ c) (strip_from-plain (next ∷ s) h.1))

csi_size-skip :
    (params s : List ℕ) (final : ℕ)
    → All (λ c. is_final c ≡ false) params
    → is_final final ≡ true
    → strip_from (csi_size (params ++ (final ∷ s))) (params ++ (final ∷ s)) ≡ strip_from 0 s
csi_size-skip [] s final h f = rw f refl
csi_size-skip (c ∷ params) s final h f = rw h.0 (csi_size-skip params s final h.1 f)

strip_from-kept :
    (c : ℕ) (s : List ℕ) → is_dropped c ≡ false → strip_from 0 (c ∷ s) ≡ c ∷ strip_from 0 s
strip_from-kept c [] h = rw h refl
strip_from-kept c (next ∷ s) h = rw (plain_not_esc c h, h) refl

strip_from-text :
    (text s : List ℕ) → IsPlainText text → strip_from 0 (text ++ s) ≡ text ++ strip_from 0 s
strip_from-text [] s h = refl
strip_from-text (c ∷ text) s h =
    strip_from-kept c (text ++ s) (kept_of_plain c h.0) ∙ ap (◌∷◌ c) (strip_from-text text s h.1)

-- What `strip_ansi_escapes` leaves of any output holds no byte below 32 but line feed, carriage return
-- and tab; such text in front of any output stays as it is, and a second time changes nothing.
pub strip_ansi_escapes-IsPlainText :
    (text input : List ℕ)
    → IsPlainText text
    → IsPlainText (strip_ansi_escapes input)
      × (strip_ansi_escapes (text ++ input) ≡ text ++ strip_ansi_escapes input)
      × (strip_ansi_escapes (strip_ansi_escapes input) ≡ strip_ansi_escapes input)
unfolding strip_ansi_escapes
strip_ansi_escapes-IsPlainText text input h =
    let plain = strip_from-IsPlainText 0 input in
    (plain, strip_from-text text input h, strip_from-plain (strip_from 0 input) plain)

-- Plain text with a CSI sequence in it loses the sequence, to its final byte, and nothing else.
pub strip_ansi_escapes-csi :
    (text params s : List ℕ) (final : ℕ)
    → IsPlainText text
    → All (λ c. is_final c ≡ false) params
    → is_final final ≡ true
    → strip_ansi_escapes (text ++ (esc ∷ b'[' ∷ (params ++ (final ∷ s))))
      ≡ text ++ strip_ansi_escapes s
unfolding strip_ansi_escapes
strip_ansi_escapes-csi text params s final h p f =
    strip_from-text text _ h ∙ ap (λ t. text ++ t) (csi_size-skip params s final p f)
