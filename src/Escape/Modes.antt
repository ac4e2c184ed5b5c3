-- ===== src/Escape/Modes.antt =====
-- `strip_mode_sequences` of bs-osc52.h, which filters what is replayed to a terminal.
use bridge_sessions.Base.{
  ℕ, zero, suc, ◌+◌, ◌-◌, ◌*◌, ◌%◌, ◌^◌, ◌≡◌, refl, sym, ap, ap₂, append_assoc, length-append, ◌∙◌,
  Bool, true, false, ◌&&◌, ◌||◌, Option, none, some, List, [], ◌∷◌, ◌++◌, All, codes, ◌==◌,
  starts_with, arith, leb, drop, length, if◌then◌else◌,
}
use bridge_sessions.Escape.Osc52.{esc}
use bridge_sessions.Escape.Clipboard.{IsText}
use bridge_sessions.Version.Parse.{is_digit}
use bridge_sessions.Escape.Plain.{is_final}

-- The bytes from `0` to `?`.
abbrev pub is_param : ℕ → Bool
is_param c = leb 0x30 c && leb c 0x3f

-- The modes that are not replayed.
abbrev pub stripped_modes : List ℕ
stripped_modes =
    1 ∷ 6 ∷ 7 ∷ 25 ∷ 47 ∷ 1000 ∷ 1002 ∷ 1003 ∷ 1004 ∷ 1005 ∷ 1006 ∷ 1015 ∷ 1016 ∷ 1047 ∷ 1049 ∷ 2004
    ∷ []

abbrev pub member : ℕ → List ℕ → Bool
member n [] = false
member n (m ∷ ms) = (n == m) || member n ms

-- One token: `val` and `num`. The `int` wraps around, as compilers have it.
abbrev pub is_mode : ℕ → List ℕ → Bool
is_mode val [] = member val stripped_modes
is_mode val (ch ∷ tok) = is_digit ch && is_mode ((val * 10 + (ch - b'0')) % 2 ^ 32) tok

abbrev pub strips_token : List ℕ → Bool
strips_token [] = false
strips_token (ch ∷ tok) = is_mode 0 (ch ∷ tok)

-- The tokens between semicolons: the first one, and the others.
abbrev pub split_params : List ℕ → List ℕ × List (List ℕ)
split_params [] = ([], [])
split_params (c ∷ params) =
    let rest = split_params params in
    if c == b';' then ([], rest.0 ∷ rest.1) else (c ∷ rest.0, rest.1)

abbrev pub any_strips : List (List ℕ) → Bool
any_strips [] = false
any_strips (tok ∷ toks) = strips_token tok || any_strips toks

abbrev pub strips_params : List ℕ → Bool
strips_params params = let toks = split_params params in any_strips (toks.0 ∷ toks.1)

-- The parameter bytes, and what is behind them.
abbrev pub take_params : List ℕ → List ℕ × List ℕ
take_params [] = ([], [])
take_params (c ∷ s) =
    let rest = take_params s in if is_param c then (c ∷ rest.0, rest.1) else ([], c ∷ s)

-- The final byte, and how many bytes there are with it.
abbrev pub find_final : List ℕ → Option (ℕ × ℕ)
find_final [] = none
find_final (c ∷ s) =
    if is_final c
    then some (c, 1)
    else elim (find_final s) [ none ↦ none | some found ↦ some (found.0, suc found.1) ]

-- `ESC [ ?`
abbrev pub private_intro : List ℕ
private_intro = esc ∷ codes "[?"

-- The size of a stripped sequence behind its introducer, by its parameters and its final byte.
abbrev pub setting_size : List ℕ → Option (ℕ × ℕ) → Option ℕ
setting_size params none = none
setting_size params (some (final, n)) =
    if ((final == b'h') || (final == b'l')) && strips_params params
    then some (length params + n)
    else none

abbrev pub mode_at : List ℕ → Option ℕ
mode_at s =
    if starts_with private_intro s
    then (let split = take_params (drop 3 s) in setting_size split.0 (find_final split.1))
    else none

-- One round, by the stripped sequence that starts there; `next` is the rest of the loop.
abbrev pub mode_found : Option ℕ → ℕ → (ℕ → List ℕ) → List ℕ
mode_found none c next = c ∷ next 0
mode_found (some n) c next = next (suc (suc n))

abbrev pub modes_from : ℕ → List ℕ → List ℕ
modes_from skip [] = []
modes_from (suc skip) (c ∷ s) = modes_from skip s
modes_from zero (c ∷ s) = mode_found (mode_at (c ∷ s)) c (λ skip. modes_from skip s)

unfoldable pub strip_mode_sequences : List ℕ → List ℕ
strip_mode_sequences input = modes_from 0 input

-- Text in which no private sequence starts.
abbrev pub HasNoPrivate : List ℕ → Type 0
HasNoPrivate [] = Unit
HasNoPrivate (c ∷ s) = (starts_with private_intro (c ∷ s) ≡ false) × HasNoPrivate s

no_mode : (c : ℕ) (s : List ℕ) → starts_with private_intro (c ∷ s) ≡ false → mode_at (c ∷ s) ≡ none
no_mode c s h = rw h refl

-- Output without private sequences, with its colours and cursor moves, is replayed as it is.
pub strip_mode_sequences-kept :
    (input : List ℕ) → HasNoPrivate input → strip_mode_sequences input ≡ input
unfolding strip_mode_sequences
strip_mode_sequences-kept [] h = refl
strip_mode_sequences-kept (c ∷ s) h =
    rw (no_mode c s h.0) (ap (◌∷◌ c) (strip_mode_sequences-kept s h.1))

take_params-final :
    (params s : List ℕ) (final : ℕ)
    → All (λ c. is_param c ≡ true) params
    → is_param final ≡ false
    → take_params (params ++ (final ∷ s)) ≡ (params, final ∷ s)
take_params-final [] s final h f = rw f refl
take_params-final (c ∷ params) s final h f = rw (h.0, take_params-final params s final h.1 f) refl

modes-skip : (front s : List ℕ) → modes_from (length front) (front ++ s) ≡ modes_from 0 s
modes-skip [] s = refl
modes-skip (c ∷ front) s = modes-skip front s

text_start : (c : ℕ) (s : List ℕ) → (c == esc) ≡ false → starts_with private_intro (c ∷ s) ≡ false
text_start c s h = ground arith

pub modes-text : (text s : List ℕ) → IsText text → modes_from 0 (text ++ s) ≡ text ++ modes_from 0 s
modes-text [] s h = refl
modes-text (c ∷ text) s h =
    rw (no_mode c (text ++ s) (text_start c (text ++ s) h.0)) (ap (◌∷◌ c) (modes-text text s h.1))

-- The two bytes that end a setting.
pub data IsSetting : ℕ → Type 0 where
  sets : IsSetting b'h'
  resets : IsSetting b'l'

find-setting : (s : List ℕ) (final : ℕ) → IsSetting final → find_final (final ∷ s) ≡ some (final, 1)
find-setting s final sets = refl
find-setting s final resets = refl

setting_param : (final : ℕ) → IsSetting final → is_param final ≡ false
setting_param final sets = refl
setting_param final resets = refl

setting_test : (final : ℕ) → IsSetting final → ((final == b'h') || (final == b'l')) ≡ true
setting_test final sets = refl
setting_test final resets = refl

mode_at-set :
    (params s : List ℕ) (final : ℕ)
    → All (λ c. is_param c ≡ true) params
    → strips_params params ≡ true
    → IsSetting final
    → mode_at (private_intro ++ (params ++ (final ∷ s))) ≡ some (length params + 1)
mode_at-set params s final h m f =
    ap (λ (split : List ℕ × List ℕ). setting_size split.0 (find_final split.1))
      (take_params-final params s final h (setting_param final f))
    ∙ ap (setting_size params) (find-setting s final f)
    ∙ ap₂ (λ a b. if a && b then some (length params + 1) else none) (setting_test final f) m

-- A whole setting is passed over.
pub modes-set :
    (params s : List ℕ) (final : ℕ)
    → All (λ c. is_param c ≡ true) params
    → strips_params params ≡ true
    → IsSetting final
    → modes_from 0 (private_intro ++ (params ++ (final ∷ s))) ≡ modes_from 0 s
modes-set params s final h m f =
    ap (λ o. mode_found o esc (λ skip. modes_from skip (codes "[?" ++ (params ++ (final ∷ s)))))
      (mode_at-set params s final h m f)
    ∙ ap₂ modes_from (sym (length-append params (final ∷ [])))
        (sym (append_assoc params (final ∷ []) s))
    ∙ modes-skip (params ++ (final ∷ [])) s

text_all : (text : List ℕ) → IsText text → modes_from 0 text ≡ text
text_all [] h = refl
text_all (c ∷ text) h = rw (no_mode c text (text_start c text h.0)) (ap (◌∷◌ c) (text_all text h.1))

-- A setting inside the introducer of another: what is left when the inner one is taken out is a whole
-- sequence again.
pub strip_mode_sequences-nested :
    (params outer : List ℕ) (final : ℕ)
    → All (λ c. is_param c ≡ true) params
    → strips_params params ≡ true
    → IsSetting final
    → IsText outer
    → strip_mode_sequences (esc ∷ b'[' ∷ (private_intro ++ (params ++ (final ∷ b'?' ∷ outer))))
      ≡ private_intro ++ outer
unfolding strip_mode_sequences
strip_mode_sequences-nested params outer final h m f plain =
    ap (λ t. esc ∷ b'[' ∷ t)
      (modes-set params (b'?' ∷ outer) final h m f ∙ text_all (b'?' ∷ outer) (refl, plain))
