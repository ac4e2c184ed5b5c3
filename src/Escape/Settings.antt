-- ===== src/Escape/Settings.antt =====
-- Settings of terminal modes in what is replayed: `strip_mode_sequences` of bs-osc52.h.
use bridge_sessions.Base.{
  ℕ, ◌≡◌, ◌≢◌, ◌≤◌, refl, ap, subst, ◌∙◌, inl, inr, Bool, true, false, ◌||◌, Bool-cases, List, [],
  ◌∷◌, ◌++◌, All, ◌==◌, ==_iff, append-nil, arith,
}
use bridge_sessions.Base.Decimal.{decimal}
use bridge_sessions.Escape.Clipboard.{IsText}
use bridge_sessions.Escape.Modes.{
  is_param, strips_token, split_params, any_strips, strips_params, private_intro,
  strip_mode_sequences, IsSetting, modes-text, modes-set,
}

or_true : (b : Bool) → (b || true) ≡ true
or_true true = refl
or_true false = refl

-- What `DECSET` numbers turn on in a terminal that no replay may turn on or off.
pub data IsTerminalMode : ℕ → Type 0 where
  cursor_keys : IsTerminalMode 1
  origin : IsTerminalMode 6
  wraparound : IsTerminalMode 7
  cursor_shown : IsTerminalMode 25
  alternate_screen : IsTerminalMode 47
  mouse_clicks : IsTerminalMode 1000
  mouse_drags : IsTerminalMode 1002
  mouse_moves : IsTerminalMode 1003
  focus_events : IsTerminalMode 1004
  mouse_utf8 : IsTerminalMode 1005
  mouse_sgr : IsTerminalMode 1006
  mouse_urxvt : IsTerminalMode 1015
  mouse_pixels : IsTerminalMode 1016
  alternate_buffer : IsTerminalMode 1047
  alternate_saved : IsTerminalMode 1049
  bracketed_paste : IsTerminalMode 2004

IsTerminalMode-strips : (m : ℕ) → IsTerminalMode m → strips_token (decimal m) ≡ true
unfolding decimal
IsTerminalMode-strips m cursor_keys = refl
IsTerminalMode-strips m origin = refl
IsTerminalMode-strips m wraparound = refl
IsTerminalMode-strips m cursor_shown = refl
IsTerminalMode-strips m alternate_screen = refl
IsTerminalMode-strips m mouse_clicks = refl
IsTerminalMode-strips m mouse_drags = refl
IsTerminalMode-strips m mouse_moves = refl
IsTerminalMode-strips m focus_events = refl
IsTerminalMode-strips m mouse_utf8 = refl
IsTerminalMode-strips m mouse_sgr = refl
IsTerminalMode-strips m mouse_urxvt = refl
IsTerminalMode-strips m mouse_pixels = refl
IsTerminalMode-strips m alternate_buffer = refl
IsTerminalMode-strips m alternate_saved = refl
IsTerminalMode-strips m bracketed_paste = refl

-- One of the parameters is the number of such a mode.
pub data HasMode : List (List ℕ) → Type 0 where
  here : (m : ℕ) (more : List (List ℕ)) → IsTerminalMode m → HasMode (decimal m ∷ more)
  there : (tok : List ℕ) (more : List (List ℕ)) → HasMode more → HasMode (tok ∷ more)

-- Parameters with semicolons between them.
abbrev pub join : List ℕ → List (List ℕ) → List ℕ
join tok [] = tok
join tok (next ∷ toks) = tok ++ (b';' ∷ join next toks)

-- The bytes of one parameter: from `0` to `?`, and no semicolon.
abbrev pub IsParam : List ℕ → Type 0
IsParam tok = All (λ c. (0x30 ≤ c) × (c ≤ 0x3f) × (c ≢ b';')) tok

param_byte : (c : ℕ) → 0x30 ≤ c → c ≤ 0x3f → is_param c ≡ true
param_byte c low high = ground arith

not_semicolon : (c : ℕ) → c ≢ b';' → (c == b';') ≡ false
not_semicolon c h = elim (Bool-cases (c == b';')) [
  | inl same ↦ absurd (h (omega (arith, (==_iff c b';').0 same)))
  | inr other ↦ other
]

is_param-tok :
    (tok s : List ℕ)
    → IsParam tok
    → All (λ c. is_param c ≡ true) s
    → All (λ c. is_param c ≡ true) (tok ++ s)
is_param-tok [] s h more = more
is_param-tok (c ∷ tok) s h more = (param_byte c h.0.0 h.0.1, is_param-tok tok s h.1 more)

is_param-join :
    (tok : List ℕ) (toks : List (List ℕ))
    → All IsParam (tok ∷ toks)
    → All (λ c. is_param c ≡ true) (join tok toks)
is_param-join tok [] h =
    subst (All (λ c. is_param c ≡ true)) (append-nil tok) (is_param-tok tok [] h.0 tt)
is_param-join tok (next ∷ toks) h =
    is_param-tok tok (b';' ∷ join next toks) h.0 (refl, is_param-join next toks h.1)

split-last : (tok : List ℕ) → IsParam tok → split_params tok ≡ (tok, [])
split-last [] h = refl
split-last (c ∷ tok) h = rw (not_semicolon c h.0.2, split-last tok h.1) refl

split-tok :
    (tok s : List ℕ)
    → IsParam tok
    → split_params (tok ++ (b';' ∷ s)) ≡ (tok, (split_params s).0 ∷ (split_params s).1)
split-tok [] s h = refl
split-tok (c ∷ tok) s h = rw (not_semicolon c h.0.2, split-tok tok s h.1) refl

split-join :
    (tok : List ℕ) (toks : List (List ℕ))
    → All IsParam (tok ∷ toks)
    → split_params (join tok toks) ≡ (tok, toks)
split-join tok [] h = split-last tok h.0
split-join tok (next ∷ toks) h =
    split-tok tok (join next toks) h.0
    ∙ ap (λ (r : List ℕ × List (List ℕ)). (tok, r.0 ∷ r.1)) (split-join next toks h.1)

any_strips-HasMode : (toks : List (List ℕ)) → HasMode toks → any_strips toks ≡ true
any_strips-HasMode toks (here m more is_mode) =
    ap (λ b. b || any_strips more) (IsTerminalMode-strips m is_mode)
any_strips-HasMode toks (there tok more h) =
    ap (λ b. strips_token tok || b) (any_strips-HasMode more h) ∙ or_true (strips_token tok)

-- A setting with the number of a terminal mode among its parameters, in any place, is not replayed, and the
-- text in front of it stays.
pub strip_mode_sequences-set :
    (text tok : List ℕ) (toks : List (List ℕ)) (s : List ℕ) (final : ℕ)
    → IsText text
    → All IsParam (tok ∷ toks)
    → HasMode (tok ∷ toks)
    → IsSetting final
    → strip_mode_sequences (text ++ (private_intro ++ (join tok toks ++ (final ∷ s))))
      ≡ text ++ strip_mode_sequences s
unfolding strip_mode_sequences
strip_mode_sequences-set text tok toks s final plain h m f =
    let strips : strips_params (join tok toks) ≡ true =
      ap (λ (r : List ℕ × List (List ℕ)). any_strips (r.0 ∷ r.1)) (split-join tok toks h)
      ∙ any_strips-HasMode (tok ∷ toks) m in
    modes-text text _ plain
    ∙ ap (λ t. text ++ t) (modes-set (join tok toks) s final (is_param-join tok toks h) strips f)
