-- ===== src/Tests/Escapes.antt =====
-- Escape sequences and base64 at concrete texts.
use bridge_sessions.Base.{
  inl, inr, ◌≤◌, ◌≢◌, arith, ℕ, ◌≡◌, refl, some, [], ◌∷◌, ◌++◌, codes, arith,
}
use bridge_sessions.Base64.{b64enc, b64dec, b64_char, place_of}
use bridge_sessions.Base64.RoundTrip.{b64dec-b64enc}
use bridge_sessions.Escape.Osc52.{esc, bel, osc52_intro, decode_osc52_body, scan_osc52}
use bridge_sessions.Escape.Clipboard.{
  Segment, IsSegment, ends_bel, scan_osc52-stream_of, scan_osc52-nested, osc52_of,
}
use bridge_sessions.Escape.Body.{decode_osc52_body-b64enc}
use bridge_sessions.Escape.Plain.{strip_ansi_escapes, IsPlainText, strip_ansi_escapes-IsPlainText}
use bridge_sessions.Base.Decimal.{decimal}
use bridge_sessions.Escape.Settings.{here, there, cursor_shown, strip_mode_sequences-set}
use bridge_sessions.Escape.Modes.{private_intro, strip_mode_sequences, sets}

b64dec-b64enc_example : b64dec (b64enc (codes "hi!?")) ≡ codes "hi!?"
b64dec-b64enc_example =
    b64dec-b64enc (codes "hi!?") (omega arith, (omega arith, (omega arith, (omega arith, tt))))

encode_hi : b64enc (codes "hi!?") ≡ codes "aGkhPw"
unfolding b64enc b64_char
encode_hi = refl

decode_osc52_body-b64enc_example :
    decode_osc52_body (codes "c" ++ (b';' ∷ b64enc (codes "hi"))) ≡ some (codes "hi")
decode_osc52_body-b64enc_example =
    decode_osc52_body-b64enc (codes "c") (codes "hi") (refl, tt) (omega arith, (omega arith, tt))
      (λ e. cc)

abbrev copied : Segment
copied = record { body = codes "c;aGk="; end = bel ∷ []; text = codes " done" }

copied-IsSegment : IsSegment copied
copied-IsSegment = record {
  body = (
    (refl, refl),
    ((refl, refl), ((refl, refl), ((refl, refl), ((refl, refl), ((refl, refl), tt))))),
  );
  end = ends_bel;
  text = (refl, (refl, (refl, (refl, (refl, tt)))));
}

copied_bytes : decode_osc52_body (codes "c;aGk=") ≡ some (codes "hi")
unfolding decode_osc52_body place_of
copied_bytes = refl

scan_osc52-stream_of_example :
    scan_osc52 (codes "ok" ++ (osc52_of (codes "c;aGk=") (bel ∷ []) ++ (codes " done" ++ [])))
    ≡ record { cleaned_text = codes "ok done"; clipboard_text = some (codes "hi") }
unfolding decode_osc52_body place_of
scan_osc52-stream_of_example =
    scan_osc52-stream_of (codes "ok") (copied ∷ []) (refl, (refl, tt)) (copied-IsSegment, tt)

scan_osc52-nested_example :
    (scan_osc52 (
      (esc ∷ codes "]5")
      ++ (osc52_of (codes "c;") (bel ∷ [])
          ++ (codes "2;" ++ (codes "c;aGk=" ++ (bel ∷ [])))))).cleaned_text
    ≡ osc52_intro ++ (codes "c;aGk=" ++ (bel ∷ []))
scan_osc52-nested_example =
    scan_osc52-nested (codes "c;") (bel ∷ []) (codes "c;aGk=" ++ (bel ∷ []))
      ((refl, refl), ((refl, refl), tt)) ends_bel
      (refl, (refl, (refl, (refl, (refl, (refl, (refl, tt)))))))

strip_ansi_escapes-IsPlainText_example :
    IsPlainText (strip_ansi_escapes (esc ∷ codes "[31mred"))
    × (strip_ansi_escapes (codes "a\n" ++ (esc ∷ codes "[31mred"))
        ≡ codes "a\n" ++ strip_ansi_escapes (esc ∷ codes "[31mred"))
    × (strip_ansi_escapes (strip_ansi_escapes (esc ∷ codes "[31mred"))
        ≡ strip_ansi_escapes (esc ∷ codes "[31mred"))
strip_ansi_escapes-IsPlainText_example =
    strip_ansi_escapes-IsPlainText (codes "a\n") (esc ∷ codes "[31mred")
      (inl (omega arith), (inr (inl refl), tt))

digit : (c : ℕ) → 0x30 ≤ c → c ≤ 0x39 → (0x30 ≤ c) × (c ≤ 0x3f) × (c ≢ b';')
digit c low high = (low, omega arith, λ z. omega arith)

strip_mode_sequences-set_example :
    strip_mode_sequences (codes "a" ++ (private_intro ++ (codes "8;25" ++ (b'h' ∷ codes "b"))))
    ≡ codes "a" ++ strip_mode_sequences (codes "b")
unfolding decimal
strip_mode_sequences-set_example =
    strip_mode_sequences-set (codes "a") (codes "8") (codes "25" ∷ []) (codes "b") b'h' (refl, tt)
      (
        (digit b'8' (omega arith) (omega arith), tt),
        (
          (digit b'2' (omega arith) (omega arith), (digit b'5' (omega arith) (omega arith), tt)),
          tt,
        ),
      )
      (there (codes "8") (codes "25" ∷ []) (here 25 [] cursor_shown)) sets
