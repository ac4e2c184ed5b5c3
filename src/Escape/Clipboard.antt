-- ===== src/Escape/Clipboard.antt =====
-- What `scan_osc52` leaves and what it finds.
use bridge_sessions.Base.{
  ℕ, ◌≡◌, refl, ap, ◌∙◌, false, Option, none, some, ◌=b=◌, if◌then◌else◌, List, [], ◌∷◌, ◌++◌, All,
  codes, ◌==◌, arith, length,
}
use bridge_sessions.Escape.Osc52.{
  esc, bel, longer, find_osc_end, decode_osc52_body, Osc52Result, set_clipboard, push_text,
  osc52_intro, osc52_at, scan_from, scan_osc52,
}

-- Text without an escape character.
abbrev pub IsText : List ℕ → Type 0
IsText s = All (λ c. (c == esc) ≡ false) s

-- A body that holds no terminator.
abbrev pub IsBody : List ℕ → Type 0
IsBody s = All (λ c. ((c == esc) ≡ false) × ((c == bel) ≡ false)) s

osc52_at-plain : (c : ℕ) (s : List ℕ) → (c == esc) ≡ false → osc52_at (c ∷ s) ≡ none
osc52_at-plain c s e = ground arith

-- Text in front is passed through.
scan-text :
    (text s : List ℕ) (clipboard : Option (List ℕ))
    → IsText text
    → scan_from 0 clipboard (text ++ s) ≡ record {
      cleaned_text = text ++ (scan_from 0 clipboard s).cleaned_text;
      clipboard_text = (scan_from 0 clipboard s).clipboard_text;
    }
scan-text [] s clipboard h = refl
scan-text (c ∷ text) s clipboard h =
    rw (osc52_at-plain c (text ++ s) h.0) (ap (push_text c) (scan-text text s clipboard h.1))

whole_text :
    (text : List ℕ) (clipboard : Option (List ℕ))
    → IsText text
    → scan_from 0 clipboard text ≡ record { cleaned_text = text; clipboard_text = clipboard }
whole_text [] clipboard h = refl
whole_text (c ∷ text) clipboard h =
    rw (osc52_at-plain c text h.0) (ap (push_text c) (whole_text text clipboard h.1))

scan-skip :
    (front s : List ℕ) (clipboard : Option (List ℕ))
    → scan_from (length front) clipboard (front ++ s) ≡ scan_from 0 clipboard s
scan-skip [] s clipboard = refl
scan-skip (c ∷ front) s clipboard = scan-skip front s clipboard

-- The terminators.
pub data IsEnd : List ℕ → Type 0 where
  ends_bel : IsEnd (bel ∷ [])
  ends_st : IsEnd (esc ∷ b'\\' ∷ [])

find_osc_end-IsEnd :
    (body end s : List ℕ)
    → IsBody body
    → IsEnd end
    → find_osc_end ((body ++ end) ++ s) ≡ some (body, length (body ++ end))
find_osc_end-IsEnd [] end s h ends_bel = refl
find_osc_end-IsEnd [] end s h ends_st = refl
find_osc_end-IsEnd (c ∷ body) end s h e =
    rw (h.0.1, h.0.0) (ap (longer c) (find_osc_end-IsEnd body end s h.1 e))

abbrev pub osc52_of : List ℕ → List ℕ → List ℕ
osc52_of body end = osc52_intro ++ (body ++ end)

-- A whole sequence is passed over.
scan-osc52_of :
    (body end s : List ℕ) (clipboard : Option (List ℕ))
    → IsBody body
    → IsEnd end
    → scan_from 0 clipboard (osc52_of body end ++ s)
      ≡ scan_from 0 (set_clipboard (decode_osc52_body body) clipboard) s
scan-osc52_of body end s clipboard h e =
    rw (find_osc_end-IsEnd body end s h e)
      (scan-skip (body ++ end) s (set_clipboard (decode_osc52_body body) clipboard))

-- A clipboard sequence and the text behind it.
pub record Segment : Type 0 where
  pub body : List ℕ
  pub end : List ℕ
  pub text : List ℕ

pub record IsSegment (g : Segment) : Type 0 where
  pub body : IsBody g.body
  pub end : IsEnd g.end
  pub text : IsText g.text

abbrev pub stream_of : List Segment → List ℕ
stream_of [] = []
stream_of (g ∷ segments) = osc52_of g.body g.end ++ (g.text ++ stream_of segments)

abbrev pub texts_of : List Segment → List ℕ
texts_of [] = []
texts_of (g ∷ segments) = g.text ++ texts_of segments

-- The contents of the sequences that have any, in order.
abbrev pub contents_of : List Segment → List (List ℕ)
contents_of [] = []
contents_of (g ∷ segments) =
    let rest = contents_of segments in
    elim (decode_osc52_body g.body) [
      | none ↦ rest
      | some content ↦ if content =b= [] then rest else content ∷ rest
    ]

abbrev pub last_of {ℓ} : {A : Type ℓ} → List A → Option A
last_of [] = none
last_of (x ∷ []) = some x
last_of (x ∷ y ∷ xs) = last_of (y ∷ xs)

-- The last of `xs`, or else what was there before.
abbrev last_or : Option (List ℕ) → List (List ℕ) → Option (List ℕ)
last_or before xs = elim (last_of xs) [ none ↦ before | some x ↦ some x ]

last_or-cons :
    (before : Option (List ℕ)) (x : List ℕ) (xs : List (List ℕ))
    → last_or (some x) xs ≡ last_or before (x ∷ xs)
last_or-cons before x [] = refl
last_or-cons before x (y ∷ []) = refl
last_or-cons before x (y ∷ z ∷ xs) = last_or-cons before x (z ∷ xs)

or_none : (o : Option (List ℕ)) → elim o [ none ↦ none | some x ↦ some x ] ≡ o
or_none none = refl
or_none (some x) = refl

-- One more sequence.
last_or-set :
    (clipboard decoded : Option (List ℕ)) (rest : List (List ℕ))
    → last_or (set_clipboard decoded clipboard) rest
      ≡ last_or clipboard (elim decoded [
        | none ↦ rest
        | some content ↦ if content =b= [] then rest else content ∷ rest
      ])
last_or-set clipboard none rest = refl
last_or-set clipboard (some []) rest = refl
last_or-set clipboard (some (c ∷ text)) rest = last_or-cons clipboard (c ∷ text) rest

scan-stream_of :
    (clipboard : Option (List ℕ)) (segments : List Segment)
    → All IsSegment segments
    → scan_from 0 clipboard (stream_of segments) ≡ record {
      cleaned_text = texts_of segments;
      clipboard_text = last_or clipboard (contents_of segments);
    }
scan-stream_of clipboard [] h = refl
scan-stream_of clipboard (g ∷ segments) h =
    let found = set_clipboard (decode_osc52_body g.body) clipboard in
    scan-osc52_of g.body g.end (g.text ++ stream_of segments) clipboard h.0.body h.0.end
    ∙ scan-text g.text (stream_of segments) found h.0.text
    ∙ ap
        (λ (r : Osc52Result). record {
          cleaned_text = g.text ++ r.cleaned_text;
          clipboard_text = r.clipboard_text;
        })
        (scan-stream_of found segments h.1)
    ∙ ap (λ o. record { cleaned_text = g.text ++ texts_of segments; clipboard_text = o })
        (last_or-set clipboard (decode_osc52_body g.body) (contents_of segments))

-- Of text with whole clipboard sequences in it, `scan_osc52` leaves the text, and the clipboard has what
-- the last sequence with any content decodes to. The text holds no escape character, and the bodies hold no
-- terminator.
pub scan_osc52-stream_of :
    (text : List ℕ) (segments : List Segment)
    → IsText text
    → All IsSegment segments
    → scan_osc52 (text ++ stream_of segments) ≡ record {
      cleaned_text = text ++ texts_of segments;
      clipboard_text = last_of (contents_of segments);
    }
unfolding scan_osc52
scan_osc52-stream_of text segments plain h =
    scan-text text (stream_of segments) none plain
    ∙ ap
        (λ (r : Osc52Result). record {
          cleaned_text = text ++ r.cleaned_text;
          clipboard_text = r.clipboard_text;
        })
        (scan-stream_of none segments h)
    ∙ ap (λ o. record { cleaned_text = text ++ texts_of segments; clipboard_text = o })
        (or_none (last_of (contents_of segments)))

-- A sequence inside the introducer of another: what is left when the inner one is taken out is a whole
-- sequence again, for every body and terminator of the outer one without an escape character.
pub scan_osc52-nested :
    (inner end outer : List ℕ)
    → IsBody inner
    → IsEnd end
    → IsText outer
    → (scan_osc52
        ((esc ∷ codes "]5") ++ (osc52_of inner end ++ (codes "2;" ++ outer)))).cleaned_text
      ≡ osc52_intro ++ outer
unfolding scan_osc52
scan_osc52-nested inner end outer h e plain =
    ap (λ (r : Osc52Result). (esc ∷ codes "]5") ++ r.cleaned_text)
      (scan-osc52_of inner end (codes "2;" ++ outer) none h e
        ∙ whole_text (codes "2;" ++ outer) _ (refl, (refl, plain)))
