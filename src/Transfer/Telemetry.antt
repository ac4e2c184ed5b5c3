-- ===== src/Transfer/Telemetry.antt =====
-- The ring of recent transfers: `TransferTelemetryRing` of bs-codec.h, over any type of entries. The
-- rates and means in an entry are floating point and are not modelled.
use bridge_sessions.Base.{
  ℕ, zero, suc, ◌-◌, ◌≤◌, ◌≡◌, refl, sym, ◌∙◌, ap, inl, inr, List, [], ◌∷◌, ◌++◌, append-nil,
  append_assoc, true, false, Bool-cases, arith, leb, length, length-append, length-drop, drop,
  if◌then◌else◌,
}

abbrev pub max_entries : ℕ
max_entries = 256

module _ {ℓ} {Entry : Type ℓ} where
  -- `append`: the oldest entry makes place for the new one.
  unfoldable pub append : List Entry → Entry → List Entry
  append entries e =
      (if leb max_entries (length entries) then drop 1 entries else entries) ++ (e ∷ [])

  unfoldable pub append_all : List Entry → List Entry → List Entry
  append_all entries [] = entries
  append_all entries (e ∷ es) = append_all (append entries e) es

  -- The newest `max_entries` of all that was appended.
  abbrev pub newest : List Entry → List Entry
  newest history = drop (length history - max_entries) history

  drop_one : (n : ℕ) (xs : List Entry) → drop (suc n) xs ≡ drop 1 (drop n xs)
  drop_one zero xs = refl
  drop_one (suc n) [] = refl
  drop_one (suc n) (x ∷ xs) = drop_one n xs

  drop-append_le :
      (n : ℕ) (xs ys : List Entry) → n ≤ length xs → drop n (xs ++ ys) ≡ drop n xs ++ ys
  drop-append_le zero xs ys h = refl
  drop-append_le (suc n) [] ys h = absurd (omega arith)
  drop-append_le (suc n) (x ∷ xs) ys h = drop-append_le n xs ys (omega arith)

  newest_full :
      (history : List Entry)
      → leb max_entries (length history) ≡ true
      → leb max_entries (length (newest history)) ≡ true
  newest_full history full = ground (arith, length-drop (length history - max_entries) history)

  grow :
      (history : List Entry) (e : Entry)
      → leb max_entries (length history) ≡ true
      → length (history ++ (e ∷ [])) - max_entries ≡ suc (length history - max_entries)
  grow history e full = ground (arith, length-append history (e ∷ []))

  stay :
      (history : List Entry) (e : Entry)
      → leb max_entries (length history) ≡ false
      → length (history ++ (e ∷ [])) - max_entries ≡ length history - max_entries
  stay history e room = ground (arith, length-append history (e ∷ []))

  newest_room_step :
      (history : List Entry) (e : Entry)
      → leb max_entries (length history) ≡ false
      → newest (history ++ (e ∷ [])) ≡ newest history ++ (e ∷ [])
  newest_room_step history e room =
      ap (λ n. drop n (history ++ (e ∷ []))) (stay history e room)
      ∙ drop-append_le (length history - max_entries) history (e ∷ []) (ground arith)

  newest_full_step :
      (history : List Entry) (e : Entry)
      → leb max_entries (length history) ≡ true
      → newest (history ++ (e ∷ [])) ≡ drop 1 (newest history) ++ (e ∷ [])
  newest_full_step history e full =
      let k = length history - max_entries in
      ap (λ n. drop n (history ++ (e ∷ []))) (grow history e full)
      ∙ drop-append_le (suc k) history (e ∷ []) (ground arith)
      ∙ ap (λ xs. xs ++ (e ∷ [])) (drop_one k history)

  newest_room :
      (history : List Entry)
      → leb max_entries (length history) ≡ false
      → leb max_entries (length (newest history)) ≡ false
  newest_room history room = ground (arith, length-drop (length history - max_entries) history)

  append-newest :
      (history : List Entry) (e : Entry) → append (newest history) e ≡ newest (history ++ (e ∷ []))
  unfolding append
  append-newest history e = elim (Bool-cases (leb max_entries (length history))) [
    | inl full ↦ rw (newest_full history full) (sym (newest_full_step history e full))
    | inr room ↦ rw (newest_room history room) (sym (newest_room_step history e room))
  ]

  append_all-newest :
      (history es : List Entry) → append_all (newest history) es ≡ newest (history ++ es)
  unfolding append_all
  append_all-newest history [] = ap newest (sym (append-nil history))
  append_all-newest history (e ∷ es) =
      ap (λ x. append_all x es) (append-newest history e)
      ∙ append_all-newest (history ++ (e ∷ [])) es
      ∙ ap newest (append_assoc history (e ∷ []) es)

  -- The ring holds the newest 256 entries of all that were appended, in their order.
  pub append_all_lem : (es : List Entry) → append_all [] es ≡ drop (length es - max_entries) es
  append_all_lem es = append_all-newest [] es
