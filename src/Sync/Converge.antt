-- ===== src/Sync/Converge.antt =====
-- The operations of a manifest turn the folder as it was into the folder as it is.
use bridge_sessions.Base.{
  ℕ, true, false, ◌≡◌, refl, sym, ap, ◌∙◌, inl, inr, Option, none, some, List, [], ◌∷◌, ◌++◌, ◌=b=◌,
  =b=_eq, Bool-cases, Option-cases, if◌then◌else◌,
}
use bridge_sessions.Base.TextMap.{
  some-ne-none, find-cons_none, find, erase, Unique, IsSorted, IsSorted-Unique, find-put,
  find-put_other, find-erase_same, find-erase_other,
}
use bridge_sessions.Sync.Scan.{SyncEntry, SyncIndex}
use bridge_sessions.Sync.Diff.{
  SyncOp, classify, changes, tombstones, sync_diff, apply_kind, apply_ops,
}

-- What a path holds: the hash of its file.
abbrev pub hash_of : Option SyncEntry → Option (List ℕ)
hash_of none = none
hash_of (some e) = some e.sha256

abbrev pub hash_at : List ℕ → SyncIndex → Option (List ℕ)
hash_at path idx = hash_of (find path idx)

-- Two indexes that no hash tells apart.
abbrev pub SameContent : SyncIndex → SyncIndex → Type 0
SameContent a b = (path : List ℕ) → hash_at path a ≡ hash_at path b

apply_ops-append :
    (first second : List SyncOp) (idx : SyncIndex)
    → apply_ops (first ++ second) idx ≡ apply_ops second (apply_ops first idx)
apply_ops-append [] second idx = refl
apply_ops-append (op ∷ first) second idx = apply_ops-append first second (apply_kind op.kind op idx)

-- The operations of one entry leave the other paths alone.
classify_other :
    (rel path : List ℕ) (e : SyncEntry) (old : Option SyncEntry) (more : List SyncOp)
    (idx : SyncIndex)
    → (path =b= rel) ≡ false
    → (new : SyncIndex) × (apply_ops (classify rel e old more) idx ≡ apply_ops more new)
      × (find path new ≡ find path idx)
classify_other rel path e none more idx ne = (_, refl, find-put_other rel path _ idx ne)
classify_other rel path e (some old) more idx ne = elim (Bool-cases (old.sha256 =b= e.sha256)) [
  | inl same ↦ rw same (idx, refl, refl)
  | inr other ↦ rw other (_, refl, find-put_other rel path _ idx ne)
]

-- Those of the path's own entry give it the entry's hash, when the index had the old one.
classify_same :
    (rel path : List ℕ) (e : SyncEntry) (old : Option SyncEntry) (more : List SyncOp)
    (idx : SyncIndex)
    → (path =b= rel) ≡ true
    → find path idx ≡ old
    → (new : SyncIndex) × (apply_ops (classify rel e old more) idx ≡ apply_ops more new)
      × (hash_at path new ≡ some e.sha256)
classify_same rel path e none more idx same found =
    (_, refl, ap hash_of (find-put rel path _ idx) ∙ rw same refl)
classify_same rel path e (some old) more idx same found =
    elim (Bool-cases (old.sha256 =b= e.sha256)) [
      | inl equal ↦
          rw equal (idx, refl, ap hash_of found ∙ ap some (=b=_eq old.sha256 e.sha256 equal))
      | inr other ↦ rw other (_, refl, ap hash_of (find-put rel path _ idx) ∙ rw same refl)
    ]

changes_absent :
    (prev current : SyncIndex) (path : List ℕ) (idx : SyncIndex)
    → find path current ≡ none
    → find path (apply_ops (changes prev current) idx) ≡ find path idx
changes_absent prev [] path idx gone = refl
changes_absent prev ((rel, e) ∷ current) path idx gone =
    let (other, rest) = find-cons_none path rel e current gone in
    let (new, run, kept) =
      classify_other rel path e (find rel prev) (changes prev current) idx other in
    ap (find path) run ∙ changes_absent prev current path new rest ∙ kept

changes_present :
    (prev current : SyncIndex) (path : List ℕ) (e : SyncEntry) (idx : SyncIndex)
    → Unique current
    → find path idx ≡ find path prev
    → find path current ≡ some e
    → hash_at path (apply_ops (changes prev current) idx) ≡ some e.sha256
changes_present prev [] path e idx u kept found = absurd (some-ne-none (sym found))
changes_present prev ((rel, a) ∷ current) path e idx u kept found =
    elim (Bool-cases (path =b= rel)) [
      | inl same ↦
          let (new, run, hash) =
            classify_same rel path a (find rel prev) (changes prev current) idx same
              (kept ∙ ap (λ t. find t prev) (=b=_eq path rel same)) in
          let gone : find path current ≡ none =
            ap (λ t. find t current) (=b=_eq path rel same) ∙ u.0 in
          ap (hash_at path) run
          ∙ ap hash_of (changes_absent prev current path new gone)
          ∙ hash
          ∙ ap hash_of (sym (ap (λ b. if b then some a else find path current) same) ∙ found)
      | inr other ↦
          let (new, run, same) =
            classify_other rel path a (find rel prev) (changes prev current) idx other in
          ap (hash_at path) run
          ∙ changes_present prev current path e new u.1 (same ∙ kept)
              (sym (ap (λ b. if b then some a else find path current) other) ∙ found)
    ]

tombstones_kept :
    (current prev : SyncIndex) (path : List ℕ) (e : SyncEntry) (idx : SyncIndex)
    → find path current ≡ some e
    → find path (apply_ops (tombstones current prev) idx) ≡ find path idx
tombstones_kept current [] path e idx found = refl
tombstones_kept current ((rel, a) ∷ prev) path e idx found =
    elim (Option-cases (find rel current)) [
      | inr (b, there) ↦ rw there (tombstones_kept current prev path e idx found)
      | inl gone ↦ elim (Bool-cases (path =b= rel)) [
        | inl same ↦
            absurd
              (some-ne-none (sym found ∙ ap (λ t. find t current) (=b=_eq path rel same) ∙ gone))
        | inr other ↦ rw gone (
            tombstones_kept current prev path e (erase rel idx) found
            ∙ find-erase_other rel path idx other)
      ]
    ]

find-erase-none :
    (rel path : List ℕ) (idx : SyncIndex) → find path idx ≡ none → find path (erase rel idx) ≡ none
find-erase-none rel path idx gone = elim (Bool-cases (path =b= rel)) [
  | inl same ↦ ap (λ t. find t (erase rel idx)) (=b=_eq path rel same) ∙ find-erase_same rel idx
  | inr other ↦ find-erase_other rel path idx other ∙ gone
]

tombstones-none :
    (current prev : SyncIndex) (path : List ℕ) (idx : SyncIndex)
    → find path idx ≡ none
    → find path (apply_ops (tombstones current prev) idx) ≡ none
tombstones-none current [] path idx gone = gone
tombstones-none current ((rel, a) ∷ prev) path idx gone = elim (Option-cases (find rel current)) [
  | inr (b, there) ↦ rw there (tombstones-none current prev path idx gone)
  | inl away ↦
      rw away
        (tombstones-none current prev path (erase rel idx) (find-erase-none rel path idx gone))
]

tombstones_gone :
    (current prev : SyncIndex) (path : List ℕ) (idx : SyncIndex)
    → find path current ≡ none
    → (find path prev ≡ none → find path idx ≡ none)
    → find path (apply_ops (tombstones current prev) idx) ≡ none
tombstones_gone current [] path idx gone old = old refl
tombstones_gone current ((rel, a) ∷ prev) path idx gone old = elim (Bool-cases (path =b= rel)) [
  | inl same ↦
      let away : find rel current ≡ none =
        ap (λ t. find t current) (sym (=b=_eq path rel same)) ∙ gone in
      rw away (
        tombstones-none current prev path (erase rel idx)
          (ap (λ t. find t (erase rel idx)) (=b=_eq path rel same) ∙ find-erase_same rel idx))
  | inr other ↦
      let back : find path prev ≡ none → find path idx ≡ none =
        λ p. old (ap (λ b. if b then some a else find path prev) other ∙ p) in
      elim (Option-cases (find rel current)) [
        | inr (b, there) ↦ rw there (tombstones_gone current prev path idx gone back)
        | inl away ↦ rw away (
            tombstones_gone current prev path (erase rel idx) gone
              λ p. find-erase-none rel path idx (back p))
      ]
]

-- The operations of a diff turn the old index into one with the new index's contents: a file with the
-- new hash at each of its paths, and nothing at the others. The new index has each path once.
pub apply_ops-sync_diff :
    (pair_id : List ℕ) (prev current : SyncIndex) (clock : ℕ)
    → IsSorted current
    → SameContent (apply_ops (sync_diff pair_id prev current clock).ops prev) current
unfolding sync_diff
apply_ops-sync_diff pair_id prev current clock sorted path =
    let u = IsSorted-Unique current sorted in
    let middle = apply_ops (changes prev current) prev in
    ap (hash_at path) (apply_ops-append (changes prev current) (tombstones current prev) prev)
    ∙ elim (Option-cases (find path current)) [
      | inr (e, found) ↦
          ap hash_of (tombstones_kept current prev path e middle found)
          ∙ changes_present prev current path e prev u refl found
          ∙ ap hash_of (sym found)
      | inl gone ↦
          ap hash_of (
            tombstones_gone current prev path middle gone
              λ p. changes_absent prev current path prev gone ∙ p)
          ∙ ap hash_of (sym gone)
    ]
