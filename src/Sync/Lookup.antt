-- ===== src/Sync/Lookup.antt =====
-- Pairs by their ids, in the list that the file holds.
use bridge_sessions.Base.{
  ℕ, true, false, ◌≡◌, refl, sym, ap, ◌∙◌, inl, inr, none, some, List, [], ◌∷◌, ◌++◌, ◌=b=◌, arith,
  ◌==◌, Bool-cases, length, if◌then◌else◌,
}
use bridge_sessions.Base.TextMap.{=b=_refl, some-ne-none}
use bridge_sessions.Sync.Pair.{SyncPairSpec, taken, sync_pairs_load}
use bridge_sessions.Sync.Command.{find_pair, approve_first, approve_all}

found_here :
    (id : List ℕ) (q : SyncPairSpec) (pairs : List SyncPairSpec) (p : SyncPairSpec)
    → (q.id =b= id) ≡ true
    → find_pair id (q ∷ pairs) ≡ some p
    → q ≡ p
found_here id q pairs p same found =
    ap (λ o. elim o [ none ↦ q | some x ↦ x ])
      (sym (ap (λ b. if b then some q else find_pair id pairs) same) ∙ found)

found_behind :
    (id : List ℕ) (q : SyncPairSpec) (pairs : List SyncPairSpec) (p : SyncPairSpec)
    → (q.id =b= id) ≡ false
    → find_pair id (q ∷ pairs) ≡ some p
    → find_pair id pairs ≡ some p
found_behind id q pairs p other found =
    sym (ap (λ b. if b then some q else find_pair id pairs) other) ∙ found

pub find_pair-id :
    (id : List ℕ) (pairs : List SyncPairSpec) (p : SyncPairSpec)
    → find_pair id pairs ≡ some p
    → (p.id =b= id) ≡ true
find_pair-id id [] p found = absurd (some-ne-none (sym found))
find_pair-id id (q ∷ pairs) p found = elim (Bool-cases (q.id =b= id)) [
  | inl same ↦
      let e = found_here id q pairs p same found in
      ap (λ (x : SyncPairSpec). x.id =b= id) (sym e) ∙ same
  | inr other ↦ find_pair-id id pairs p (found_behind id q pairs p other found)
]

pub find_pair-length :
    (id : List ℕ) (pairs : List SyncPairSpec) (p : SyncPairSpec)
    → find_pair id pairs ≡ some p
    → (length pairs == 0) ≡ false
find_pair-length id [] p found = absurd (some-ne-none (sym found))
find_pair-length id (q ∷ pairs) p found = ground arith

-- A new pair at the end, whose id is not empty, is there when the file is read again.
pub load_append :
    (p : SyncPairSpec) (pairs : List SyncPairSpec)
    → (p.id =b= []) ≡ false
    → sync_pairs_load (sync_pairs_load pairs ++ (p ∷ [])) ≡ sync_pairs_load pairs ++ (p ∷ [])
unfolding sync_pairs_load
load_append p [] named = rw named refl
load_append p (q ∷ pairs) named = elim (Bool-cases (q.id =b= [])) [
  | inl empty ↦ rw empty (load_append p pairs named)
  | inr some_id ↦ rw (some_id, some_id) (ap (◌∷◌ q) (load_append p pairs named))
]

pub find_pair-append :
    (p : SyncPairSpec) (pairs : List SyncPairSpec)
    → taken pairs p.id ≡ false
    → find_pair p.id (pairs ++ (p ∷ [])) ≡ some p
find_pair-append p [] free = rw =b=_refl refl
find_pair-append p (q ∷ pairs) free = elim (Bool-cases (q.id =b= p.id)) [
  | inl same ↦ absurd (ground arith)
  | inr other ↦ rw other (find_pair-append p pairs (ground arith))
]

load_load :
    (pairs : List SyncPairSpec) → sync_pairs_load (sync_pairs_load pairs) ≡ sync_pairs_load pairs
unfolding sync_pairs_load
load_load [] = refl
load_load (q ∷ pairs) = elim (Bool-cases (q.id =b= [])) [
  | inl empty ↦ rw empty (load_load pairs)
  | inr named ↦ rw (named, named) (ap (◌∷◌ q) (load_load pairs))
]

pub load_approve_first :
    (id : List ℕ) (pairs : List SyncPairSpec)
    → sync_pairs_load (approve_first id (sync_pairs_load pairs))
      ≡ approve_first id (sync_pairs_load pairs)
unfolding sync_pairs_load
load_approve_first id [] = refl
load_approve_first id (q ∷ pairs) = elim (Bool-cases (q.id =b= [])) [
  | inl empty ↦ rw empty (load_approve_first id pairs)
  | inr named ↦ elim (Bool-cases (q.id =b= id)) [
    | inl same ↦ rw (named, same, named) (ap (◌∷◌ (record q { approved = true })) (load_load pairs))
    | inr other ↦ rw (named, other, named) (ap (◌∷◌ q) (load_approve_first id pairs))
  ]
]

pub find_pair-approve_first :
    (id : List ℕ) (pairs : List SyncPairSpec) (p : SyncPairSpec)
    → find_pair id pairs ≡ some p
    → find_pair id (approve_first id pairs) ≡ some (record p { approved = true })
find_pair-approve_first id [] p found = absurd (some-ne-none (sym found))
find_pair-approve_first id (q ∷ pairs) p found = elim (Bool-cases (q.id =b= id)) [
  | inl same ↦
      let e = found_here id q pairs p same found in
      rw (same, same) (ap (λ (x : SyncPairSpec). some (record x { approved = true })) e)
  | inr other ↦
      rw (other, other) (find_pair-approve_first id pairs p (found_behind id q pairs p other found))
]

pub load_approve_all :
    (id : List ℕ) (pairs : List SyncPairSpec)
    → sync_pairs_load (approve_all id (sync_pairs_load pairs))
      ≡ approve_all id (sync_pairs_load pairs)
unfolding sync_pairs_load
load_approve_all id [] = refl
load_approve_all id (q ∷ pairs) = elim (Bool-cases (q.id =b= [])) [
  | inl empty ↦ rw empty (load_approve_all id pairs)
  | inr named ↦ elim (Bool-cases (q.id =b= id)) [
    | inl same ↦
        rw (named, same, named)
          (ap (◌∷◌ (record q { approved = true })) (load_approve_all id pairs))
    | inr other ↦ rw (named, other, named) (ap (◌∷◌ q) (load_approve_all id pairs))
  ]
]

pub find_pair-approve_all :
    (id : List ℕ) (pairs : List SyncPairSpec) (p : SyncPairSpec)
    → find_pair id pairs ≡ some p
    → find_pair id (approve_all id pairs) ≡ some (record p { approved = true })
find_pair-approve_all id [] p found = absurd (some-ne-none (sym found))
find_pair-approve_all id (q ∷ pairs) p found = elim (Bool-cases (q.id =b= id)) [
  | inl same ↦
      let first = found_here id q pairs p same found in
      rw (same, same) (ap (λ (x : SyncPairSpec). some (record x { approved = true })) first)
  | inr other ↦
      rw (other, other) (find_pair-approve_all id pairs p (found_behind id q pairs p other found))
]
