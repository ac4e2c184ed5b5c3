-- ===== src/Sync/Settled.antt =====
-- A diff has no operations just when the two folders have the same contents.
use bridge_sessions.Base.{
  ℕ, ◌≡◌, ◌↔◌, refl, sym, ap, subst, ◌∙◌, Option, none, some, List, [], ◌∷◌, ◌++◌, length, arith,
}
use bridge_sessions.Base.TextMap.{
  some-ne-none, find-cons_some, find, Unique, IsSorted, IsSorted-Unique, put-IsSorted,
  erase-IsSorted, =b=_refl,
}
use bridge_sessions.Sync.Scan.{SyncEntry, SyncIndex}
use bridge_sessions.Sync.Diff.{
  Kind, create, modify, delete, SyncOp, classify, changes, tombstones, sync_diff, apply_kind,
  apply_ops, sync_index_from_manifest, sync_pending_count,
}
use bridge_sessions.Sync.Converge.{hash_of, hash_at, SameContent, apply_ops-sync_diff}

find-here : (path : List ℕ) (e : SyncEntry) (m : SyncIndex) → find path ((path, e) ∷ m) ≡ some e
find-here path e m = rw =b=_refl refl

some-of_hash :
    (o : Option SyncEntry) (h : List ℕ)
    → hash_of o ≡ some h
    → (e : SyncEntry) × (o ≡ some e) × (e.sha256 ≡ h)
some-of_hash none h e = absurd (some-ne-none (sym e))
some-of_hash (some x) h e = (x, refl, ap (λ o. elim o [ none ↦ x.sha256 | some t ↦ t ]) e)

classify_settled :
    (rel : List ℕ) (e : SyncEntry) (old : Option SyncEntry) (more : List SyncOp)
    → hash_of old ≡ some e.sha256
    → classify rel e old more ≡ more
classify_settled rel e old more same =
    let (x, there, equal) = some-of_hash old e.sha256 same in rw (there, equal, =b=_refl) refl

changes_settled :
    (prev current : SyncIndex)
    → Unique current
    → ((path : List ℕ) (e : SyncEntry)
        → find path current ≡ some e
        → hash_at path prev ≡ some e.sha256)
    → changes prev current ≡ []
changes_settled prev [] u same = refl
changes_settled prev ((rel, e) ∷ current) u same =
    classify_settled rel e (find rel prev) (changes prev current)
      (same rel e (find-here rel e current))
    ∙ changes_settled prev current u.1
        λ path a found. same path a (find-cons_some path rel e a current u.0 found)

tombstones_settled :
    (current prev : SyncIndex)
    → Unique prev
    → ((path : List ℕ) (e : SyncEntry)
        → find path prev ≡ some e
        → hash_at path current ≡ some e.sha256)
    → tombstones current prev ≡ []
tombstones_settled current [] u same = refl
tombstones_settled current ((rel, e) ∷ prev) u same =
    let (x, there, equal) =
      some-of_hash (find rel current) e.sha256 (same rel e (find-here rel e prev)) in
    rw there (
      tombstones_settled current prev u.1
        λ path a found. same path a (find-cons_some path rel e a prev u.0 found))

apply_kind-IsSorted :
    (kind : Kind) (op : SyncOp) (idx : SyncIndex) → IsSorted idx → IsSorted (apply_kind kind op idx)
apply_kind-IsSorted delete op idx u = erase-IsSorted op.relpath idx u
apply_kind-IsSorted create op idx u = put-IsSorted op.relpath _ idx u
apply_kind-IsSorted modify op idx u = put-IsSorted op.relpath _ idx u

apply_ops-IsSorted :
    (ops : List SyncOp) (idx : SyncIndex) → IsSorted idx → IsSorted (apply_ops ops idx)
apply_ops-IsSorted [] idx u = u
apply_ops-IsSorted (op ∷ ops) idx u =
    apply_ops-IsSorted ops _ (apply_kind-IsSorted op.kind op idx u)

length_nil : (ops : List SyncOp) → length ops ≡ 0 → ops ≡ []
length_nil [] e = refl
length_nil (op ∷ ops) e = absurd (omega arith)

diff_settled :
    (pair_id : List ℕ) (prev current : SyncIndex) (clock : ℕ)
    → IsSorted prev
    → IsSorted current
    → SameContent prev current
    → (sync_diff pair_id prev current clock).ops ≡ []
unfolding sync_diff
diff_settled pair_id prev current clock sp sc same =
    ap (λ ops. ops ++ tombstones current prev)
      (changes_settled prev current (IsSorted-Unique current sc)
        λ path e found. same path ∙ ap hash_of found)
    ∙ tombstones_settled current prev (IsSorted-Unique prev sp)
        λ path e found. sym (same path) ∙ ap hash_of found

-- A diff asks for nothing just when no path's hash differs. Both indexes have each path once.
pub sync_pending_count-SameContent :
    (pair_id : List ℕ) (prev current : SyncIndex) (clock : ℕ)
    → IsSorted prev
    → IsSorted current
    → (sync_pending_count (sync_diff pair_id prev current clock) ≡ 0) ↔ SameContent prev current
unfolding sync_pending_count
sync_pending_count-SameContent pair_id prev current clock sp sc = (
  λ empty.
      subst (λ ops. SameContent (apply_ops ops prev) current) (length_nil _ empty)
        (apply_ops-sync_diff pair_id prev current clock sc),
  λ same. ap length (diff_settled pair_id prev current clock sp sc same),
)

-- What the first manifest of a folder rebuilds is the folder: another diff against it asks for nothing.
pub sync_index_from_manifest-sync_diff :
    (pair_id : List ℕ) (current : SyncIndex) (clock later : ℕ)
    → IsSorted current
    → SameContent (sync_index_from_manifest (sync_diff pair_id [] current clock)) current
      × (sync_pending_count (
            sync_diff pair_id
              (sync_index_from_manifest (sync_diff pair_id [] current clock))
              current
              later)
          ≡ 0)
unfolding sync_index_from_manifest
sync_index_from_manifest-sync_diff pair_id current clock later sc =
    let same = apply_ops-sync_diff pair_id [] current clock sc in
    let rebuilt = apply_ops-IsSorted (sync_diff pair_id [] current clock).ops [] tt in
    (same, (sync_pending_count-SameContent pair_id _ current later rebuilt sc).1 same)
