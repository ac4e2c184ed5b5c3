-- ===== src/Sync/Outcome.antt =====
-- What `approve` and `run` give on a disk on which every write succeeds, from their parts.
use bridge_sessions.Base.{
  ℕ, zero, suc, ◌+◌, Bool, true, false, ◌≡◌, refl, ap, inl, inr, some, List, [], ◌∷◌, ◌++◌, map,
  ◌=b=◌, Bool-cases, length,
}
use bridge_sessions.Base.Decimal.{decimal}
use bridge_sessions.Base.TextMap.{find}
use bridge_sessions.Sync.Scan.{SyncEntry, SyncIndex}
use bridge_sessions.Sync.Diff.{SyncManifest, changes}
use bridge_sessions.Sync.Pair.{
  SyncPairSpec, next_id, base_of, safe_char, taken, first_id, sync_make_pair_id, sync_pairs_load,
}
use bridge_sessions.Sync.Lookup.{find_pair-length}
use bridge_sessions.Sync.Command.{
  Store, Disk, Transfer, save_pairs, find_pair, approve_first, sync_pair_approve, sync_pair_run,
  run_manifest, refuse_run, transfers, count_failed,
}

append_nonempty : (front behind : List ℕ) (c : ℕ) → ((front ++ (c ∷ behind)) =b= []) ≡ false
append_nonempty [] behind c = refl
append_nonempty (d ∷ front) behind c = refl

pub next_id-nonempty :
    (fuel : ℕ) (existing : List SyncPairSpec) (safe peer id : List ℕ) (n : ℕ)
    → (id =b= []) ≡ false
    → (next_id fuel existing safe peer id n =b= []) ≡ false
next_id-nonempty zero existing safe peer id n named = named
next_id-nonempty (suc fuel) existing safe peer id n named = elim (Bool-cases (taken existing id)) [
  | inr free ↦ rw free named
  | inl used ↦ rw used (
      next_id-nonempty fuel existing safe peer _ (n + 1)
        (append_nonempty (first_id safe peer) (decimal n) b'-'))
]

pub sync_make_pair_id-nonempty :
    (existing : List SyncPairSpec) (local_dir peer : List ℕ)
    → (sync_make_pair_id existing local_dir peer =b= []) ≡ false
unfolding sync_make_pair_id
sync_make_pair_id-nonempty existing local_dir peer =
    let safe = map safe_char (base_of local_dir) in
    next_id-nonempty (suc (suc (length existing))) existing safe peer (first_id safe peer) 2
      (append_nonempty safe peer b'-')

-- A disk on which every write succeeds.
abbrev pub good_disk : Disk
good_disk = record { manifest_saved = true; pairs_saved = true; manifest_removed = true }

pub map-changes :
    (p : SyncPairSpec) (current : SyncIndex)
    → map (λ (t : Transfer). t.relpath) (transfers p (changes [] current))
      ≡ map (λ (e : List ℕ × SyncEntry). e.0) current
map-changes p [] = refl
map-changes p ((rel, e) ∷ current) = ap (◌∷◌ rel) (map-changes p current)

pub approve_found :
    (disk : Disk) (id : List ℕ) (st : Store) (p : SyncPairSpec) (m : SyncManifest)
    → find_pair id (sync_pairs_load st.pairs) ≡ some p
    → p.approved ≡ false
    → find p.id st.manifests ≡ some m
    → sync_pair_approve disk id st
      ≡ save_pairs disk (approve_first id (sync_pairs_load st.pairs)) st
unfolding sync_pair_approve
approve_found disk id st p m found waits stored =
    rw (find_pair-length id (sync_pairs_load st.pairs) p found, found, waits, stored) refl

pub run_found :
    (disk : Disk) (sends : Transfer → Bool) (id : List ℕ) (st : Store) (p : SyncPairSpec)
    (m : SyncManifest)
    → find_pair id (sync_pairs_load st.pairs) ≡ some p
    → p.approved ≡ true
    → find p.id st.manifests ≡ some m
    → sync_pair_run disk sends id st ≡ run_manifest disk sends p m st
unfolding sync_pair_run
run_found disk sends id st p m found granted stored =
    simp (find_pair-length id (sync_pairs_load st.pairs) p found, found, granted, stored)

pub saved_manifests :
    (disk : Disk) (pairs : List SyncPairSpec) (st : Store) (id : List ℕ)
    → find id (save_pairs disk pairs st).1.manifests ≡ find id st.manifests
saved_manifests disk pairs st id = elim (Bool-cases disk.pairs_saved) [
  | inl saved ↦ rw saved refl
  | inr failed ↦ rw failed refl
]

pub none_failed :
    (sends : Transfer → Bool)
    → ((t : Transfer) → sends t ≡ true)
    → (ts : List Transfer) → count_failed sends ts ≡ 0
none_failed sends good [] = refl
none_failed sends good (t ∷ ts) = rw (good t) (none_failed sends good ts)

pub run_shut :
    (disk : Disk) (sends : Transfer → Bool) (id : List ℕ) (st : Store) (p : SyncPairSpec)
    → find_pair id (sync_pairs_load st.pairs) ≡ some p
    → p.approved ≡ false
    → sync_pair_run disk sends id st ≡ refuse_run 1 st
unfolding sync_pair_run
run_shut disk sends id st p found shut =
    rw (find_pair-length id (sync_pairs_load st.pairs) p found, found, shut) refl
