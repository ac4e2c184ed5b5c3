-- ===== src/Sync/Again.antt =====
-- A second run of a pair: `bs sync pair run` of main.cpp.
use bridge_sessions.Base.{
  ℕ, Bool, true, false, ◌≡◌, refl, if◌then◌else◌, sym, ap, ◌∙◌, inl, inr, ◌⊎◌, none, some, List, [],
  =b=_eq, ◌==◌, Bool-cases, Option-cases, length,
}
use bridge_sessions.Base.TextMap.{find, find-erase_same}
use bridge_sessions.Sync.Diff.{SyncManifest}
use bridge_sessions.Sync.Pair.{SyncPairSpec, sync_pairs_load}
use bridge_sessions.Sync.Lookup.{find_pair-id, load_approve_all, find_pair-approve_all}
use bridge_sessions.Sync.Command.{
  Store, Disk, Run, Transfer, find_pair, sync_pair_run, approve_all, run_manifest, refuse_run,
  transfers,
}
use bridge_sessions.Sync.Gate.{run_no_manifest}
use bridge_sessions.Sync.Outcome.{run_found, run_shut}

unread :
    (disk : Disk) (sends : Transfer → Bool) (p : SyncPairSpec) (m : SyncManifest) (st : Store)
    → disk.manifest_removed ≡ true
    → find p.id (run_manifest disk sends p m st).store.manifests ≡ none
unread disk sends p m st removed = elim (Bool-cases disk.pairs_saved) [
  | inl saved ↦ rw (saved, removed) (find-erase_same p.id st.manifests)
  | inr failed ↦ rw (failed, removed) (find-erase_same p.id st.manifests)
]

-- Behind a run that can remove the manifest there is none, or nothing has changed.
run_once :
    (disk : Disk) (sends : Transfer → Bool) (id : List ℕ) (st : Store)
    → disk.manifest_removed ≡ true
    → (find id (sync_pair_run disk sends id st).store.manifests ≡ none)
      ⊎ (((sync_pair_run disk sends id st).store ≡ st)
          × ((d : Disk) (s : Transfer → Bool) → (sync_pair_run d s id st).sent ≡ []))
unfolding sync_pair_run
run_once disk sends id st removed = elim (Bool-cases (length (sync_pairs_load st.pairs) == 0)) [
  | inl empty ↦ rw empty (inr (refl, λ d s. refl))
  | inr more ↦ rw more (elim (Option-cases (find_pair id (sync_pairs_load st.pairs))) [
    | inl absent ↦ rw absent (inr (refl, λ d s. refl))
    | inr (p, found) ↦ rw found (elim (Bool-cases p.approved) [
      | inr shut ↦ rw shut (inr (refl, λ d s. refl))
      | inl granted ↦ rw granted (elim (Option-cases (find p.id st.manifests)) [
        | inl gone ↦ rw gone (inr (refl, λ d s. refl))
        | inr (m, there) ↦ rw there (
            inl (
              ap (λ t. find t (run_manifest disk sends p m st).store.manifests)
                (sym (=b=_eq p.id id (find_pair-id id _ p found)))
              ∙ unread disk sends p m st removed))
      ])
    ])
  ])
]

run_gone_again :
    (disk again : Disk) (sends later : Transfer → Bool) (id : List ℕ) (st : Store)
    → disk.manifest_removed ≡ true
    → (sync_pair_run again later id (sync_pair_run disk sends id st).store).sent ≡ []
run_gone_again disk again sends later id st removed = elim (run_once disk sends id st removed) [
  | inl gone ↦ run_no_manifest again later id _ gone
  | inr (kept, nothing) ↦ ap (λ s. (sync_pair_run again later id s).sent) kept ∙ nothing again later
]

-- The pair, which stays approved, in the list that the first run leaves.
kept_pair :
    (disk : Disk) (sends : Transfer → Bool) (id : List ℕ) (p : SyncPairSpec) (m : SyncManifest)
    (st : Store)
    → find_pair id (sync_pairs_load st.pairs) ≡ some p
    → p.approved ≡ true
    → find_pair id (sync_pairs_load (run_manifest disk sends p m st).store.pairs)
      ≡ some (record p { approved = true })
kept_pair disk sends id p m st found granted = elim (Bool-cases disk.pairs_saved) [
  | inr failed ↦ rw failed (found ∙ ap (λ b. some (record p { approved = b })) granted)
  | inl saved ↦ rw saved (
      ap (find_pair id) (load_approve_all p.id st.pairs)
      ∙ ap (λ i. find_pair id (approve_all i (sync_pairs_load st.pairs)))
          (=b=_eq p.id id (find_pair-id id _ p found))
      ∙ find_pair-approve_all id (sync_pairs_load st.pairs) p found)
]

kept_manifest :
    (disk : Disk) (sends : Transfer → Bool) (p : SyncPairSpec) (m : SyncManifest) (st : Store)
    → disk.manifest_removed ≡ false
    → (run_manifest disk sends p m st).store.manifests ≡ st.manifests
kept_manifest disk sends p m st kept = elim (Bool-cases disk.pairs_saved) [
  | inl saved ↦ rw (saved, kept) refl
  | inr failed ↦ rw (failed, kept) refl
]

-- A run that could not remove the manifest is repeated by the next.
resent :
    (disk again : Disk) (sends later : Transfer → Bool) (id : List ℕ) (p : SyncPairSpec)
    (m : SyncManifest) (st : Store)
    → disk.manifest_removed ≡ false
    → find_pair id (sync_pairs_load st.pairs) ≡ some p
    → p.approved ≡ true
    → find p.id st.manifests ≡ some m
    → (sync_pair_run again later id (run_manifest disk sends p m st).store).sent
      ≡ (sync_pair_run again later id st).sent
resent disk again sends later id p m st kept found granted there =
    let after = (run_manifest disk sends p m st).store in
    ap (λ (r : Run). r.sent)
      (run_found again later id after (record p { approved = true }) m
        (kept_pair disk sends id p m st found granted) refl
        (ap (find p.id) (kept_manifest disk sends p m st kept) ∙ there))
    ∙ ap (λ b. transfers (record p { approved = b }) m.ops) (sym granted)
    ∙ ap (λ (r : Run). r.sent) (sym (run_found again later id st p m found granted there))

same_store :
    (again : Disk) (later : Transfer → Bool) (id : List ℕ) (st : Store) (r : Run) (code : ℕ)
    → r ≡ refuse_run code st
    → (sync_pair_run again later id r.store).sent ≡ (sync_pair_run again later id st).sent
same_store again later id st r code refused =
    ap (λ (x : Run). (sync_pair_run again later id x.store).sent) refused

module _ (disk : Disk) (sends : Transfer → Bool) (id : List ℕ) (st : Store) where
  run_empty :
      (length (sync_pairs_load st.pairs) == 0) ≡ true
      → sync_pair_run disk sends id st ≡ refuse_run 0 st
  unfolding sync_pair_run
  run_empty empty = rw empty refl

  run_absent :
      (length (sync_pairs_load st.pairs) == 0) ≡ false
      → find_pair id (sync_pairs_load st.pairs) ≡ none
      → sync_pair_run disk sends id st ≡ refuse_run 1 st
  unfolding sync_pair_run
  run_absent more absent = rw (more, absent) refl

  run_gone :
      (p : SyncPairSpec)
      → (length (sync_pairs_load st.pairs) == 0) ≡ false
      → find_pair id (sync_pairs_load st.pairs) ≡ some p
      → p.approved ≡ true
      → find p.id st.manifests ≡ none
      → sync_pair_run disk sends id st ≡ refuse_run 1 st
  unfolding sync_pair_run
  run_gone p more found granted gone = rw (more, found, granted, gone) refl

-- What a run leaves when it cannot remove the manifest gives the next run what the first one had.
run_kept :
    (disk again : Disk) (sends later : Transfer → Bool) (id : List ℕ) (st : Store)
    → disk.manifest_removed ≡ false
    → (sync_pair_run again later id (sync_pair_run disk sends id st).store).sent
      ≡ (sync_pair_run again later id st).sent
run_kept disk again sends later id st kept =
    elim (Bool-cases (length (sync_pairs_load st.pairs) == 0)) [
      | inl empty ↦ same_store again later id st _ _ (run_empty disk sends id st empty)
      | inr more ↦ elim (Option-cases (find_pair id (sync_pairs_load st.pairs))) [
        | inl absent ↦ same_store again later id st _ _ (run_absent disk sends id st more absent)
        | inr (p, found) ↦ elim (Bool-cases p.approved) [
          | inr shut ↦ same_store again later id st _ _ (run_shut disk sends id st p found shut)
          | inl granted ↦ elim (Option-cases (find p.id st.manifests)) [
            | inl gone ↦
                same_store again later id st _ _
                  (run_gone disk sends id st p more found granted gone)
            | inr (m, there) ↦
                ap (λ (r : Run). (sync_pair_run again later id r.store).sent)
                  (run_found disk sends id st p m found granted there)
                ∙ resent disk again sends later id p m st kept found granted there
          ]
        ]
      ]
    ]

-- Behind one run of a pair a second one sends nothing when the first could remove the manifest, and otherwise
-- what it would have sent without the first; whatever the first one sent, and whether or not its transfers
-- went well and the list of pairs was written.
pub sync_pair_run-again :
    (disk again : Disk) (sends later : Transfer → Bool) (id : List ℕ) (st : Store)
    → (sync_pair_run again later id (sync_pair_run disk sends id st).store).sent
      ≡ (if disk.manifest_removed then [] else (sync_pair_run again later id st).sent)
sync_pair_run-again disk again sends later id st = elim (Bool-cases disk.manifest_removed) [
  | inl removed ↦
      run_gone_again disk again sends later id st removed
      ∙ sym (ap (λ b. if b then [] else (sync_pair_run again later id st).sent) removed)
  | inr kept ↦
      run_kept disk again sends later id st kept
      ∙ sym (ap (λ b. if b then [] else (sync_pair_run again later id st).sent) kept)
]
