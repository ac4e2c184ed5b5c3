-- ===== src/Sync/Gate.antt =====
-- Runs of a pair by whether its manifest is approved.
use bridge_sessions.Base.{
  ℕ, Bool, true, false, ◌≡◌, ◌≢◌, refl, ap, ◌∙◌, inl, inr, none, some, List, [], =b=_eq, ◌==◌,
  Bool-cases, Option-cases, length,
}
use bridge_sessions.Base.TextMap.{find}
use bridge_sessions.Sync.Diff.{SyncManifest}
use bridge_sessions.Sync.Pair.{SyncPairSpec, sync_pairs_load}
use bridge_sessions.Sync.Lookup.{find_pair-id}
use bridge_sessions.Sync.Command.{
  Store, Disk, Run, Transfer, find_pair, sync_pair_run, run_pair, refuse_run, transfers,
}

pub run_pair_no_manifest :
    (disk : Disk) (sends : Transfer → Bool) (p : SyncPairSpec) (st : Store) (gate : Bool)
    → p.approved ≡ gate
    → find p.id st.manifests ≡ none
    → run_pair disk sends (some p) st ≡ refuse_run 1 st
run_pair_no_manifest disk sends p st true granted gone = rw (granted, gone) refl
run_pair_no_manifest disk sends p st false shut gone = rw shut refl

-- A pair without a stored manifest sends nothing.
pub run_no_manifest :
    (disk : Disk) (sends : Transfer → Bool) (id : List ℕ) (st : Store)
    → find id st.manifests ≡ none
    → (sync_pair_run disk sends id st).sent ≡ []
unfolding sync_pair_run
run_no_manifest disk sends id st gone = elim (Bool-cases (length (sync_pairs_load st.pairs) == 0)) [
  | inl empty ↦ rw empty refl
  | inr more ↦ rw more (elim (Option-cases (find_pair id (sync_pairs_load st.pairs))) [
    | inl absent ↦ rw absent refl
    | inr (p, found) ↦ rw found (
        ap (λ (r : Run). r.sent)
          (run_pair_no_manifest disk sends p st p.approved refl
            (ap (λ t. find t st.manifests) (=b=_eq p.id id (find_pair-id id _ p found)) ∙ gone)))
  ])
]

-- Why a run sends something: the pair is there, it is approved, and the transfers are those of its manifest.
pub record IsApproved (id : List ℕ) (st : Store) (sent : List Transfer) : Type 0 where
  pub pair : SyncPairSpec
  pub manifest : SyncManifest
  pub named : find_pair id (sync_pairs_load st.pairs) ≡ some pair
  pub approved : pair.approved ≡ true
  pub stored : find pair.id st.manifests ≡ some manifest
  pub listed : sent ≡ transfers pair manifest.ops

-- Whatever a run sends is the approved manifest of the pair that it names.
pub sync_pair_run-IsApproved :
    (disk : Disk) (sends : Transfer → Bool) (id : List ℕ) (st : Store)
    → (sync_pair_run disk sends id st).sent ≢ []
    → IsApproved id st (sync_pair_run disk sends id st).sent
unfolding sync_pair_run
sync_pair_run-IsApproved disk sends id st some_sent =
    elim (Bool-cases (length (sync_pairs_load st.pairs) == 0)) [
      | inl empty ↦ absurd (some_sent (rw empty refl))
      | inr more ↦ elim (Option-cases (find_pair id (sync_pairs_load st.pairs))) [
        | inl absent ↦ absurd (some_sent (rw (more, absent) refl))
        | inr (p, found) ↦ elim (Bool-cases p.approved) [
          | inr shut ↦ absurd (some_sent (rw (more, found, shut) refl))
          | inl granted ↦ elim (Option-cases (find p.id st.manifests)) [
            | inl gone ↦ absurd (some_sent (rw (more, found, granted, gone) refl))
            | inr (m, there) ↦ record {
              pair = p;
              manifest = m;
              named = found;
              approved = granted;
              stored = there;
              listed = simp (more, found, granted, there);
            }
          ]
        ]
      ]
    ]
