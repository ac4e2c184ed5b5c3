-- ===== src/Sync/Cycle.antt =====
-- A pair from its `init` to its first run.
use bridge_sessions.Base.{
  inl, inr, ◌⊎◌, Bool-cases, none, ℕ, Bool, true, false, ◌≡◌, refl, sym, ap, subst, ◌∙◌, some, List,
  [], ◌∷◌, ◌++◌, map, ◌==◌, append-nil, if◌then◌else◌,
}
use bridge_sessions.Base.TextMap.{find, find-put_same, find-erase_same}
use bridge_sessions.Sync.Scan.{SyncEntry, Nodes, sync_scan_dir}
use bridge_sessions.Sync.Diff.{SyncManifest, changes, sync_diff}
use bridge_sessions.Sync.Pair.{
  SyncPairSpec, sync_make_pair_id, sync_parse_peer_dir, sync_clock_tick, sync_pairs_load,
}
use bridge_sessions.Sync.Lookup.{
  load_append, find_pair-append, load_approve_first, find_pair-approve_first,
}
use bridge_sessions.Sync.Fresh.{sync_make_pair_id-taken}
use bridge_sessions.Sync.Command.{
  Store, Disk, InitArgs, Run, Transfer, set_pairs, save_pairs, new_pair, init_pair, find_pair,
  approve_first, sync_pair_init, sync_pair_approve, sync_pair_run, run_manifest, refuse_run,
  transfers, remove_manifest, sync_manifest_save,
}
use bridge_sessions.Sync.Gate.{run_no_manifest}
use bridge_sessions.Sync.Outcome.{
  sync_make_pair_id-nonempty, good_disk, map-changes, approve_found, run_found, saved_manifests,
  none_failed, run_shut,
}

module _ (sha256_hex : List ℕ → List ℕ) (args : InitArgs) (nodes : Nodes) (peer remote_dir : List ℕ)
    (st : Store) where
  abbrev pub new_id : List ℕ
  new_id = sync_make_pair_id (sync_pairs_load st.pairs) args.local_dir peer

  -- The pair and the manifest that `init` makes.
  abbrev spec : SyncPairSpec
  spec = sync_clock_tick (new_pair args (sync_pairs_load st.pairs) peer remote_dir)

  abbrev manifest : SyncManifest
  manifest = sync_diff new_id [] (sync_scan_dir sha256_hex (some nodes)) spec.clock

  abbrev pairs_after : List SyncPairSpec
  pairs_after = sync_pairs_load st.pairs ++ (spec ∷ [])

  init_run :
      (disk : Disk)
      → sync_parse_peer_dir args.peer_spec ≡ some (peer, remote_dir)
      → sync_pair_init sha256_hex disk args (some nodes) st ≡ init_pair disk spec manifest st
  unfolding sync_pair_init sync_clock_tick
  init_run disk parsed = rw parsed refl

  loaded : sync_pairs_load pairs_after ≡ pairs_after
  unfolding sync_clock_tick
  loaded =
      load_append spec st.pairs
        (sync_make_pair_id-nonempty (sync_pairs_load st.pairs) args.local_dir peer)

  there : find_pair new_id (sync_pairs_load pairs_after) ≡ some spec
  unfolding sync_clock_tick
  there =
      ap (find_pair new_id) loaded
      ∙ find_pair-append spec (sync_pairs_load st.pairs)
          (sync_make_pair_id-taken (sync_pairs_load st.pairs) args.local_dir peer)

  -- The files behind a dry run.
  abbrev pending_store : Store
  pending_store = set_pairs pairs_after (sync_manifest_save manifest st)

  init_pending :
      sync_parse_peer_dir args.peer_spec ≡ some (peer, remote_dir)
      → args.approve ≡ false
      → sync_pair_init sha256_hex good_disk args (some nodes) st ≡ (0, pending_store)
  unfolding sync_clock_tick
  init_pending parsed dry =
      init_run good_disk parsed
      ∙ ap
          (λ b.
            if b
            then save_pairs good_disk pairs_after (remove_manifest good_disk new_id st)
            else (0, pending_store))
          dry

  stored : find new_id (sync_manifest_save manifest st).manifests ≡ some manifest
  unfolding sync_diff
  stored = find-put_same new_id manifest st.manifests

  abbrev approved_store : Store
  approved_store = set_pairs (approve_first new_id pairs_after) pending_store

  approve_pending :
      args.approve ≡ false → sync_pair_approve good_disk new_id pending_store ≡ (0, approved_store)
  unfolding sync_clock_tick
  approve_pending dry =
      approve_found good_disk new_id pending_store spec manifest there dry stored
      ∙ ap (λ ps. (0, set_pairs (approve_first new_id ps) pending_store)) loaded

  run_approved :
      (sends : Transfer → Bool)
      → sync_pair_run good_disk sends new_id approved_store
        ≡ run_manifest good_disk sends (record spec { approved = true }) manifest approved_store
  unfolding sync_clock_tick
  run_approved sends =
      run_found good_disk sends new_id approved_store (record spec { approved = true }) manifest
        (ap (λ ps. find_pair new_id (sync_pairs_load (approve_first new_id ps))) (sym loaded)
          ∙ ap (find_pair new_id) (load_approve_first new_id pairs_after)
          ∙ find_pair-approve_first new_id (sync_pairs_load pairs_after) spec there)
        refl stored

  sent_paths :
      map (λ (t : Transfer). t.relpath) (transfers (record spec { approved = true }) manifest.ops)
      ≡ map (λ (e : List ℕ × SyncEntry). e.0) (sync_scan_dir sha256_hex (some nodes))
  unfolding sync_clock_tick sync_diff
  sent_paths =
      ap
        (λ ops. map (λ (t : Transfer). t.relpath) (transfers (record spec { approved = true }) ops))
        (append-nil (changes [] (sync_scan_dir sha256_hex (some nodes))))
      ∙ map-changes (record spec { approved = true }) (sync_scan_dir sha256_hex (some nodes))

  abbrev pub after_init : Store
  after_init = (sync_pair_init sha256_hex good_disk args (some nodes) st).1

  abbrev pub after_approve : Store
  after_approve = (sync_pair_approve good_disk new_id after_init).1

  -- Before the approval, a run of the new pair is refused and changes nothing. The writes succeed.
  pub sync_pair_run-init :
      (disk : Disk) (sends : Transfer → Bool)
      → sync_parse_peer_dir args.peer_spec ≡ some (peer, remote_dir)
      → args.approve ≡ false
      → sync_pair_run disk sends new_id after_init ≡ refuse_run 1 after_init
  unfolding sync_clock_tick
  sync_pair_run-init disk sends parsed dry =
      subst (λ s. sync_pair_run disk sends new_id s ≡ refuse_run 1 s)
        (sym (ap (λ r. r.1) (init_pending parsed dry)))
        (run_shut disk sends new_id pending_store spec there dry)

  -- `init`, `approve` and `run` of a new pair exit with 0, and the run sends each file of the scan once, in
  -- order. The writes and the transfers succeed.
  pub sync_pair_run-approve :
      (sends : Transfer → Bool)
      → sync_parse_peer_dir args.peer_spec ≡ some (peer, remote_dir)
      → args.approve ≡ false
      → ((t : Transfer) → sends t ≡ true)
      → ((sync_pair_init sha256_hex good_disk args (some nodes) st).0 ≡ 0)
        × ((sync_pair_approve good_disk new_id after_init).0 ≡ 0)
        × ((sync_pair_run good_disk sends new_id after_approve).exit_code ≡ 0)
        × (map
              (λ (t : Transfer). t.relpath)
              (sync_pair_run good_disk sends new_id after_approve).sent
            ≡ map (λ (e : List ℕ × SyncEntry). e.0) (sync_scan_dir sha256_hex (some nodes)))
  sync_pair_run-approve sends parsed dry good =
      let made = init_pending parsed dry in
      let approved : sync_pair_approve good_disk new_id after_init ≡ (0, approved_store) =
        ap (λ r. sync_pair_approve good_disk new_id r.1) made ∙ approve_pending dry in
      let ran : sync_pair_run good_disk sends new_id after_approve
          ≡ run_manifest good_disk sends (record spec { approved = true }) manifest approved_store =
        ap (λ r. sync_pair_run good_disk sends new_id r.1) approved ∙ run_approved sends in
      (
        ap (λ r. r.0) made,
        ap (λ r. r.0) approved,
        ap (λ (r : Run). r.exit_code) ran
            ∙ ap (λ n. if n == 0 then 0 else 1) (none_failed sends good _),
        ap (λ (r : Run). map (λ (t : Transfer). t.relpath) r.sent) ran ∙ sent_paths,
      )

  no_manifest :
      (disk : Disk)
      → (disk.manifest_removed ≡ true) ⊎ (find new_id st.manifests ≡ none)
      → find new_id (remove_manifest disk new_id st).manifests ≡ none
  no_manifest disk (inl removed) = rw removed (find-erase_same new_id st.manifests)
  no_manifest disk (inr fresh) = elim (Bool-cases disk.manifest_removed) [
    | inl removed ↦ rw removed (find-erase_same new_id st.manifests)
    | inr kept ↦ rw kept fresh
  ]

  -- Behind `init --approve` there is no manifest to run: nothing is sent, though the command asks for the
  -- run. No manifest with the new id is left from before, or it can be removed.
  pub sync_pair_run-approve_flag :
      (disk later : Disk) (sends : Transfer → Bool)
      → sync_parse_peer_dir args.peer_spec ≡ some (peer, remote_dir)
      → args.approve ≡ true
      → (disk.manifest_removed ≡ true) ⊎ (find new_id st.manifests ≡ none)
      → (sync_pair_run later sends new_id
          (sync_pair_init sha256_hex disk args (some nodes) st).1).sent
        ≡ []
  unfolding sync_clock_tick
  sync_pair_run-approve_flag disk later sends parsed flag unused =
      run_no_manifest later sends new_id _ (
        ap (λ (r : ℕ × Store). find new_id r.1.manifests)
          (init_run disk parsed
            ∙ ap
                (λ b.
                  if b
                  then save_pairs disk pairs_after (remove_manifest disk new_id st)
                  else (if disk.manifest_saved
                      then save_pairs disk pairs_after (sync_manifest_save manifest st)
                      else (1, st)))
                flag)
        ∙ saved_manifests disk pairs_after (remove_manifest disk new_id st) new_id
        ∙ no_manifest disk unused)
