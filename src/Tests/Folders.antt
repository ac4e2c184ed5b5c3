-- ===== src/Tests/Folders.antt =====
-- A folder pair at concrete files, with a stand-in for SHA-256 that gives the content itself.
use bridge_sessions.Base.{
  ℕ, ◌≡◌, inl, ◌≢◌, ◌↔◌, refl, sym, ap, ◌∙◌, true, false, some, List, [], ◌∷◌, map, codes, Bool,
}
use bridge_sessions.Base.TextMap.{find, IsSorted}
use bridge_sessions.Sync.Scan.{
  SyncEntry, SyncIndex, Nodes, folder, regular, done, entry, sync_excluded_dir, sync_excluded_file,
  sync_scan_dir, scan_node,
}
use bridge_sessions.Sync.Scan.Excluded.{InNodes, sync_scan_dir-IsSorted, sync_scan_dir-InNodes}
use bridge_sessions.Sync.Diff.{sync_diff, apply_ops, sync_pending_count}
use bridge_sessions.Sync.Converge.{SameContent, apply_ops-sync_diff}
use bridge_sessions.Sync.Settled.{sync_pending_count-SameContent}
use bridge_sessions.Sync.Pair.{SyncPairSpec, taken, sync_make_pair_id, sync_parse_peer_dir}
use bridge_sessions.Sync.Fresh.{sync_make_pair_id-taken}
use bridge_sessions.Sync.Command.{
  Store, Disk, InitArgs, Transfer, refuse_run, sync_pair_init, sync_pair_approve, sync_pair_run,
}
use bridge_sessions.Sync.Gate.{IsApproved, sync_pair_run-IsApproved}
use bridge_sessions.Sync.Again.{sync_pair_run-again}
use bridge_sessions.Sync.Outcome.{good_disk}
use bridge_sessions.Sync.Cycle.{
  after_init, after_approve, new_id, sync_pair_run-init, sync_pair_run-approve,
  sync_pair_run-approve_flag,
}

abbrev plain_hash : List ℕ → List ℕ
plain_hash content = content

-- A file, a secret and a folder that is passed over.
abbrev home : Nodes
home = entry (codes "b.txt") (regular (codes "new")) (
    entry (codes ".env") (regular (codes "key")) (
      entry (codes ".git") (folder (entry (codes "x") (regular []) done))
        (entry (codes "a.txt") (regular (codes "old")) done)))

abbrev scanned : SyncIndex
scanned = sync_scan_dir plain_hash (some home)

abbrev before : SyncIndex
before =
    sync_scan_dir plain_hash
      (some (entry (codes "b.txt") (regular []) (entry (codes "c.txt") (regular []) done)))

scanned_paths : map (λ (e : List ℕ × SyncEntry). e.0) scanned ≡ codes "a.txt" ∷ codes "b.txt" ∷ []
unfolding sync_scan_dir scan_node sync_excluded_file sync_excluded_dir
scanned_paths = refl

sync_scan_dir-InNodes_example :
    ((e : SyncEntry)
      → find (codes "a.txt") scanned ≡ some e
      → InNodes plain_hash [] home (codes "a.txt") e)
    × ((e : SyncEntry)
        → InNodes plain_hash [] home (codes "a.txt") e
        → (found : SyncEntry) × (find (codes "a.txt") scanned ≡ some found))
sync_scan_dir-InNodes_example = sync_scan_dir-InNodes plain_hash home (codes "a.txt")

before-IsSorted : IsSorted before
before-IsSorted = sync_scan_dir-IsSorted plain_hash _

scanned-IsSorted : IsSorted scanned
scanned-IsSorted = sync_scan_dir-IsSorted plain_hash (some home)

apply_ops-sync_diff_example :
    SameContent (apply_ops (sync_diff (codes "p") before scanned 2).ops before) scanned
apply_ops-sync_diff_example = apply_ops-sync_diff (codes "p") before scanned 2 scanned-IsSorted

sync_pending_count-SameContent_example :
    (sync_pending_count (sync_diff (codes "p") before scanned 2) ≡ 0) ↔ SameContent before scanned
sync_pending_count-SameContent_example =
    sync_pending_count-SameContent (codes "p") before scanned 2 before-IsSorted scanned-IsSorted

abbrev args : Bool → InitArgs
args approve = record {
  local_dir = codes "/home/me/proj";
  peer_spec = codes "hub:/srv/proj/";
  via_run_script = false;
  approve = approve;
}

abbrev fresh : Store
fresh = record { pairs = []; manifests = [] }

parsed : sync_parse_peer_dir (codes "hub:/srv/proj/") ≡ some (codes "hub", codes "/srv/proj/")
unfolding sync_parse_peer_dir
parsed = refl

abbrev old_pair : SyncPairSpec
old_pair = record {
  id = codes "proj-hub";
  local_dir = [];
  peer = codes "hub";
  remote_dir = codes "/x";
  clock = 1;
  via_run_script = false;
  approved = false;
  created_at = [];
}

sync_make_pair_id-taken_example :
    taken (old_pair ∷ []) (sync_make_pair_id (old_pair ∷ []) (codes "/home/me/proj") (codes "hub"))
    ≡ false
sync_make_pair_id-taken_example =
    sync_make_pair_id-taken (old_pair ∷ []) (codes "/home/me/proj") (codes "hub")

abbrev my_id : List ℕ
my_id = new_id plain_hash (args false) home (codes "hub") (codes "/srv/proj/") fresh

abbrev always : Transfer → Bool
always t = true

sync_pair_run-init_example :
    sync_pair_run good_disk always my_id
      (after_init plain_hash (args false) home (codes "hub") (codes "/srv/proj/") fresh)
    ≡ refuse_run 1
        (after_init plain_hash (args false) home (codes "hub") (codes "/srv/proj/") fresh)
sync_pair_run-init_example =
    sync_pair_run-init plain_hash (args false) home (codes "hub") (codes "/srv/proj/") fresh
      good_disk always parsed refl

abbrev ready : Store
ready = after_approve plain_hash (args false) home (codes "hub") (codes "/srv/proj/") fresh

sync_pair_run-approve_example :
    ((sync_pair_init plain_hash good_disk (args false) (some home) fresh).0 ≡ 0)
    × ((sync_pair_approve good_disk my_id
          (after_init plain_hash (args false) home (codes "hub") (codes "/srv/proj/") fresh)).0
        ≡ 0)
    × ((sync_pair_run good_disk always my_id ready).exit_code ≡ 0)
    × (map (λ (t : Transfer). t.relpath) (sync_pair_run good_disk always my_id ready).sent
        ≡ map (λ (e : List ℕ × SyncEntry). e.0) scanned)
sync_pair_run-approve_example =
    sync_pair_run-approve plain_hash (args false) home (codes "hub") (codes "/srv/proj/") fresh
      always parsed refl (λ t. refl)

sync_pair_run-approve_flag_example :
    (sync_pair_run good_disk always my_id
      (sync_pair_init plain_hash good_disk (args true) (some home) fresh).1).sent
    ≡ []
sync_pair_run-approve_flag_example =
    sync_pair_run-approve_flag plain_hash (args true) home (codes "hub") (codes "/srv/proj/") fresh
      good_disk good_disk always parsed refl (inl refl)

-- A state folder in which nothing can be written.
abbrev read_only : Disk
read_only = record { manifest_saved = false; pairs_saved = false; manifest_removed = false }

sync_pair_run-again_example :
    (sync_pair_run good_disk always my_id (sync_pair_run read_only always my_id ready).store).sent
    ≡ (sync_pair_run good_disk always my_id ready).sent
sync_pair_run-again_example = sync_pair_run-again read_only good_disk always always my_id ready

some_sent : (sync_pair_run good_disk always my_id ready).sent ≢ []
some_sent nothing =
    let cycle =
      sync_pair_run-approve plain_hash (args false) home (codes "hub") (codes "/srv/proj/") fresh
        always parsed refl (λ t. refl) in
    let paths = sym (ap (map (λ (t : Transfer). t.relpath)) nothing) ∙ cycle.3 ∙ scanned_paths in cc

sync_pair_run-IsApproved_example :
    IsApproved my_id ready (sync_pair_run good_disk always my_id ready).sent
sync_pair_run-IsApproved_example = sync_pair_run-IsApproved good_disk always my_id ready some_sent
