-- ===== src/Sync/Command.antt =====
-- The commands `bs sync pair init`, `approve`, `status` and `run` of main.cpp.
use bridge_sessions.Base.{
  ℕ, ◌+◌, Bool, true, not, ◌&&◌, Option, none, some, List, [], ◌∷◌, ◌++◌, codes, ◌=b=◌, ◌==◌,
  get_or, length, ◌-◌, if◌then◌else◌,
}
use bridge_sessions.Base.TextMap.{TextMap, find, put, erase}
use bridge_sessions.Sync.Scan.{SyncIndex, Nodes, sync_scan_dir}
use bridge_sessions.Sync.Diff.{
  Kind, create, modify, delete, SyncOp, SyncManifest, sync_diff, sync_index_from_manifest,
  sync_pending_count,
}
use bridge_sessions.Sync.Pair.{
  SyncPairSpec, sync_make_pair_id, sync_parse_peer_dir, sync_clock_tick, sync_pairs_load,
}

-- The files below `state`: `sync-pairs.json`, and `sync-manifests` with a file for each pair. A file
-- that does not exist or does not parse counts as one that holds nothing.
pub record Store : Type 0 where
  pub pairs : List SyncPairSpec
  pub manifests : TextMap SyncManifest

-- Whether `sync_manifest_save`, `sync_pairs_save` and the removal of a manifest's file succeed. A file
-- that they cannot write or remove stays as it is.
pub record Disk : Type 0 where
  pub manifest_saved : Bool
  pub pairs_saved : Bool
  pub manifest_removed : Bool

abbrev pub set_pairs : List SyncPairSpec → Store → Store
set_pairs pairs st = record st { pairs = pairs }

abbrev pub sync_manifest_save : SyncManifest → Store → Store
sync_manifest_save m st = record st { manifests = put m.pair_id m st.manifests }

-- `fs::remove` of the manifest's file, of which the error is not read.
abbrev pub remove_manifest : Disk → List ℕ → Store → Store
remove_manifest disk id st = record st {
  manifests = if disk.manifest_removed then erase id st.manifests else st.manifests;
}

abbrev pub sync_manifest_load : List ℕ → Store → Option SyncManifest
sync_manifest_load id st = find id st.manifests

-- `sync_pairs_save` as the last step of a command: its exit code.
abbrev pub save_pairs : Disk → List SyncPairSpec → Store → ℕ × Store
save_pairs disk pairs st = if disk.pairs_saved then (0, set_pairs pairs st) else (1, st)

pub record InitArgs : Type 0 where
  pub local_dir : List ℕ
  pub peer_spec : List ℕ
  pub via_run_script : Bool
  pub approve : Bool

-- The new pair, before its first tick.
abbrev pub new_pair : InitArgs → List SyncPairSpec → List ℕ → List ℕ → SyncPairSpec
new_pair args pairs peer remote_dir = record {
  id = sync_make_pair_id pairs args.local_dir peer;
  local_dir = args.local_dir;
  peer = peer;
  remote_dir = remote_dir;
  clock = 0;
  via_run_script = args.via_run_script;
  approved = args.approve;
  created_at = codes "created";
}

-- The end of `init`: the pending manifest is written, or removed for an approved pair.
abbrev pub init_pair : Disk → SyncPairSpec → SyncManifest → Store → ℕ × Store
init_pair disk p m st =
    let pairs = sync_pairs_load st.pairs ++ (p ∷ []) in
    if p.approved
    then save_pairs disk pairs (remove_manifest disk p.id st)
    else (if disk.manifest_saved then save_pairs disk pairs (sync_manifest_save m st) else (1, st))

abbrev pub find_pair : List ℕ → List SyncPairSpec → Option SyncPairSpec
find_pair id [] = none
find_pair id (p ∷ pairs) = if p.id =b= id then some p else find_pair id pairs

-- `p->approved = true` of the pair that `find_pair` gives.
abbrev pub approve_first : List ℕ → List SyncPairSpec → List SyncPairSpec
approve_first id [] = []
approve_first id (p ∷ pairs) =
    let rest = approve_first id pairs in
    if p.id =b= id then record p { approved = true } ∷ pairs else p ∷ rest

abbrev pub approve_pair : Disk → List ℕ → Option SyncPairSpec → Store → ℕ × Store
approve_pair disk id none st = (1, st)
approve_pair disk id (some p) st =
    if p.approved then (0, st) else elim (sync_manifest_load p.id st) [
      | none ↦ (1, st)
      | some m ↦ save_pairs disk (approve_first id (sync_pairs_load st.pairs)) st
    ]

unfoldable pub sync_pair_approve : Disk → List ℕ → Store → ℕ × Store
sync_pair_approve disk id st =
    if length (sync_pairs_load st.pairs) == 0
    then (0, st)
    else approve_pair disk id (find_pair id (sync_pairs_load st.pairs)) st

-- A file that `run` sends: its path below the local folder, and its path on the peer.
pub record Transfer : Type 0 where
  pub from_dir : List ℕ
  pub relpath : List ℕ
  pub dest : List ℕ

-- `remote_dir.back()`; `sync_parse_peer_dir` lets no empty folder pass.
abbrev pub last_byte : List ℕ → ℕ
last_byte s = get_or s (length s - 1) 0

abbrev pub transfer_of : SyncPairSpec → SyncOp → Transfer
transfer_of p op = record {
  from_dir = p.local_dir;
  relpath = op.relpath;
  dest = p.remote_dir ++ ((if last_byte p.remote_dir == b'/' then [] else b'/' ∷ []) ++ op.relpath);
}

-- What the loop of `run` does with an operation.
abbrev pub transfer_kind : Kind → SyncPairSpec → SyncOp → List Transfer → List Transfer
transfer_kind delete p op more = more
transfer_kind create p op more = transfer_of p op ∷ more
transfer_kind modify p op more = transfer_of p op ∷ more

abbrev pub transfers : SyncPairSpec → List SyncOp → List Transfer
transfers p [] = []
transfers p (op ∷ ops) = transfer_kind op.kind p op (transfers p ops)

-- How many `file_send` refuses.
abbrev pub count_failed : (Transfer → Bool) → List Transfer → ℕ
count_failed sent [] = 0
count_failed sent (t ∷ ts) = let rest = count_failed sent ts in if sent t then rest else rest + 1

abbrev pub approve_all : List ℕ → List SyncPairSpec → List SyncPairSpec
approve_all id [] = []
approve_all id (p ∷ pairs) =
    (if p.id =b= id then record p { approved = true } else p) ∷ approve_all id pairs

-- What a run sends in order, its exit code and the files it leaves.
pub record Run : Type 0 where
  pub sent : List Transfer
  pub exit_code : ℕ
  pub store : Store

abbrev pub refuse_run : ℕ → Store → Run
refuse_run code st = record { sent = []; exit_code = code; store = st }

-- The end of `run`; the result of `sync_pairs_save` is not looked at.
abbrev pub run_manifest : Disk → (Transfer → Bool) → SyncPairSpec → SyncManifest → Store → Run
run_manifest disk sends p m st =
    let pairs = approve_all p.id (sync_pairs_load st.pairs) in
    let rest = remove_manifest disk p.id st in
    record {
      sent = transfers p m.ops;
      exit_code = if count_failed sends (transfers p m.ops) == 0 then 0 else 1;
      store = if disk.pairs_saved then set_pairs pairs rest else rest;
    }

abbrev pub run_pair : Disk → (Transfer → Bool) → Option SyncPairSpec → Store → Run
run_pair disk sends none st = refuse_run 1 st
run_pair disk sends (some p) st =
    if p.approved
    then elim (sync_manifest_load p.id st) [
      | none ↦ refuse_run 1 st
      | some m ↦ run_manifest disk sends p m st
    ]
    else refuse_run 1 st

-- `sends` tells which transfers `file_send` of the mesh controller carries out.
unfoldable pub sync_pair_run : Disk → (Transfer → Bool) → List ℕ → Store → Run
sync_pair_run disk sends id st =
    if length (sync_pairs_load st.pairs) == 0
    then refuse_run 0 st
    else run_pair disk sends (find_pair id (sync_pairs_load st.pairs)) st

-- What `status` takes to be on the peer.
abbrev pub applied_of : Option SyncManifest → SyncIndex
applied_of none = []
applied_of (some prev) = sync_index_from_manifest prev

module _ (sha256_hex : List ℕ → List ℕ) where
  abbrev pub init_peer : Disk → InitArgs → Nodes → List ℕ × List ℕ → Store → ℕ × Store
  init_peer disk args nodes (peer, remote_dir) st =
      let p = sync_clock_tick (new_pair args (sync_pairs_load st.pairs) peer remote_dir) in
      let m = sync_diff p.id [] (sync_scan_dir sha256_hex (some nodes)) p.clock in
      init_pair disk p m st

  -- The guards of `init`: what the peer and the folder are, none for a wrong one.
  abbrev pub init_checked :
      Disk → InitArgs → Option (List ℕ × List ℕ) → Option Nodes → Store → ℕ × Store
  init_checked disk args none root st = (2, st)
  init_checked disk args (some parts) none st = (2, st)
  init_checked disk args (some parts) (some nodes) st = init_peer disk args nodes parts st

  -- `root` is what the local folder holds; none when it is no folder. The exit code and the files.
  unfoldable pub sync_pair_init : Disk → InitArgs → Option Nodes → Store → ℕ × Store
  sync_pair_init disk args root st =
      init_checked disk args (sync_parse_peer_dir args.peer_spec) root st

  -- A line of `status`: the number of files, and that of pending changes.
  abbrev pub status_of : (List ℕ → Option Nodes) → Store → SyncPairSpec → ℕ × ℕ
  status_of folders st p =
      let current = sync_scan_dir sha256_hex (folders p.local_dir) in
      let applied = applied_of (sync_manifest_load p.id st) in
      (length current, sync_pending_count (sync_diff p.id applied current p.clock))

  abbrev pub status_lines :
      (List ℕ → Option Nodes) → List ℕ → Store → List SyncPairSpec → List (List ℕ × (ℕ × ℕ))
  status_lines folders id st [] = []
  status_lines folders id st (p ∷ pairs) =
      let rest = status_lines folders id st pairs in
      if not (id =b= []) && not (p.id =b= id) then rest else (p.id, status_of folders st p) ∷ rest

  unfoldable pub sync_pair_status :
      (List ℕ → Option Nodes) → List ℕ → Store → List (List ℕ × (ℕ × ℕ))
  sync_pair_status folders id st = status_lines folders id st (sync_pairs_load st.pairs)
