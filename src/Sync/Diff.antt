-- ===== src/Sync/Diff.antt =====
-- Manifests: `sync_diff` and `sync_index_from_manifest` of bs-sync-pair.h.
use bridge_sessions.Base.{
  ℕ, not, Option, none, some, List, [], ◌∷◌, ◌++◌, ◌=b=◌, length, if◌then◌else◌,
}
use bridge_sessions.Base.TextMap.{find, put, erase}
use bridge_sessions.Sync.Scan.{SyncEntry, SyncIndex}

-- The `kind` of an operation; the code writes it as a text.
pub data Kind : Type 0 where
  create : Kind
  modify : Kind
  delete : Kind

pub record SyncOp : Type 0 where
  pub kind : Kind
  pub relpath : List ℕ
  pub size : ℕ
  pub sha256 : List ℕ

pub record SyncManifest : Type 0 where
  pub pair_id : List ℕ
  pub clock : ℕ
  pub ops : List SyncOp

abbrev pub op_of : Kind → List ℕ → SyncEntry → SyncOp
op_of kind rel e = record { kind = kind; relpath = rel; size = e.size; sha256 = e.sha256 }

-- The body of the first loop, by what `prev.find(rel)` gives.
abbrev pub classify : List ℕ → SyncEntry → Option SyncEntry → List SyncOp → List SyncOp
classify rel e none more = op_of create rel e ∷ more
classify rel e (some old) more =
    if not (old.sha256 =b= e.sha256) then op_of modify rel e ∷ more else more

abbrev pub changes : SyncIndex → SyncIndex → List SyncOp
changes prev [] = []
changes prev ((rel, e) ∷ current) = classify rel e (find rel prev) (changes prev current)

abbrev pub tombstone : List ℕ → Option SyncEntry → List SyncOp → List SyncOp
tombstone rel none more = record { kind = delete; relpath = rel; size = 0; sha256 = [] } ∷ more
tombstone rel (some e) more = more

abbrev pub tombstones : SyncIndex → SyncIndex → List SyncOp
tombstones current [] = []
tombstones current ((rel, e) ∷ prev) = tombstone rel (find rel current) (tombstones current prev)

unfoldable pub sync_diff : List ℕ → SyncIndex → SyncIndex → ℕ → SyncManifest
sync_diff pair_id prev current clock_after_tick = record {
  pair_id = pair_id;
  clock = clock_after_tick;
  ops = changes prev current ++ tombstones current prev;
}

unfoldable pub sync_pending_count : SyncManifest → ℕ
sync_pending_count m = length m.ops

-- The body of the loop of `sync_index_from_manifest`.
abbrev pub apply_kind : Kind → SyncOp → SyncIndex → SyncIndex
apply_kind delete op idx = erase op.relpath idx
apply_kind create op idx =
    put op.relpath (record { relpath = op.relpath; size = op.size; sha256 = op.sha256 }) idx
apply_kind modify op idx =
    put op.relpath (record { relpath = op.relpath; size = op.size; sha256 = op.sha256 }) idx

abbrev pub apply_ops : List SyncOp → SyncIndex → SyncIndex
apply_ops [] idx = idx
apply_ops (op ∷ ops) idx = apply_ops ops (apply_kind op.kind op idx)

unfoldable pub sync_index_from_manifest : SyncManifest → SyncIndex
sync_index_from_manifest m = apply_ops m.ops []
