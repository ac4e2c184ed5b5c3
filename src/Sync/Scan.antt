-- ===== src/Sync/Scan.antt =====
-- What of a folder goes to the peer: the exclusions and `sync_scan_dir` of bs-sync-pair.h.
pub mod Excluded
use bridge_sessions.Base.{
  ℕ, Bool, true, false, ◌&&◌, ◌||◌, not, Option, none, some, List, [], ◌∷◌, ◌++◌, codes, ◌=b=◌,
  starts_with, ends_with, contains, ltb, length, if◌then◌else◌,
}
use bridge_sessions.Base.TextMap.{TextMap, put}

unfoldable pub sync_excluded_dir : List ℕ → Bool
sync_excluded_dir name =
    (name =b= codes ".git")
    || (name =b= codes ".bridgesessions")
    || (name =b= codes ".bs-sync")
    || (name =b= codes "node_modules")

unfoldable pub sync_excluded_file : List ℕ → Bool
sync_excluded_file name =
    starts_with (codes ".env") name
    || (name =b= codes "id_rsa")
    || (name =b= codes "id_ed25519")
    || (name =b= codes "secrets")
    || (name =b= codes "secrets.json")
    || (name =b= codes "credentials.json")
    || (name =b= codes ".netrc")
    || (ltb 4 (length name) && ends_with (codes ".pem") name)
    || (ltb 4 (length name) && ends_with (codes ".key") name)
    || contains (codes ".secret") name
    || contains (codes ".conflict-") name
    || starts_with (codes ".tmp-bs") name

pub record SyncEntry : Type 0 where
  pub relpath : List ℕ
  pub size : ℕ
  pub sha256 : List ℕ

abbrev pub SyncIndex : Type 0
SyncIndex = TextMap SyncEntry

-- What a folder holds, in the order of the walk. `unreadable` is an entry whose kind, size or relative
-- path the file system does not tell.
mutual
  pub data Node : Type 0 where
    symlink : Node
    folder : Nodes → Node
    regular : List ℕ → Node
    unreadable : Node

  pub data Nodes : Type 0 where
    done : Nodes
    entry : List ℕ → Node → Nodes → Nodes

-- The path of an entry `name` in the folder `rel`; the root's path is empty.
abbrev pub join : List ℕ → List ℕ → List ℕ
join [] name = name
join (c ∷ rel) name = (c ∷ rel) ++ (b'/' ∷ name)

-- The SHA-256 of a file, in hexadecimal, is OpenSSL's.
module _ (sha256_hex : List ℕ → List ℕ) where
  abbrev pub entry_of : List ℕ → List ℕ → SyncEntry
  entry_of rel content = record {
    relpath = rel;
    size = length content;
    sha256 = sha256_hex content;
  }

  abbrev pub scan_regular : List ℕ → List ℕ → List ℕ → SyncIndex → SyncIndex
  scan_regular rel name content idx =
      if sync_excluded_file name
      then idx
      else put (join rel name) (entry_of (join rel name) content) idx

  unfoldable mutual
    pub scan_node : List ℕ → List ℕ → Node → SyncIndex → SyncIndex
    scan_node rel name symlink idx = idx
    scan_node rel name (folder nodes) idx =
        let inside = scan_nodes (join rel name) nodes idx in
        if sync_excluded_dir name then idx else inside
    scan_node rel name (regular content) idx = scan_regular rel name content idx
    scan_node rel name unreadable idx = idx

    pub scan_nodes : List ℕ → Nodes → SyncIndex → SyncIndex
    scan_nodes rel done idx = idx
    scan_nodes rel (entry name node behind) idx =
        scan_nodes rel behind (scan_node rel name node idx)

  -- What the root holds; none when it is no folder.
  unfoldable pub sync_scan_dir : Option Nodes → SyncIndex
  sync_scan_dir none = []
  sync_scan_dir (some nodes) = scan_nodes [] nodes []
