-- ===== src/Sync/Scan/Excluded.antt =====
-- A scan finds the files that no exclusion covers, and nothing else.
use bridge_sessions.Base.{
  ℕ, Bool, true, false, ◌≡◌, refl, sym, ap, subst, ◌∙◌, ◌⊎◌, inl, inr, Option, none, some, List, [],
  ◌=b=◌, =b=_eq, arith, Bool-cases, if◌then◌else◌,
}
use bridge_sessions.Base.TextMap.{
  find, put, IsSorted, find-put_same, find-put, find-put_other, put-IsSorted,
}
use bridge_sessions.Sync.Scan.{
  sync_excluded_dir, sync_excluded_file, SyncEntry, SyncIndex, Node, Nodes, symlink, folder,
  regular, unreadable, done, entry, join, entry_of, scan_regular, scan_node, scan_nodes,
  sync_scan_dir,
}

module _ (sha256_hex : List ℕ → List ℕ) where
  -- The entry of a file at `path` below the folder `rel`, when no name on the way to it is excluded.
  mutual
    pub data InNode : List ℕ → List ℕ → Node → List ℕ → SyncEntry → Type 0 where
      file :
          {rel name content : List ℕ}
          → sync_excluded_file name ≡ false
          → InNode rel name
              (regular content)
              (join rel name)
              (entry_of sha256_hex (join rel name) content)
      inside :
          {rel name path : List ℕ} {nodes : Nodes} {e : SyncEntry}
          → sync_excluded_dir name ≡ false
          → InNodes (join rel name) nodes path e
          → InNode rel name (folder nodes) path e

    pub data InNodes : List ℕ → Nodes → List ℕ → SyncEntry → Type 0 where
      first :
          {rel name path : List ℕ} {node : Node} {behind : Nodes} {e : SyncEntry}
          → InNode rel name node path e
          → InNodes rel (entry name node behind) path e
      later :
          {rel name path : List ℕ} {node : Node} {behind : Nodes} {e : SyncEntry}
          → InNodes rel behind path e
          → InNodes rel (entry name node behind) path e

  some-injective : (a b : SyncEntry) → some a ≡ some b → a ≡ b
  some-injective a b e = ap (λ o. elim o [ none ↦ a | some x ↦ x ]) e

  put-InNode :
      (rel name content : List ℕ) (idx : SyncIndex) (path : List ℕ) (e : SyncEntry) (hit : Bool)
      → (path =b= join rel name) ≡ hit
      → sync_excluded_file name ≡ false
      → (if hit then some (entry_of sha256_hex (join rel name) content) else find path idx) ≡ some e
      → (find path idx ≡ some e) ⊎ InNode rel name (regular content) path e
  put-InNode rel name content idx path e false other kept found = inl found
  put-InNode rel name content idx path e true same kept found = inr (
      subst (λ p. InNode rel name (regular content) p e) (sym (=b=_eq path (join rel name) same))
        (subst (InNode rel name (regular content) (join rel name)) (some-injective _ e found)
          (file kept)))

  regular-InNode :
      (rel name content : List ℕ) (idx : SyncIndex) (path : List ℕ) (e : SyncEntry) (skip : Bool)
      → sync_excluded_file name ≡ skip
      → find path (
          if skip
          then idx
          else put (join rel name) (entry_of sha256_hex (join rel name) content) idx)
        ≡ some e
      → (find path idx ≡ some e) ⊎ InNode rel name (regular content) path e
  regular-InNode rel name content idx path e true skipped found = inl found
  regular-InNode rel name content idx path e false kept found =
      put-InNode rel name content idx path e (path =b= join rel name) refl kept (
        sym (find-put (join rel name) path (entry_of sha256_hex (join rel name) content) idx)
        ∙ found)

  folder-InNode :
      (rel name : List ℕ) (nodes : Nodes) (idx inner : SyncIndex) (path : List ℕ) (e : SyncEntry)
      (skip : Bool)
      → sync_excluded_dir name ≡ skip
      → (find path inner ≡ some e → (find path idx ≡ some e) ⊎ InNodes (join rel name) nodes path e)
      → find path (if skip then idx else inner) ≡ some e
      → (find path idx ≡ some e) ⊎ InNode rel name (folder nodes) path e
  folder-InNode rel name nodes idx inner path e true skipped back found = inl found
  folder-InNode rel name nodes idx inner path e false kept back found = elim (back found) [
    | inl before ↦ inl before
    | inr new ↦ inr (inside kept new)
  ]

  mutual
    unfolding scan_node

    node-InNode :
        (rel name : List ℕ) (node : Node) (idx : SyncIndex) (path : List ℕ) (e : SyncEntry)
        → find path (scan_node sha256_hex rel name node idx) ≡ some e
        → (find path idx ≡ some e) ⊎ InNode rel name node path e
    node-InNode rel name symlink idx path e found = inl found
    node-InNode rel name unreadable idx path e found = inl found
    node-InNode rel name (regular content) idx path e found =
        regular-InNode rel name content idx path e (sync_excluded_file name) refl found
    node-InNode rel name (folder nodes) idx path e found =
        folder-InNode rel name nodes idx (scan_nodes sha256_hex (join rel name) nodes idx) path e
          (sync_excluded_dir name) refl (nodes-InNodes (join rel name) nodes idx path e) found

    nodes-InNodes :
        (rel : List ℕ) (nodes : Nodes) (idx : SyncIndex) (path : List ℕ) (e : SyncEntry)
        → find path (scan_nodes sha256_hex rel nodes idx) ≡ some e
        → (find path idx ≡ some e) ⊎ InNodes rel nodes path e
    nodes-InNodes rel done idx path e found = inl found
    nodes-InNodes rel (entry name node behind) idx path e found =
        elim (nodes-InNodes rel behind (scan_node sha256_hex rel name node idx) path e found) [
          | inr more ↦ inr (later more)
          | inl here ↦ elim (node-InNode rel name node idx path e here) [
            | inl before ↦ inl before
            | inr new ↦ inr (first new)
          ]
        ]

  abbrev Found : List ℕ → SyncIndex → Type 0
  Found path idx = (e : SyncEntry) × (find path idx ≡ some e)

  put-Found :
      (path key : List ℕ) (a : SyncEntry) (idx : SyncIndex)
      → Found path idx
      → Found path (put key a idx)
  put-Found path key a idx (e, found) = elim (Bool-cases (path =b= key)) [
    | inl same ↦ (a, find-put key path a idx ∙ ap (λ b. if b then some a else find path idx) same)
    | inr other ↦ (e, find-put_other key path a idx other ∙ found)
  ]

  regular-Found :
      (path rel name content : List ℕ) (idx : SyncIndex)
      → Found path idx
      → Found path (scan_regular sha256_hex rel name content idx)
  regular-Found path rel name content idx f = elim (Bool-cases (sync_excluded_file name)) [
    | inl skipped ↦ rw skipped f
    | inr kept ↦ rw kept (put-Found path _ _ idx f)
  ]

  -- A scan keeps what was found before.
  mutual
    unfolding scan_node

    node-Found :
        (path rel name : List ℕ) (node : Node) (idx : SyncIndex)
        → Found path idx
        → Found path (scan_node sha256_hex rel name node idx)
    node-Found path rel name symlink idx f = f
    node-Found path rel name unreadable idx f = f
    node-Found path rel name (regular content) idx f = regular-Found path rel name content idx f
    node-Found path rel name (folder nodes) idx f = elim (Bool-cases (sync_excluded_dir name)) [
      | inl skipped ↦ rw skipped f
      | inr kept ↦ rw kept (nodes-Found path (join rel name) nodes idx f)
    ]

    nodes-Found :
        (path rel : List ℕ) (nodes : Nodes) (idx : SyncIndex)
        → Found path idx
        → Found path (scan_nodes sha256_hex rel nodes idx)
    nodes-Found path rel done idx f = f
    nodes-Found path rel (entry name node behind) idx f =
        nodes-Found path rel behind _ (node-Found path rel name node idx f)

  -- A scan finds what is in the folder.
  mutual
    unfolding scan_node

    InNode-Found :
        {path rel name : List ℕ} {node : Node} {e : SyncEntry} (idx : SyncIndex)
        → InNode rel name node path e
        → Found path (scan_node sha256_hex rel name node idx)
    InNode-Found idx (file {rel} {name} {content} kept) =
        rw kept (entry_of sha256_hex (join rel name) content, find-put_same (join rel name) _ idx)
    InNode-Found idx (inside {rel} {name} {path} {nodes} {e} kept within) =
        rw kept (InNodes-Found idx within)

    InNodes-Found :
        {path rel : List ℕ} {nodes : Nodes} {e : SyncEntry} (idx : SyncIndex)
        → InNodes rel nodes path e
        → Found path (scan_nodes sha256_hex rel nodes idx)
    InNodes-Found idx (first {rel} {name} {path} {node} {behind} {e} here) =
        nodes-Found path rel behind _ (InNode-Found idx here)
    InNodes-Found idx (later {rel} {name} {path} {node} {behind} {e} there) = InNodes-Found _ there

  mutual
    unfolding scan_node

    node-IsSorted :
        (rel name : List ℕ) (node : Node) (idx : SyncIndex)
        → IsSorted idx
        → IsSorted (scan_node sha256_hex rel name node idx)
    node-IsSorted rel name symlink idx u = u
    node-IsSorted rel name unreadable idx u = u
    node-IsSorted rel name (regular content) idx u = elim (Bool-cases (sync_excluded_file name)) [
      | inl skipped ↦ rw skipped u
      | inr kept ↦ rw kept (put-IsSorted _ _ idx u)
    ]
    node-IsSorted rel name (folder nodes) idx u = elim (Bool-cases (sync_excluded_dir name)) [
      | inl skipped ↦ rw skipped u
      | inr kept ↦ rw kept (nodes-IsSorted (join rel name) nodes idx u)
    ]

    nodes-IsSorted :
        (rel : List ℕ) (nodes : Nodes) (idx : SyncIndex)
        → IsSorted idx
        → IsSorted (scan_nodes sha256_hex rel nodes idx)
    nodes-IsSorted rel done idx u = u
    nodes-IsSorted rel (entry name node behind) idx u =
        nodes-IsSorted rel behind _ (node-IsSorted rel name node idx u)

  -- The index that a scan makes has each path once, in order.
  pub sync_scan_dir-IsSorted : (root : Option Nodes) → IsSorted (sync_scan_dir sha256_hex root)
  unfolding sync_scan_dir
  sync_scan_dir-IsSorted none = tt
  sync_scan_dir-IsSorted (some nodes) = nodes-IsSorted [] nodes [] tt

  -- The entries of a scan are those of regular files, with their size and their SHA-256, of which neither
  -- the name nor that of a folder above it is excluded; each such file's path has an entry. Every file
  -- can be read.
  pub sync_scan_dir-InNodes :
      (nodes : Nodes) (path : List ℕ)
      → ((e : SyncEntry)
          → find path (sync_scan_dir sha256_hex (some nodes)) ≡ some e
          → InNodes [] nodes path e)
        × ((e : SyncEntry)
            → InNodes [] nodes path e
            → (found : SyncEntry) × (find path (sync_scan_dir sha256_hex (some nodes))
                ≡ some found))
  unfolding sync_scan_dir
  sync_scan_dir-InNodes nodes path = (
    λ e found. elim (nodes-InNodes [] nodes [] path e found) [
      | inl before ↦ absurd (ground arith)
      | inr new ↦ new
    ],
    λ e there. InNodes-Found [] there,
  )
