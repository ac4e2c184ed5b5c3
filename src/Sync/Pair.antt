-- ===== src/Sync/Pair.antt =====
-- Pair specifications of bs-sync-pair.h: their ids, their clocks and the command's `peer:dir`.
use bridge_sessions.Base.{
  ℕ, zero, suc, ◌+◌, ◌%◌, ◌^◌, Bool, false, ◌&&◌, ◌||◌, Option, none, some, List, [], ◌∷◌, ◌++◌,
  map, codes, ◌=b=◌, ◌==◌, is_alnum, get_or, leb, length, if◌then◌else◌,
}
use bridge_sessions.Base.Decimal.{decimal}
use bridge_sessions.Names.{behind_last_slash, has_slash}

pub record SyncPairSpec : Type 0 where
  pub id : List ℕ
  pub local_dir : List ℕ
  pub peer : List ℕ
  pub remote_dir : List ℕ
  pub clock : ℕ
  pub via_run_script : Bool
  pub approved : Bool
  pub created_at : List ℕ

-- `taken` of `sync_make_pair_id`
abbrev pub taken : List SyncPairSpec → List ℕ → Bool
taken [] s = false
taken (p ∷ existing) s = (p.id =b= s) || taken existing s

-- `fs::path(local_dir).filename()` is what follows the last slash.
abbrev pub base_of : List ℕ → List ℕ
base_of local_dir =
    let base = behind_last_slash local_dir in
    if (base =b= []) || (base =b= codes "/") || (base =b= codes ".") then codes "dir" else base

abbrev pub safe_char : ℕ → ℕ
safe_char c = if is_alnum c || (c == b'.') || (c == b'_') || (c == b'-') then c else b'-'

-- The first id of the loop, and the next ones.
abbrev pub first_id : List ℕ → List ℕ → List ℕ
first_id safe peer = safe ++ (b'-' ∷ peer)

abbrev pub numbered_id : List ℕ → List ℕ → ℕ → List ℕ
numbered_id safe peer n = first_id safe peer ++ (b'-' ∷ decimal n)

-- `while (taken(id))`, with a bound on the rounds.
abbrev pub next_id : ℕ → List SyncPairSpec → List ℕ → List ℕ → List ℕ → ℕ → List ℕ
next_id zero existing safe peer id n = id
next_id (suc fuel) existing safe peer id n =
    let next = next_id fuel existing safe peer (numbered_id safe peer n) (n + 1) in
    if taken existing id then next else id

-- Each round passes an id that a pair has: two more rounds than pairs are enough.
unfoldable pub sync_make_pair_id : List SyncPairSpec → List ℕ → List ℕ → List ℕ
sync_make_pair_id existing local_dir peer =
    let safe = map safe_char (base_of local_dir) in
    next_id (suc (suc (length existing))) existing safe peer (first_id safe peer) 2

-- `spec.substr(0, colon)` and `spec.substr(colon + 1)`; none without a colon.
abbrev pub at_colon : List ℕ → Option (List ℕ × List ℕ)
at_colon [] = none
at_colon (c ∷ spec) =
    let rest = at_colon spec in
    if c == b':'
    then some ([], spec)
    else elim rest [ none ↦ none | some parts ↦ some (c ∷ parts.0, parts.1) ]

abbrev pub check_peer_dir : List ℕ × List ℕ → Option (List ℕ × List ℕ)
check_peer_dir (peer, remote_dir) =
    if (peer =b= [])
      || (remote_dir =b= [])
      || (leb 2 (length remote_dir) && (get_or remote_dir 1 0 == b':'))
      || has_slash peer
    then none
    else some (peer, remote_dir)

-- The peer and the folder on it; none where the code answers false.
unfoldable pub sync_parse_peer_dir : List ℕ → Option (List ℕ × List ℕ)
sync_parse_peer_dir spec = elim (at_colon spec) [ none ↦ none | some parts ↦ check_peer_dir parts ]

-- `++p.clock`: the pair behind it, whose clock is what it returns.
unfoldable pub sync_clock_tick : SyncPairSpec → SyncPairSpec
sync_clock_tick p = record p { clock = (p.clock + 1) % 2 ^ 64 }

-- `sync_pairs_load` drops the entries without an id.
unfoldable pub sync_pairs_load : List SyncPairSpec → List SyncPairSpec
sync_pairs_load [] = []
sync_pairs_load (p ∷ file) =
    let rest = sync_pairs_load file in if p.id =b= [] then rest else p ∷ rest
