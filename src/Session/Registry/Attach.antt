-- ===== src/Session/Registry/Attach.antt =====
-- `attach_connection`: a connection joins a session, which is created or respawned for it.
use bridge_sessions.Base.{
  ℕ, ◌+◌, ◌%◌, ◌^◌, Bool, true, false, not, ◌&&◌, ◌||◌, Option, none, some, List, [], ◌∷◌, ◌++◌,
  ◌=b=◌, ◌==◌, leb, length, if◌then◌else◌,
}
use bridge_sessions.Base.Signed.{negsuc}
use bridge_sessions.Base.TextMap.{find, put}
use bridge_sessions.Session.Registry.{
  attached, is_live, SessionCommandSource, client_override, named_profile, config_default,
  classify_session_kind, Attachment, Runtime, Session, Registry, SessionHistoryEntry,
  record_history, min_size, apply_min_geometry,
}

pub record AttachArgs : Type 0 where
  pub name : List ℕ
  pub command : List ℕ
  pub source : SessionCommandSource
  pub cols : ℕ
  pub rows : ℕ
  pub pubkey : List ℕ
  pub spectator : Bool
  pub require_existing_live : Bool

-- The time, whether the old worker is gone in time, and what `spawn_session_runtime` gives.
pub record Host : Type 0 where
  pub now : ℕ
  pub stopped : Bool
  pub spawned : Option Runtime

-- A name without blanks and control characters.
abbrev pub all_named : List ℕ → Bool
all_named [] = true
all_named (ch ∷ name) = not (leb ch 0x20 || (ch == 0x7f)) && all_named name

abbrev pub is_session_name : List ℕ → Bool
is_session_name name = not (name =b= []) && all_named name

abbrev pub is_override : SessionCommandSource → Bool
is_override client_override = true
is_override named_profile = false
is_override config_default = false

abbrev pub force_respawn : AttachArgs → Bool
force_respawn args =
    not args.require_existing_live && is_override args.source && not (args.command =b= [])

abbrev pub has_peer : List ℕ → List (List ℕ) → Bool
has_peer key [] = false
has_peer key (p ∷ peers) = (p =b= key) || has_peer key peers

abbrev pub join_peer : List ℕ → List (List ℕ) → List (List ℕ)
join_peer key peers =
    if not (key =b= []) && not (has_peer key peers) then peers ++ (key ∷ []) else peers

-- The session that the attachment goes to, the list of recent sessions, and whether it is ready; the
-- session is stored in any case.
pub record Prepared : Type 0 where
  pub stored : Option Session
  pub recent : List SessionHistoryEntry
  pub ready : Bool

abbrev pub reattach : AttachArgs → Session → Session
reattach args s = record s { state = attached; peer_ids = join_peer args.pubkey s.peer_ids }

-- `release_exited_runtime`
abbrev pub release_exited_runtime : Session → Session
release_exited_runtime s = record s {
  runtime = record s.runtime { hosted = false; is_open = false };
}

-- `install_spawned_runtime`: all but the runtime and the state stays.
abbrev pub install_spawned_runtime : Session → Runtime → Session
install_spawned_runtime s runtime = record s {
  runtime = runtime;
  state = attached;
  history_recorded = false;
}

abbrev pub install : AttachArgs → Option Runtime → List SessionHistoryEntry → Session → Prepared
install args none recent s = record { stored = some s; recent = recent; ready = false }
install args (some runtime) recent s = record {
  stored = some (reattach args (install_spawned_runtime s runtime));
  recent = recent;
  ready = true;
}

-- The session's old worker is retired first when the command is replaced.
abbrev pub respawn : Host → AttachArgs → List SessionHistoryEntry → Session → Prepared
respawn host args recent s =
    if force_respawn args && s.runtime.hosted
    then (if host.stopped
        then install args host.spawned recent (release_exited_runtime s)
        else record { stored = some s; recent = recent; ready = false })
    else install args host.spawned recent s

abbrev pub no_attachments : Session → Bool
no_attachments s = length s.attachments == 0

abbrev pub prepare_existing : Host → AttachArgs → List SessionHistoryEntry → Session → Prepared
prepare_existing host args recent s =
    if is_live s.state && (not (force_respawn args) || not (no_attachments s))
    then record { stored = some (reattach args s); recent = recent; ready = true }
    else respawn host args (record_history host.now (negsuc 0) s.state s recent)
        (record s { attachments = []; history_recorded = true })

abbrev pub new_session : AttachArgs → Runtime → Session
new_session args runtime = record {
  name = args.name;
  peer_ids = if not (args.pubkey =b= []) then args.pubkey ∷ [] else [];
  attachments = [];
  detach_signal = [];
  owner_pubkey = args.pubkey;
  kind = classify_session_kind args.name args.source;
  state = attached;
  runtime = runtime;
  total_written = 0;
  history_recorded = false;
}

abbrev pub prepare_new : AttachArgs → Option Runtime → List SessionHistoryEntry → Prepared
prepare_new args none recent = record { stored = none; recent = recent; ready = false }
prepare_new args (some runtime) recent = record {
  stored = some (new_session args runtime);
  recent = recent;
  ready = true;
}

abbrev pub prepare : Host → AttachArgs → List SessionHistoryEntry → Option Session → Prepared
prepare host args recent (some s) = prepare_existing host args recent s
prepare host args recent none = prepare_new args host.spawned recent

-- The id of the attachment, which is never 0, and the counter behind it.
abbrev pub fetch_id : ℕ → ℕ × ℕ
fetch_id next = if next == 0 then (1, 2) else (next, (next + 1) % 2 ^ 32)

-- `attachments[id] = a`
abbrev pub put_id : ℕ → Attachment → List (ℕ × Attachment) → List (ℕ × Attachment)
put_id id a [] = (id, a) ∷ []
put_id id a ((i, old) ∷ attachments) =
    let rest = put_id id a attachments in if id == i then (id, a) ∷ attachments else (i, old) ∷ rest

abbrev pub attachment_of : AttachArgs → Attachment
attachment_of args = record {
  cols = args.cols;
  rows = args.rows;
  spectator = args.spectator;
  pubkey = args.pubkey;
}

abbrev pub register : AttachArgs → ℕ → Session → Session
register args id s =
    apply_min_geometry (record s { attachments = put_id id (attachment_of args) s.attachments })

-- The id and the effective size; none where the code returns 0.
abbrev pub Attached : Type 0
Attached = Option (ℕ × (ℕ × ℕ)) × Registry

abbrev pub store_prepared :
    AttachArgs → Registry → List SessionHistoryEntry → Bool → Option Session → Attached
store_prepared args r recent ready none = (none, record r { recent = recent })
store_prepared args r recent false (some s) =
    (none, record r { recent = recent; sessions = put args.name s r.sessions })
store_prepared args r recent true (some s) =
    let ids = fetch_id r.next_attach_id in
    let joined = register args ids.0 s in
    (
      some (ids.0, min_size (args.cols, args.rows) joined.attachments),
      record r {
        recent = recent;
        sessions = put args.name joined r.sessions;
        next_attach_id = ids.1;
      },
    )

abbrev pub live_session : Option Session → Bool
live_session none = false
live_session (some s) = is_live s.state

unfoldable pub attach_connection : Host → AttachArgs → Registry → Attached
attach_connection host args r =
    let existing = find args.name r.sessions in
    let p = prepare host args r.recent existing in
    if not (is_session_name args.name)
      || (args.require_existing_live && not (live_session existing))
    then (none, r)
    else store_prepared args r p.recent p.ready p.stored
