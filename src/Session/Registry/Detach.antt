-- ===== src/Session/Registry/Detach.antt =====
-- `set_attachment_geometry`, the `detach` functions and `kill` of the registry.
use bridge_sessions.Base.{
  ℕ, max, Bool, true, false, not, ◌&&◌, ◌||◌, Option, none, some, List, [], ◌∷◌, ◌++◌, codes, ◌=b=◌,
  ◌==◌, if◌then◌else◌,
}
use bridge_sessions.Base.Signed.{ℤ, pos, negsuc}
use bridge_sessions.Base.TextMap.{TextMap, find, put, erase}
use bridge_sessions.Session.Registry.{
  SessionState, attached, running, created, detached, died, exited, killed, recoverable, Attachment,
  Session, Registry, record_history, apply_min_geometry, find_id, has_id,
}
use bridge_sessions.Session.Registry.Attach.{no_attachments}

-- `Session` that has the attachment, in the map; all the others stay.
abbrev pub update_session : ℕ → (Session → Session) → TextMap Session → TextMap Session
update_session id change [] = []
update_session id change ((name, s) ∷ sessions) =
    let rest = update_session id change sessions in
    if has_id id s then (name, change s) ∷ sessions else (name, s) ∷ rest

abbrev pub session_by_attach_id : ℕ → TextMap Session → Option Session
session_by_attach_id id [] = none
session_by_attach_id id ((name, s) ∷ sessions) =
    if has_id id s then some s else session_by_attach_id id sessions

abbrev pub set_size : ℕ → ℕ → ℕ → List (ℕ × Attachment) → List (ℕ × Attachment)
set_size id cols rows [] = []
set_size id cols rows ((i, a) ∷ attachments) =
    let rest = set_size id cols rows attachments in
    if id == i then (i, record a { cols = cols; rows = rows }) ∷ attachments else (i, a) ∷ rest

abbrev pub resize_attachment : ℕ → ℕ → ℕ → Session → Session
resize_attachment id cols rows s =
    apply_min_geometry
      (record s { attachments = set_size id (max cols 20) (max rows 5) s.attachments })

unfoldable pub set_attachment_geometry : ℕ → ℕ → ℕ → Registry → Registry
set_attachment_geometry id cols rows r = record r {
  sessions = update_session id (resize_attachment id cols rows) r.sessions;
}

-- The POSIX numbers of the signals.
unfoldable pub resolve_detach_signal : List ℕ → Option ℕ
resolve_detach_signal name =
    if name =b= codes "HUP"
    then some 1
    else (if name =b= codes "TERM"
        then some 15
        else (if name =b= codes "INT"
            then some 2
            else (if name =b= codes "QUIT"
                then some 3
                else (if name =b= codes "KILL" then some 9 else none))))

-- A number counts as a process when it is not 0.
abbrev pub is_zero : ℤ → Bool
is_zero (pos n) = n == 0
is_zero (negsuc n) = false

abbrev pub signal_of : ℤ → Option ℕ → List (ℤ × ℕ)
signal_of child_pid none = []
signal_of child_pid (some sig) = if is_zero child_pid then [] else (child_pid, sig) ∷ []

-- Attached or running.
abbrev pub is_active : SessionState → Bool
is_active attached = true
is_active running = true
is_active created = false
is_active detached = false
is_active died = false
is_active exited = false
is_active killed = false
is_active recoverable = false

-- A session that nobody is attached to any more gets its signal and is detached.
abbrev pub is_idle : Session → Bool
is_idle s = no_attachments s && is_active s.state

abbrev pub settle_idle : Session → Session
settle_idle s = if is_idle s then record s { state = detached } else s

abbrev pub idle_signals : Session → List (ℤ × ℕ)
idle_signals s =
    if is_idle s then signal_of s.runtime.child_pid (resolve_detach_signal s.detach_signal) else []

abbrev pub erase_id : ℕ → List (ℕ × Attachment) → List (ℕ × Attachment)
erase_id id [] = []
erase_id id ((i, a) ∷ attachments) =
    let rest = erase_id id attachments in if id == i then rest else (i, a) ∷ rest

abbrev pub has_pubkey : List ℕ → List (ℕ × Attachment) → Bool
has_pubkey key [] = false
has_pubkey key ((i, a) ∷ attachments) = (a.pubkey =b= key) || has_pubkey key attachments

abbrev pub remove_peer : List ℕ → List (List ℕ) → List (List ℕ)
remove_peer key [] = []
remove_peer key (p ∷ peers) =
    let rest = remove_peer key peers in if p =b= key then rest else p ∷ rest

abbrev pub pubkey_of : Option Attachment → List ℕ
pubkey_of none = []
pubkey_of (some a) = a.pubkey

-- The peer stays while another of its connections is attached.
abbrev pub leave_peer : List ℕ → Session → Session
leave_peer key s =
    if not (key =b= []) && not (has_pubkey key s.attachments)
    then record s { peer_ids = remove_peer key s.peer_ids }
    else s

-- A session without the attachment, before it is settled.
abbrev pub drop_attachment : ℕ → Session → Session
drop_attachment id s =
    leave_peer (pubkey_of (find_id id s.attachments))
      (apply_min_geometry (record s { attachments = erase_id id s.attachments }))

abbrev pub left_over : Option Session → Bool
left_over none = false
left_over (some s) = not (no_attachments s)

abbrev pub signals_of : Option Session → List (ℤ × ℕ)
signals_of none = []
signals_of (some s) = idle_signals s

abbrev pub map_some : (Session → Session) → Option Session → Option Session
map_some change none = none
map_some change (some s) = some (change s)

-- `detach(attach_id)`: whether somebody is still attached, and the registry.
unfoldable pub detach : ℕ → Registry → Bool × Registry
detach id r =
    let left = map_some (drop_attachment id) (session_by_attach_id id r.sessions) in
    (
      left_over left,
      record r {
        sessions = update_session id (λ s. settle_idle (drop_attachment id s)) r.sessions;
        signalled = r.signalled ++ signals_of left;
      },
    )

abbrev pub without_pubkey : List ℕ → List (ℕ × Attachment) → List (ℕ × Attachment)
without_pubkey key [] = []
without_pubkey key ((i, a) ∷ attachments) =
    let rest = without_pubkey key attachments in if a.pubkey =b= key then rest else (i, a) ∷ rest

abbrev pub drop_pubkey : List ℕ → Session → Session
drop_pubkey key s = record s {
  attachments = without_pubkey key s.attachments;
  peer_ids = if not (key =b= []) then remove_peer key s.peer_ids else s.peer_ids;
}

abbrev pub drop_all : Session → Session
drop_all s = record s { attachments = []; peer_ids = [] }

-- What the functions that take a name do with the session of that name.
abbrev pub detach_found : (Session → Session) → List ℕ → Option Session → Registry → Bool × Registry
detach_found change name none r = (false, r)
detach_found change name (some s) r = (
  not (no_attachments (change s)),
  record r {
    sessions = put name (settle_idle (change s)) r.sessions;
    signalled = r.signalled ++ idle_signals (change s);
  },
)

-- `detach(name, peer_pubkey)`
unfoldable pub detach_pubkey : List ℕ → List ℕ → Registry → Bool × Registry
detach_pubkey name key r = detach_found (drop_pubkey key) name (find name r.sessions) r

-- `detach_all(name)`, and `detach(name)`, which does the same.
unfoldable pub detach_all : List ℕ → Registry → Bool × Registry
detach_all name r = detach_found drop_all name (find name r.sessions) r

abbrev pub kill_found : ℕ → List ℕ → Option Session → Registry → Bool × Registry
kill_found now name none r = (false, r)
kill_found now name (some s) r = (
  true,
  record r {
    sessions = erase name r.sessions;
    recent = record_history now (negsuc 0) killed s r.recent;
  },
)

unfoldable pub kill : ℕ → List ℕ → Registry → Bool × Registry
kill now name r = kill_found now name (find name r.sessions) r
