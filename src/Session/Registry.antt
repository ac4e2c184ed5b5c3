-- ===== src/Session/Registry.antt =====
-- `SessionRegistry` of bs-session-registry.h: who is attached to which session. `Session` and
-- `SessionState` are in bs-session.h.
pub mod Attach
pub mod Detach
pub mod Consistent
pub mod Leaving
pub mod Operations
pub mod Steps
pub mod Owner
pub mod Size
use bridge_sessions.Base.{
  ℕ, zero, suc, ◌+◌, ◌-◌, ◌%◌, ◌^◌, min, max, Bool, true, false, not, ◌&&◌, ◌||◌, Option, none,
  some, List, [], ◌∷◌, ◌++◌, codes, ◌=b=◌, ◌==◌, starts_with, ltb, leb, length, take, drop,
  if◌then◌else◌,
}
use bridge_sessions.Base.Signed.{ℤ}
use bridge_sessions.Base.TextMap.{TextMap}

pub data SessionState : Type 0 where
  created : SessionState
  running : SessionState
  detached : SessionState
  attached : SessionState
  died : SessionState
  exited : SessionState
  killed : SessionState
  recoverable : SessionState

-- `existing_live`
abbrev pub is_live : SessionState → Bool
is_live running = true
is_live detached = true
is_live attached = true
is_live created = false
is_live died = false
is_live exited = false
is_live killed = false
is_live recoverable = false

abbrev pub is_attached : SessionState → Bool
is_attached attached = true
is_attached created = false
is_attached running = false
is_attached detached = false
is_attached died = false
is_attached exited = false
is_attached killed = false
is_attached recoverable = false

-- `Session::Kind`
pub data Kind : Type 0 where
  user : Kind
  harness : Kind
  probe : Kind

pub data SessionCommandSource : Type 0 where
  client_override : SessionCommandSource
  named_profile : SessionCommandSource
  config_default : SessionCommandSource

unfoldable pub is_ephemeral_session_name : List ℕ → Bool
is_ephemeral_session_name name =
    starts_with (codes "health-") name
    || starts_with (codes "cmd-") name
    || starts_with (codes "oneshot-") name
    || starts_with (codes "script-") name
    || starts_with (codes "hcheck-") name
    || starts_with (codes "vcheck-") name
    || starts_with (codes "tty-") name

abbrev pub kind_of_source : SessionCommandSource → Kind
kind_of_source client_override = harness
kind_of_source named_profile = user
kind_of_source config_default = user

unfoldable pub classify_session_kind : List ℕ → SessionCommandSource → Kind
classify_session_kind name source =
    if starts_with (codes "health-") name
      || starts_with (codes "cmd-") name
      || starts_with (codes "oneshot-") name
      || starts_with (codes "script-") name
      || starts_with (codes "hcheck-") name
      || starts_with (codes "vcheck-") name
    then probe
    else kind_of_source source

-- `Session::Attachment`, without the id, which is its key.
pub record Attachment : Type 0 where
  pub cols : ℕ
  pub rows : ℕ
  pub spectator : Bool
  pub pubkey : List ℕ

-- What a spawn gives, and a respawn replaces: whether a worker process hosts the shell, whether the
-- terminal is open, the shell's process (-1 for none), the terminal's size, and the time.
pub record Runtime : Type 0 where
  pub hosted : Bool
  pub is_open : Bool
  pub child_pid : ℤ
  pub pty_size : ℕ × ℕ
  pub created_at : ℕ

pub record Session : Type 0 where
  pub name : List ℕ
  pub peer_ids : List (List ℕ)
  pub attachments : List (ℕ × Attachment)
  pub detach_signal : List ℕ
  pub owner_pubkey : List ℕ
  pub kind : Kind
  pub state : SessionState
  pub runtime : Runtime
  pub total_written : ℕ
  pub history_recorded : Bool

pub record SessionHistoryEntry : Type 0 where
  pub name : List ℕ
  pub peer : List ℕ
  pub child_pid : ℤ
  pub state : SessionState
  pub exit_code : ℤ
  pub runtime_seconds : ℕ
  pub bytes : ℕ

-- `signalled` are the signals that were sent: a process and a number.
pub record Registry : Type 0 where
  pub sessions : TextMap Session
  pub next_attach_id : ℕ
  pub recent : List SessionHistoryEntry
  pub signalled : List (ℤ × ℕ)

abbrev pub max_recent_sessions : ℕ
max_recent_sessions = 50

-- The first peer's name for the list of recent sessions.
abbrev pub peer_text : List (List ℕ) → List ℕ
peer_text [] = codes "-"
peer_text (p ∷ peers) = take 16 p

abbrev pub history_entry : ℕ → ℤ → SessionState → Session → SessionHistoryEntry
history_entry now exit_code state s = record {
  name = s.name;
  peer = peer_text s.peer_ids;
  child_pid = s.runtime.child_pid;
  state = state;
  exit_code = exit_code;
  runtime_seconds = now - s.runtime.created_at;
  bytes = s.total_written;
}

-- `recent_` behind a push: the newest entries stay.
abbrev pub push_recent : List SessionHistoryEntry → SessionHistoryEntry → List SessionHistoryEntry
push_recent recent h =
    let all = recent ++ (h ∷ []) in
    if ltb max_recent_sessions (length all)
    then drop (length all - max_recent_sessions) all
    else all

-- `record_history_locked`: the list of recent sessions behind it; the session is marked as recorded.
unfoldable pub record_history :
    ℕ → ℤ → SessionState → Session → List SessionHistoryEntry → List SessionHistoryEntry
record_history now exit_code state s recent =
    if s.history_recorded then recent else push_recent recent (history_entry now exit_code state s)

-- The narrowest and the lowest of the attached panes, from a size on.
abbrev pub min_size : ℕ × ℕ → List (ℕ × Attachment) → ℕ × ℕ
min_size size [] = size
min_size size ((id, a) ∷ attachments) = min_size (min size.0 a.cols, min size.1 a.rows) attachments

abbrev pub resize_to : ℕ × ℕ → Session → Session
resize_to size s =
    if s.runtime.is_open then record s { runtime = record s.runtime { pty_size = size } } else s

-- `apply_min_geometry_locked`, by the attachments there are
abbrev pub fit_size : List (ℕ × Attachment) → Session → Session
fit_size [] s = s
fit_size (a ∷ attachments) s = resize_to (min_size (2 ^ 16 - 1, 2 ^ 16 - 1) (a ∷ attachments)) s

unfoldable pub apply_min_geometry : Session → Session
apply_min_geometry s = fit_size s.attachments s

-- `find` and `count` of the attachments
abbrev pub find_id : ℕ → List (ℕ × Attachment) → Option Attachment
find_id id [] = none
find_id id ((i, a) ∷ attachments) = if id == i then some a else find_id id attachments

abbrev pub found_id : Option Attachment → Bool
found_id none = false
found_id (some a) = true

abbrev pub has_id : ℕ → Session → Bool
has_id id s = found_id (find_id id s.attachments)
