-- ===== src/Session/Registry/Operations.antt =====
-- Each operation of the registry keeps it well-formed.
use bridge_sessions.Base.{
  ℕ, ◌-◌, ◌≤◌, ◌≡◌, refl, sym, ap, subst, ◌∙◌, inl, inr, Bool, true, false, not, ◌&&◌, ◌||◌, Option,
  none, some, List, [], ◌∷◌, ◌++◌, All, arith, Bool-cases, Option-cases, ◌=b=◌, ◌==◌, length,
  length-append, length-drop, if◌then◌else◌,
}
use bridge_sessions.Base.Signed.{ℤ, negsuc}
use bridge_sessions.Base.TextMap.{some-ne-none, TextMap, find, put-All, erase-All}
use bridge_sessions.Session.Registry.{
  SessionState, SessionHistoryEntry, killed, is_live, Runtime, Session, Registry,
  max_recent_sessions, push_recent, history_entry, record_history, has_id,
}
use bridge_sessions.Session.Registry.Attach.{
  force_respawn, no_attachments, release_exited_runtime, AttachArgs, Host, prepare, prepare_new,
  respawn, install, store_prepared, is_session_name, live_session, fetch_id, attach_connection,
}
use bridge_sessions.Session.Registry.Detach.{update_session, settle_idle, detach_found, kill}
use bridge_sessions.Session.Registry.Consistent.{
  IsConsistent, IsPrepared, prepare_new-IsPrepared, prepare_existing-IsPrepared,
  register-IsConsistent,
}

-- Each session is attached just when it has an attachment, and has no attachment with the id 0;
-- the list of recent sessions is bounded.
pub record WellFormed (r : Registry) : Type 0 where
  pub sessions : All (λ (e : List ℕ × Session). IsConsistent e.1) r.sessions
  pub recent : length r.recent ≤ max_recent_sessions

push_recent-le :
    (recent : List SessionHistoryEntry) (h : SessionHistoryEntry)
    → length recent ≤ max_recent_sessions
    → length (push_recent recent h) ≤ max_recent_sessions
push_recent-le recent h small = ground (
  arith,
  length-append recent (h ∷ []),
  length-drop (length (recent ++ (h ∷ [])) - max_recent_sessions) (recent ++ (h ∷ [])),
)

record_history-le :
    (now : ℕ) (code : ℤ) (state : SessionState) (s : Session) (recent : List SessionHistoryEntry)
    → length recent ≤ max_recent_sessions
    → length (record_history now code state s recent) ≤ max_recent_sessions
unfolding record_history
record_history-le now code state s recent h = elim (Bool-cases s.history_recorded) [
  | inl done ↦ rw done h
  | inr new ↦ rw new (push_recent-le recent (history_entry now code state s) h)
]

abbrev pub AllConsistent : TextMap Session → Type 0
AllConsistent m = All (λ (e : List ℕ × Session). IsConsistent e.1) m

some-session : {a b : Session} → some a ≡ some b → a ≡ b
some-session {a} e = ap (λ o. elim o [ none ↦ a | some x ↦ x ]) e

find-IsConsistent :
    (name : List ℕ) (m : TextMap Session) (s : Session)
    → AllConsistent m
    → find name m ≡ some s
    → IsConsistent s
find-IsConsistent name [] s h e = absurd (some-ne-none (sym e))
find-IsConsistent name ((k, a) ∷ m) s h e = elim (Bool-cases (name =b= k)) [
  | inl same ↦
      subst IsConsistent (some-session (sym (ap (λ b. if b then some a else find name m) same) ∙ e))
        h.0
  | inr other ↦
      find-IsConsistent name m s h.1 (sym (ap (λ b. if b then some a else find name m) other) ∙ e)
]

pub update_session-All :
    (id : ℕ) (change : Session → Session) (m : TextMap Session)
    → ((s : Session) → IsConsistent s → IsConsistent (change s))
    → AllConsistent m
    → AllConsistent (update_session id change m)
update_session-All id change [] keep h = tt
update_session-All id change ((k, s) ∷ m) keep h = elim (Bool-cases (has_id id s)) [
  | inl here ↦ rw here (keep s h.0, h.1)
  | inr other ↦ rw other (h.0, update_session-All id change m keep h.1)
]

install_recent :
    (args : AttachArgs) (spawned : Option Runtime) (recent : List SessionHistoryEntry) (s : Session)
    → (install args spawned recent s).recent ≡ recent
install_recent args none recent s = refl
install_recent args (some runtime) recent s = refl

respawn_recent :
    (host : Host) (args : AttachArgs) (recent : List SessionHistoryEntry) (s : Session)
    → (respawn host args recent s).recent ≡ recent
respawn_recent host args recent s = elim (Bool-cases (force_respawn args && s.runtime.hosted)) [
  | inr keep ↦ rw keep (install_recent args host.spawned recent s)
  | inl retire ↦ elim (Bool-cases host.stopped) [
    | inl gone ↦
        rw (retire, gone) (install_recent args host.spawned recent (release_exited_runtime s))
    | inr alive ↦ rw (retire, alive) refl
  ]
]

prepare_new_recent :
    (args : AttachArgs) (spawned : Option Runtime) (recent : List SessionHistoryEntry)
    → (prepare_new args spawned recent).recent ≡ recent
prepare_new_recent args none recent = refl
prepare_new_recent args (some runtime) recent = refl

prepare-le :
    (host : Host) (args : AttachArgs) (recent : List SessionHistoryEntry)
    (existing : Option Session)
    → length recent ≤ max_recent_sessions
    → length (prepare host args recent existing).recent ≤ max_recent_sessions
prepare-le host args recent none h =
    subst (λ l. length l ≤ max_recent_sessions) (sym (prepare_new_recent args host.spawned recent))
      h
prepare-le host args recent (some s) h =
    elim (Bool-cases (is_live s.state && (not (force_respawn args) || not (no_attachments s)))) [
      | inl joins ↦ rw joins h
      | inr replaced ↦ rw replaced (
          subst (λ l. length l ≤ max_recent_sessions) (sym (respawn_recent host args _ _))
            (record_history-le host.now (negsuc 0) s.state s recent h))
    ]

prepare-IsPrepared :
    (host : Host) (args : AttachArgs) (recent : List SessionHistoryEntry) (m : TextMap Session)
    → AllConsistent m
    → IsPrepared
        (prepare host args recent (find args.name m)).ready
        (prepare host args recent (find args.name m)).stored
prepare-IsPrepared host args recent m h = elim (Option-cases (find args.name m)) [
  | inl absent ↦ rw absent (prepare_new-IsPrepared host args recent)
  | inr (s, found) ↦
      rw found
        (prepare_existing-IsPrepared host args recent s (find-IsConsistent args.name m s h found))
]

fetch_id-nonzero : (next : ℕ) → ((fetch_id next).0 == 0) ≡ false
fetch_id-nonzero next = ground arith

store_prepared-WellFormed :
    (args : AttachArgs) (r : Registry) (recent : List SessionHistoryEntry) (ready : Bool)
    (stored : Option Session)
    → WellFormed r
    → length recent ≤ max_recent_sessions
    → IsPrepared ready stored
    → WellFormed (store_prepared args r recent ready stored).1
store_prepared-WellFormed args r recent ready none h small p = record {
  sessions = h.sessions;
  recent = small;
}
store_prepared-WellFormed args r recent false (some s) h small p = record {
  sessions =
      put-All (λ (e : List ℕ × Session). IsConsistent e.1) args.name s r.sessions p h.sessions;
  recent = small;
}
store_prepared-WellFormed args r recent true (some s) h small p = record {
  sessions =
      put-All (λ (e : List ℕ × Session). IsConsistent e.1) args.name _ r.sessions
        (register-IsConsistent args (fetch_id r.next_attach_id).0 s
          (fetch_id-nonzero r.next_attach_id) p)
        h.sessions;
  recent = small;
}

pub attach-WellFormed :
    (host : Host) (args : AttachArgs) (r : Registry)
    → WellFormed r
    → WellFormed (attach_connection host args r).1
unfolding attach_connection
attach-WellFormed host args r h =
    elim (Bool-cases (
      not (is_session_name args.name)
      || (args.require_existing_live && not (live_session (find args.name r.sessions))))) [
        | inl refused ↦ rw refused h
        | inr goes ↦ rw goes (
            store_prepared-WellFormed args r _ _ _ h
              (prepare-le host args r.recent (find args.name r.sessions) h.recent)
              (prepare-IsPrepared host args r.recent r.sessions h.sessions))
      ]

pub detach_found-WellFormed :
    (change : Session → Session) (name : List ℕ) (r : Registry)
    → ((s : Session) → IsConsistent s → IsConsistent (settle_idle (change s)))
    → WellFormed r
    → WellFormed (detach_found change name (find name r.sessions) r).1
detach_found-WellFormed change name r keep h = elim (Option-cases (find name r.sessions)) [
  | inl absent ↦ rw absent h
  | inr (s, found) ↦ rw found (record {
    sessions =
        put-All (λ (e : List ℕ × Session). IsConsistent e.1) name _ r.sessions
          (keep s (find-IsConsistent name r.sessions s h.sessions found)) h.sessions;
    recent = h.recent;
  })
]

pub kill-WellFormed :
    (now : ℕ) (name : List ℕ) (r : Registry) → WellFormed r → WellFormed (kill now name r).1
unfolding kill
kill-WellFormed now name r h = elim (Option-cases (find name r.sessions)) [
  | inl absent ↦ rw absent h
  | inr (s, found) ↦ rw found (record {
    sessions = erase-All (λ (e : List ℕ × Session). IsConsistent e.1) name r.sessions h.sessions;
    recent = record_history-le now (negsuc 0) killed s r.recent h.recent;
  })
]
