-- ===== src/Session/Registry/Owner.antt =====
-- What an attach keeps of a session that is there.
use bridge_sessions.Base.{
  ℕ, ◌≡◌, refl, inl, inr, Bool, true, false, not, ◌&&◌, ◌||◌, Option, none, some, List, [], ◌∷◌,
  Bool-cases,
}
use bridge_sessions.Base.TextMap.{find, find-put_same}
use bridge_sessions.Session.Registry.{
  SessionHistoryEntry, Runtime, Session, Registry, is_live, apply_min_geometry, fit_size, resize_to,
  Attachment,
}
use bridge_sessions.Session.Registry.Attach.{
  put_id, attachment_of, AttachArgs, Host, force_respawn, no_attachments, release_exited_runtime,
  install, respawn, prepare_existing, store_prepared, register, fetch_id, is_session_name,
  live_session, attach_connection,
}

-- The same name, owner and kind.
pub record IsSame (s t : Session) : Type 0 where
  pub owner : t.owner_pubkey ≡ s.owner_pubkey
  pub kind : t.kind ≡ s.kind

abbrev AllSame : Session → Option Session → Type 0
AllSame s none = Unit
AllSame s (some t) = IsSame s t

install-IsSame :
    (args : AttachArgs) (spawned : Option Runtime) (recent : List SessionHistoryEntry)
    (s t : Session)
    → IsSame s t
    → AllSame s (install args spawned recent t).stored
install-IsSame args none recent s t h = h
install-IsSame args (some runtime) recent s t h = record { owner = h.owner; kind = h.kind }

respawn-IsSame :
    (host : Host) (args : AttachArgs) (recent : List SessionHistoryEntry) (s t : Session)
    → IsSame s t
    → AllSame s (respawn host args recent t).stored
respawn-IsSame host args recent s t h = elim (Bool-cases (force_respawn args && t.runtime.hosted)) [
  | inr keep ↦ rw keep (install-IsSame args host.spawned recent s t h)
  | inl retire ↦ elim (Bool-cases host.stopped) [
    | inl gone ↦
        rw (retire, gone)
          (install-IsSame args host.spawned recent s (release_exited_runtime t)
            (record { owner = h.owner; kind = h.kind }))
    | inr alive ↦ rw (retire, alive) h
  ]
]

prepare-IsSame :
    (host : Host) (args : AttachArgs) (recent : List SessionHistoryEntry) (s : Session)
    → AllSame s (prepare_existing host args recent s).stored
prepare-IsSame host args recent s =
    elim (Bool-cases (is_live s.state && (not (force_respawn args) || not (no_attachments s)))) [
      | inl joins ↦ rw joins (record { owner = refl; kind = refl })
      | inr replaced ↦
          rw replaced (respawn-IsSame host args _ s _ (record { owner = refl; kind = refl }))
    ]

resize-IsSame : (size : ℕ × ℕ) (s t : Session) → IsSame s t → IsSame s (resize_to size t)
resize-IsSame size s t h = elim (Bool-cases t.runtime.is_open) [
  | inl there ↦ rw there (record { owner = h.owner; kind = h.kind })
  | inr closed ↦ rw closed (record { owner = h.owner; kind = h.kind })
]

fit-IsSame : (l : List (ℕ × Attachment)) (s t : Session) → IsSame s t → IsSame s (fit_size l t)
fit-IsSame [] s t h = h
fit-IsSame (a ∷ l) s t h = resize-IsSame _ s t h

register-IsSame :
    (args : AttachArgs) (id : ℕ) (s t : Session) → IsSame s t → IsSame s (register args id t)
unfolding apply_min_geometry
register-IsSame args id s t h =
    let joined = record t { attachments = put_id id (attachment_of args) t.attachments } in
    fit-IsSame joined.attachments s joined (record { owner = h.owner; kind = h.kind })

Kept : AttachArgs → Session → Registry → Type 0
Kept args s r = (t : Session) × (find args.name r.sessions ≡ some t) × IsSame s t

store-Kept :
    (args : AttachArgs) (r : Registry) (s : Session) (recent : List SessionHistoryEntry)
    (ready : Bool) (stored : Option Session)
    → find args.name r.sessions ≡ some s
    → AllSame s stored
    → Kept args s (store_prepared args r recent ready stored).1
unfolding Kept
store-Kept args r s recent ready none found h = (s, found, record { owner = refl; kind = refl })
store-Kept args r s recent false (some t) found h = (t, find-put_same args.name t r.sessions, h)
store-Kept args r s recent true (some t) found h = (
  _,
  find-put_same args.name _ r.sessions,
  register-IsSame args (fetch_id r.next_attach_id).0 s t h,
)

-- An attach keeps the owner and the kind of a session that is there, also when it respawns it with another
-- command.
pub attach_connection-IsSame :
    (host : Host) (args : AttachArgs) (r : Registry) (s : Session)
    → find args.name r.sessions ≡ some s
    → (t : Session) × (find args.name (attach_connection host args r).1.sessions ≡ some t)
      × IsSame s t
unfolding attach_connection Kept
attach_connection-IsSame host args r s found =
    elim (Bool-cases (
      not (is_session_name args.name)
      || (args.require_existing_live && not (live_session (find args.name r.sessions))))) [
        | inl refused ↦ rw refused (s, found, record { owner = refl; kind = refl })
        | inr goes ↦
            rw goes
              (rw found (store-Kept args r s _ _ _ found (prepare-IsSame host args r.recent s)))
      ]
