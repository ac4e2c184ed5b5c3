-- ===== src/Session/Registry/Consistent.antt =====
-- A session is attached just when it has an attachment.
use bridge_sessions.Base.{
  ℕ, suc, ◌≡◌, refl, sym, ap, subst, ◌∙◌, inl, inr, max, Bool, true, false, not, ◌&&◌, ◌||◌, Option,
  none, some, List, [], ◌∷◌, All, arith, Bool-cases, Option-cases, ◌==◌, length,
}
use bridge_sessions.Session.Registry.{
  SessionHistoryEntry, SessionState, created, running, detached, attached, died, exited, killed,
  recoverable, is_live, is_attached, Attachment, Runtime, Session, resize_to, fit_size,
  apply_min_geometry,
}
use bridge_sessions.Session.Registry.Attach.{
  AttachArgs, Host, no_attachments, force_respawn, install, respawn, prepare_existing, prepare_new,
  put_id, attachment_of, register, release_exited_runtime,
}
use bridge_sessions.Session.Registry.Detach.{set_size, resize_attachment}

-- Ids are not 0, which stands for an error.
abbrev pub HasIds : List (ℕ × Attachment) → Type 0
HasIds attachments = All (λ (e : ℕ × Attachment). (e.0 == 0) ≡ false) attachments

pub record IsConsistent (s : Session) : Type 0 where
  pub joined : not (no_attachments s) ≡ is_attached s.state
  pub ids : HasIds s.attachments

resize_attachments : (size : ℕ × ℕ) (s : Session) → (resize_to size s).attachments ≡ s.attachments
resize_attachments size s = elim (Bool-cases s.runtime.is_open) [
  | inl there ↦ rw there refl
  | inr closed ↦ rw closed refl
]

resize_state : (size : ℕ × ℕ) (s : Session) → (resize_to size s).state ≡ s.state
resize_state size s = elim (Bool-cases s.runtime.is_open) [
  | inl there ↦ rw there refl
  | inr closed ↦ rw closed refl
]

pub fit_attachments :
    (a : List (ℕ × Attachment)) (s : Session) → (fit_size a s).attachments ≡ s.attachments
fit_attachments [] s = refl
fit_attachments (a ∷ more) s = resize_attachments _ s

pub fit_state : (a : List (ℕ × Attachment)) (s : Session) → (fit_size a s).state ≡ s.state
fit_state [] s = refl
fit_state (a ∷ more) s = resize_state _ s

-- A change that keeps the attachments and the state keeps the session consistent.
IsConsistent-same :
    (s t : Session)
    → t.attachments ≡ s.attachments
    → t.state ≡ s.state
    → IsConsistent s
    → IsConsistent t
IsConsistent-same s t a e h = record {
  joined = ap (λ l. not (length l == 0)) a ∙ h.joined ∙ ap is_attached (sym e);
  ids = subst HasIds (sym a) h.ids;
}

IsConsistent-fit : (s : Session) → IsConsistent s → IsConsistent (apply_min_geometry s)
unfolding apply_min_geometry
IsConsistent-fit s h =
    IsConsistent-same s (fit_size s.attachments s) (fit_attachments s.attachments s)
      (fit_state s.attachments s) h

put_id-HasIds :
    (id : ℕ) (a : Attachment) (l : List (ℕ × Attachment))
    → (id == 0) ≡ false
    → HasIds l
    → HasIds (put_id id a l)
put_id-HasIds id a [] nz h = (nz, tt)
put_id-HasIds id a ((i, old) ∷ l) nz h = elim (Bool-cases (id == i)) [
  | inl same ↦ rw same (nz, h.1)
  | inr other ↦ rw other (h.0, put_id-HasIds id a l nz h.1)
]

put_id-some :
    (id : ℕ) (a : Attachment) (l : List (ℕ × Attachment)) → (length (put_id id a l) == 0) ≡ false
put_id-some id a [] = ground arith
put_id-some id a ((i, old) ∷ l) = elim (Bool-cases (id == i)) [
  | inl same ↦ rw same (ground arith)
  | inr other ↦ rw other (ground arith)
]

-- A session that is ready for an attachment.
pub record IsReady (s : Session) : Type 0 where
  pub live : is_attached s.state ≡ true
  pub ids : HasIds s.attachments

pub register-IsConsistent :
    (args : AttachArgs) (id : ℕ) (s : Session)
    → (id == 0) ≡ false
    → IsReady s
    → IsConsistent (register args id s)
register-IsConsistent args id s nz h = IsConsistent-fit _ (record {
  joined = ap not (put_id-some id (attachment_of args) s.attachments) ∙ sym h.live;
  ids = put_id-HasIds id (attachment_of args) s.attachments nz h.ids;
})

-- What `prepare` stores: ready for an attachment, or consistent as it is.
abbrev pub IsPrepared : Bool → Option Session → Type 0
IsPrepared ready none = Unit
IsPrepared true (some s) = IsReady s
IsPrepared false (some s) = IsConsistent s

pub prepare_new-IsPrepared :
    (host : Host) (args : AttachArgs) (recent : List SessionHistoryEntry)
    → IsPrepared
        (prepare_new args host.spawned recent).ready
        (prepare_new args host.spawned recent).stored
prepare_new-IsPrepared host args recent = elim (Option-cases host.spawned) [
  | inl failed ↦ rw failed tt
  | inr (runtime, there) ↦ rw there (record { live = refl; ids = tt })
]

live_of_attached : (s : SessionState) → is_live s ≡ false → is_attached s ≡ false
live_of_attached attached h = h
live_of_attached created h = refl
live_of_attached running h = refl
live_of_attached detached h = refl
live_of_attached died h = refl
live_of_attached exited h = refl
live_of_attached killed h = refl
live_of_attached recoverable h = refl

-- Behind a failed spawn the session has no attachment and is not attached.
emptied-IsConsistent :
    (s : Session) → is_attached s.state ≡ false → s.attachments ≡ [] → IsConsistent s
emptied-IsConsistent s away none_left = record {
  joined = ap (λ l. not (length l == 0)) none_left ∙ sym away;
  ids = subst HasIds (sym none_left) tt;
}

install-IsPrepared :
    (args : AttachArgs) (spawned : Option Runtime) (recent : List SessionHistoryEntry) (s : Session)
    → is_attached s.state ≡ false
    → s.attachments ≡ []
    → IsPrepared (install args spawned recent s).ready (install args spawned recent s).stored
install-IsPrepared args none recent s away none_left = emptied-IsConsistent s away none_left
install-IsPrepared args (some runtime) recent s away none_left = record {
  live = refl;
  ids = subst HasIds (sym none_left) tt;
}

respawn-IsPrepared :
    (host : Host) (args : AttachArgs) (recent : List SessionHistoryEntry) (s : Session)
    → is_attached s.state ≡ false
    → s.attachments ≡ []
    → IsPrepared (respawn host args recent s).ready (respawn host args recent s).stored
respawn-IsPrepared host args recent s away none_left =
    elim (Bool-cases (force_respawn args && s.runtime.hosted)) [
      | inr keep ↦ rw keep (install-IsPrepared args host.spawned recent s away none_left)
      | inl retire ↦ elim (Bool-cases host.stopped) [
        | inl gone ↦
            rw (retire, gone)
              (install-IsPrepared args host.spawned recent (release_exited_runtime s) away
                none_left)
        | inr alive ↦ rw (retire, alive) (emptied-IsConsistent s away none_left)
      ]
    ]

-- A session that is replaced is not attached.
replaced_state :
    (force : Bool) (s : Session)
    → IsConsistent s
    → (is_live s.state && (not force || not (no_attachments s))) ≡ false
    → is_attached s.state ≡ false
replaced_state force s h e = elim (Bool-cases (is_live s.state)) [
  | inr dead ↦ live_of_attached s.state dead
  | inl live ↦ sym h.joined ∙ ground (arith, live)
]

pub prepare_existing-IsPrepared :
    (host : Host) (args : AttachArgs) (recent : List SessionHistoryEntry) (s : Session)
    → IsConsistent s
    → IsPrepared
        (prepare_existing host args recent s).ready
        (prepare_existing host args recent s).stored
prepare_existing-IsPrepared host args recent s h =
    elim (Bool-cases (is_live s.state && (not (force_respawn args) || not (no_attachments s)))) [
      | inl joins ↦ rw joins (record { live = refl; ids = h.ids })
      | inr replaced ↦ rw replaced (
          respawn-IsPrepared host args _ (record s { attachments = []; history_recorded = true })
            (replaced_state (force_respawn args) s h replaced) refl)
    ]

set_size-HasIds : (id c r : ℕ) (l : List (ℕ × Attachment)) → HasIds l → HasIds (set_size id c r l)
set_size-HasIds id c r [] h = tt
set_size-HasIds id c r ((i, a) ∷ l) h = elim (Bool-cases (id == i)) [
  | inl same ↦ rw same h
  | inr other ↦ rw other (h.0, set_size-HasIds id c r l h.1)
]

length-set_size : (id c r : ℕ) (l : List (ℕ × Attachment)) → length (set_size id c r l) ≡ length l
length-set_size id c r [] = refl
length-set_size id c r ((i, a) ∷ l) = elim (Bool-cases (id == i)) [
  | inl same ↦ rw same refl
  | inr other ↦ rw other (ap suc (length-set_size id c r l))
]

pub resize_attachment-IsConsistent :
    (id c r : ℕ) (s : Session) → IsConsistent s → IsConsistent (resize_attachment id c r s)
resize_attachment-IsConsistent id c r s h = IsConsistent-fit _ (record {
  joined =
      ap (λ n. not (n == 0)) (length-set_size id (max c 20) (max r 5) s.attachments) ∙ h.joined;
  ids = set_size-HasIds id (max c 20) (max r 5) s.attachments h.ids;
})
