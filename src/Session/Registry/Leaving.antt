-- ===== src/Session/Registry/Leaving.antt =====
-- A session stays consistent when attachments leave it: `detach`, `detach_pubkey` and the others.
use bridge_sessions.Base.{
  ℕ, ◌≤◌, ◌≡◌, refl, sym, ap, subst, ◌∙◌, inl, inr, false, not, ◌&&◌, List, [], ◌∷◌, arith,
  Bool-cases, ◌=b=◌, ◌==◌, length,
}
use bridge_sessions.Session.Registry.{
  SessionState, created, running, detached, attached, died, exited, killed, recoverable,
  is_attached, Attachment, Session, apply_min_geometry,
}
use bridge_sessions.Session.Registry.Attach.{no_attachments}
use bridge_sessions.Session.Registry.Detach.{
  has_pubkey, is_active, settle_idle, erase_id, leave_peer, drop_attachment, without_pubkey,
  drop_pubkey, drop_all,
}
use bridge_sessions.Session.Registry.Consistent.{HasIds, IsConsistent, fit_attachments, fit_state}

-- A session that may have lost attachments.
pub record HasLost (s t : Session) : Type 0 where
  pub state : t.state ≡ s.state
  pub ids : HasIds t.attachments
  pub fewer : length t.attachments ≤ length s.attachments

inactive_state : (s : SessionState) → is_active s ≡ false → is_attached s ≡ false
inactive_state attached h = h
inactive_state running h = refl
inactive_state created h = refl
inactive_state detached h = refl
inactive_state died h = refl
inactive_state exited h = refl
inactive_state killed h = refl
inactive_state recoverable h = refl

more_left :
    (s t : Session)
    → length t.attachments ≤ length s.attachments
    → no_attachments t ≡ false
    → no_attachments s ≡ false
more_left s t fewer some_left = ground arith

settle_idle-IsConsistent :
    (s t : Session) → IsConsistent s → HasLost s t → IsConsistent (settle_idle t)
settle_idle-IsConsistent s t h l = elim (Bool-cases (no_attachments t)) [
  | inr some_left ↦ rw some_left (record {
    joined =
        ap not some_left
        ∙ sym (ap not (more_left s t l.fewer some_left))
        ∙ h.joined
        ∙ ap is_attached (sym l.state);
    ids = l.ids;
  })
  | inl none_left ↦ elim (Bool-cases (is_active t.state)) [
    | inl active ↦ rw (none_left, active) (record { joined = ap not none_left; ids = l.ids })
    | inr idle ↦
        rw (none_left, idle)
          (record { joined = ap not none_left ∙ sym (inactive_state t.state idle); ids = l.ids })
  ]
]

erase_id-HasIds :
    (id : ℕ) (l : List (ℕ × Attachment))
    → HasIds l
    → HasIds (erase_id id l) × (length (erase_id id l) ≤ length l)
erase_id-HasIds id [] h = (tt, omega arith)
erase_id-HasIds id ((i, a) ∷ l) h = elim (Bool-cases (id == i)) [
  | inl same ↦ rw same ((erase_id-HasIds id l h.1).0, omega (arith, (erase_id-HasIds id l h.1).1))
  | inr other ↦
      rw other ((h.0, (erase_id-HasIds id l h.1).0), omega (arith, (erase_id-HasIds id l h.1).1))
]

without_pubkey-HasIds :
    (key : List ℕ) (l : List (ℕ × Attachment))
    → HasIds l
    → HasIds (without_pubkey key l) × (length (without_pubkey key l) ≤ length l)
without_pubkey-HasIds key [] h = (tt, omega arith)
without_pubkey-HasIds key ((i, a) ∷ l) h = elim (Bool-cases (a.pubkey =b= key)) [
  | inl same ↦
      rw same
        ((without_pubkey-HasIds key l h.1).0, omega (arith, (without_pubkey-HasIds key l h.1).1))
  | inr other ↦ rw other (
    (h.0, (without_pubkey-HasIds key l h.1).0),
    omega (arith, (without_pubkey-HasIds key l h.1).1),
  )
]

HasLost-same :
    (s t u : Session)
    → HasLost s t
    → u.attachments ≡ t.attachments
    → u.state ≡ t.state
    → HasLost s u
HasLost-same s t u h a e = record {
  state = e ∙ h.state;
  ids = subst HasIds (sym a) h.ids;
  fewer = subst (λ l. length l ≤ length s.attachments) (sym a) h.fewer;
}

HasLost-leave : (s t : Session) (key : List ℕ) → HasLost s t → HasLost s (leave_peer key t)
HasLost-leave s t key h =
    elim (Bool-cases (not (key =b= []) && not (has_pubkey key t.attachments))) [
      | inl gone ↦ rw gone (record { state = h.state; ids = h.ids; fewer = h.fewer })
      | inr stays ↦ rw stays h
    ]

drop_attachment-HasLost : (id : ℕ) (s : Session) → IsConsistent s → HasLost s (drop_attachment id s)
unfolding apply_min_geometry
drop_attachment-HasLost id s h =
    let fewer = erase_id-HasIds id s.attachments h.ids in
    let t = record s { attachments = erase_id id s.attachments } in
    HasLost-leave s _ _ (
      HasLost-same s t (apply_min_geometry t)
        (record { state = refl; ids = fewer.0; fewer = fewer.1 }) (fit_attachments t.attachments t)
        (fit_state t.attachments t))

pub detach-IsConsistent :
    (id : ℕ) (s : Session) → IsConsistent s → IsConsistent (settle_idle (drop_attachment id s))
detach-IsConsistent id s h =
    settle_idle-IsConsistent s (drop_attachment id s) h (drop_attachment-HasLost id s h)

pub drop_pubkey-IsConsistent :
    (key : List ℕ) (s : Session) → IsConsistent s → IsConsistent (settle_idle (drop_pubkey key s))
drop_pubkey-IsConsistent key s h =
    let fewer = without_pubkey-HasIds key s.attachments h.ids in
    settle_idle-IsConsistent s (drop_pubkey key s) h
      (record { state = refl; ids = fewer.0; fewer = fewer.1 })

pub drop_all-IsConsistent : (s : Session) → IsConsistent s → IsConsistent (settle_idle (drop_all s))
drop_all-IsConsistent s h =
    settle_idle-IsConsistent s (drop_all s) h
      (record { state = refl; ids = tt; fewer = omega arith })
