-- ===== src/Session/Registry/Size.antt =====
-- The narrowest pane drives the terminal.
use bridge_sessions.Base.{
  ℕ, ◌≡◌, ◌≤◌, ◌-◌, ◌^◌, sym, ap, subst, ◌∙◌, inl, inr, min, true, none, some, List, [], ◌∷◌, arith,
  ◌==◌, Bool-cases, if◌then◌else◌,
}
use bridge_sessions.Base.TextMap.{some-ne-none}
use bridge_sessions.Session.Registry.{
  Session, min_size, apply_min_geometry, fit_size, Attachment, find_id,
}

-- More panes make it no larger.
min_size-start :
    (c r : ℕ) (l : List (ℕ × Attachment))
    → ((min_size (c, r) l).0 ≤ c) × ((min_size (c, r) l).1 ≤ r)
min_size-start c r [] = (omega arith, omega arith)
min_size-start c r ((i, b) ∷ l) =
    let rest = min_size-start (min c b.cols) (min r b.rows) l in
    (omega (arith, rest.0), omega (arith, rest.1))

some-attachment : {a b : Attachment} → some a ≡ some b → a ≡ b
some-attachment {a} e = ap (λ o. elim o [ none ↦ a | some x ↦ x ]) e

min_size-le :
    (c r : ℕ) (l : List (ℕ × Attachment)) (id : ℕ) (a : Attachment)
    → find_id id l ≡ some a
    → ((min_size (c, r) l).0 ≤ a.cols) × ((min_size (c, r) l).1 ≤ a.rows)
min_size-le c r [] id a e = absurd (some-ne-none (sym e))
min_size-le c r ((i, b) ∷ l) id a e = elim (Bool-cases (id == i)) [
  | inl same ↦
      let here : b ≡ a =
        some-attachment (sym (ap (λ t. if t then some b else find_id id l) same) ∙ e) in
      let rest = min_size-start (min c b.cols) (min r b.rows) l in
      (
        omega (arith, rest.0, ap (λ (x : Attachment). x.cols) here),
        omega (arith, rest.1, ap (λ (x : Attachment). x.rows) here),
      )
  | inr other ↦
      min_size-le (min c b.cols) (min r b.rows) l id a
        (sym (ap (λ t. if t then some b else find_id id l) other) ∙ e)
]

fit_size-eq :
    (l : List (ℕ × Attachment)) (s : Session) (id : ℕ) (a : Attachment)
    → s.runtime.is_open ≡ true
    → find_id id l ≡ some a
    → (fit_size l s).runtime.pty_size ≡ min_size (2 ^ 16 - 1, 2 ^ 16 - 1) l
fit_size-eq [] s id a there e = absurd (some-ne-none (sym e))
fit_size-eq ((i, b) ∷ l) s id a there e =
    ap
      (λ t.
        (if t
          then record s {
            runtime = record s.runtime {
              pty_size = min_size (2 ^ 16 - 1, 2 ^ 16 - 1) ((i, b) ∷ l);
            };
          }
          else s).runtime.pty_size)
      there

-- Behind `apply_min_geometry` the terminal, if it is open, is no wider and no higher than any attached pane.
pub apply_min_geometry-le :
    (s : Session) (id : ℕ) (a : Attachment)
    → s.runtime.is_open ≡ true
    → find_id id s.attachments ≡ some a
    → ((apply_min_geometry s).runtime.pty_size.0 ≤ a.cols)
      × ((apply_min_geometry s).runtime.pty_size.1 ≤ a.rows)
unfolding apply_min_geometry
apply_min_geometry-le s id a there e =
    let size = fit_size-eq s.attachments s id a there e in
    let below = min_size-le (2 ^ 16 - 1) (2 ^ 16 - 1) s.attachments id a e in
    (
      subst (λ (p : ℕ × ℕ). p.0 ≤ a.cols) (sym size) below.0,
      subst (λ (p : ℕ × ℕ). p.1 ≤ a.rows) (sym size) below.1,
    )
