-- ===== src/Session/Ring/Slots.antt =====
-- Where the bytes of a write lie in the array.
use native.Mathlib.Nat.{mod-lt, mod-eq_of_lt, mod-eq-sub-mod, mod-add-mod}
use native.Mathlib.Decide.{dec_lt}
use bridge_sessions.Base.{
  ℕ, ◌+◌, ◌-◌, ◌%◌, ◌≤◌, ◌<◌, ◌≡◌, ◌∙◌, ◌⊎◌, inl, inr, List, ◌++◌, arith, length, take, drop,
  get_or, length-append, length-take, length-drop, get_or-append_left, get_or-append_right,
  get_or-take, get_or-drop, same_index,
}
use bridge_sessions.Session.Ring.{blit}

wrap_once : (c r t : ℕ) → r < c → t < c → ((r + t) % c ≡ r + t) ⊎ ((r + t) % c + c ≡ r + t)
wrap_once c r t hr ht = elim (dec_lt (r + t) c) [
  | yes p ↦ inl (mod-eq_of_lt p)
  | no p ↦
      let back : (r + t - c) % c ≡ r + t - c = mod-eq_of_lt (omega arith) in
      let once : (r + t) % c ≡ (r + t - c) % c = mod-eq-sub-mod (omega arith) in
      inr (omega (arith, back, once))
]

-- Going on by less than the capacity comes round at most once.
pub slot_cases : (c p t : ℕ) → t < c → ((p + t) % c ≡ p % c + t) ⊎ ((p + t) % c + c ≡ p % c + t)
slot_cases c p t less = elim (wrap_once c (p % c) t (mod-lt p (omega arith)) less) [
  | inl e ↦ inl (omega (arith, mod-add-mod p c t, e))
  | inr e ↦ inr (omega (arith, mod-add-mod p c t, e))
]

pub length-blit :
    (buf src : List ℕ) (idx : ℕ)
    → idx + length src ≤ length buf
    → length (blit buf idx src) ≡ length buf
length-blit buf src idx fits = omega (
  arith,
  length-append (take idx buf) (src ++ drop (idx + length src) buf),
  length-append src (drop (idx + length src) buf),
  length-take idx buf,
  length-drop (idx + length src) buf,
)

module _ (buf src : List ℕ) (idx : ℕ) (fits : idx + length src ≤ length buf) where
  -- In front of what was copied, in it, and behind it.
  pub get_or-blit_front : (j : ℕ) → j < idx → get_or (blit buf idx src) j 0 ≡ get_or buf j 0
  get_or-blit_front j h =
      get_or-append_left (take idx buf) (src ++ drop (idx + length src) buf) j 0
        (omega (arith, length-take idx buf))
      ∙ get_or-take idx buf j 0 h

  pub get_or-blit_in :
      (j : ℕ) → j < length src → get_or (blit buf idx src) (idx + j) 0 ≡ get_or src j 0
  get_or-blit_in j h =
      get_or-append_right (take idx buf) (src ++ drop (idx + length src) buf) (idx + j) 0
        (omega (arith, length-take idx buf))
      ∙ same_index (src ++ drop (idx + length src) buf) (idx + j - length (take idx buf)) j 0
          (omega (arith, length-take idx buf))
      ∙ get_or-append_left src (drop (idx + length src) buf) j 0 h

  pub get_or-blit_behind :
      (j : ℕ) → idx + length src ≤ j → get_or (blit buf idx src) j 0 ≡ get_or buf j 0
  get_or-blit_behind j h =
      get_or-append_right (take idx buf) (src ++ drop (idx + length src) buf) j 0
        (omega (arith, length-take idx buf))
      ∙ get_or-append_right src (drop (idx + length src) buf) (j - length (take idx buf)) 0
          (omega (arith, length-take idx buf))
      ∙ get_or-drop (idx + length src) buf (j - length (take idx buf) - length src) 0
      ∙ same_index buf (idx + length src + (j - length (take idx buf) - length src)) j 0
          (omega (arith, length-take idx buf))
