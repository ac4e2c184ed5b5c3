-- ===== src/Session/Ring/Round.antt =====
-- Writes that go round at the end of the array put each byte at the slot of its position.
use bridge_sessions.Base.{
  ℕ, ◌+◌, ◌-◌, ◌^◌, ◌≤◌, ◌<◌, ◌≡◌, ◌∙◌, ◌⊎◌, inl, inr, Bool-cases, List, arith, length, take, drop,
  get_or, leb, length-take, length-drop, get_or-take, get_or-drop, same_index,
}
use native.Mathlib.Decide.{dec_lt}
use bridge_sessions.Session.Ring.{blit, put_round, put_tail}
use bridge_sessions.Session.Ring.Slots.{
  length-blit, get_or-blit_front, get_or-blit_in, get_or-blit_behind,
}

-- `s` is the slot `t` places behind the slot `idx` of an array of `c` slots.
pub record IsBehind (c idx t s : ℕ) : Type 0 where
  pub place : (s ≡ idx + t) ⊎ (s + c ≡ idx + t)
  pub slot_lt : s < c

-- `out` is `buf` with the bytes `src` from the slot `idx` on.
pub record Wrote (c : ℕ) (buf : List ℕ) (idx : ℕ) (src out : List ℕ) : Type 0 where
  pub whole : length out ≡ c
  pub hit : (t s : ℕ) → t < length src → IsBehind c idx t s → get_or out s 0 ≡ get_or src t 0
  pub miss :
      (t s : ℕ) → length src ≤ t → t < c → IsBehind c idx t s → get_or out s 0 ≡ get_or buf s 0

module _ (c : ℕ) (buf : List ℕ) (idx : ℕ) (src : List ℕ) (array : length buf ≡ c)
    (inside : idx < c) where
  blit-Wrote : idx + length src ≤ c → Wrote c buf idx src (blit buf idx src)
  blit-Wrote fits = record {
    whole = length-blit buf src idx (omega arith) ∙ array;
    hit = λ t s less b.
        let at : s ≡ idx + t = omega (arith, b.place) in
        same_index (blit buf idx src) s (idx + t) 0 at
        ∙ get_or-blit_in buf src idx (omega arith) t less;
    miss = λ t s ge less b. elim b.place [
      | inl e ↦ get_or-blit_behind buf src idx (omega arith) s (omega arith)
      | inr e ↦ get_or-blit_front buf src idx (omega arith) s (omega arith)
    ];
  }

  module _ (round : c ≤ idx + length src) (small : length src ≤ c) where
    length-front : length (take (c - idx) src) ≡ c - idx
    length-front = omega (arith, length-take (c - idx) src)

    length-back : length (drop (c - idx) src) ≡ length src - (c - idx)
    length-back = length-drop (c - idx) src

    length-middle : length (blit buf idx (take (c - idx) src)) ≡ c
    length-middle = length-blit buf (take (c - idx) src) idx (omega (arith, length-front)) ∙ array

    -- Behind the end of the second copy the first one is seen.
    behind_back :
        (s : ℕ)
        → length (drop (c - idx) src) ≤ s
        → get_or (blit (blit buf idx (take (c - idx) src)) 0 (drop (c - idx) src)) s 0
          ≡ get_or (blit buf idx (take (c - idx) src)) s 0
    behind_back s h =
        get_or-blit_behind (blit buf idx (take (c - idx) src)) (drop (c - idx) src) 0
          (omega (arith, length-back, length-middle)) s (omega arith)

    hit_front :
        (t s : ℕ)
        → t < c - idx
        → IsBehind c idx t s
        → get_or (blit (blit buf idx (take (c - idx) src)) 0 (drop (c - idx) src)) s 0
          ≡ get_or src t 0
    hit_front t s less b =
        behind_back s (omega (arith, length-back, b.place, b.slot_lt))
        ∙ same_index (blit buf idx (take (c - idx) src)) s (idx + t) 0 (omega (arith, b.place))
        ∙ get_or-blit_in buf (take (c - idx) src) idx (omega (arith, length-front)) t
            (omega (arith, length-front))
        ∙ get_or-take (c - idx) src t 0 less

    hit_back :
        (t s : ℕ)
        → c - idx ≤ t
        → t < length src
        → IsBehind c idx t s
        → get_or (blit (blit buf idx (take (c - idx) src)) 0 (drop (c - idx) src)) s 0
          ≡ get_or src t 0
    hit_back t s ge less b =
        same_index (blit (blit buf idx (take (c - idx) src)) 0 (drop (c - idx) src)) s (0 + s) 0
          (omega arith)
        ∙ get_or-blit_in (blit buf idx (take (c - idx) src)) (drop (c - idx) src) 0
            (omega (arith, length-back, length-middle)) s
            (omega (arith, length-back, b.place, b.slot_lt))
        ∙ get_or-drop (c - idx) src s 0
        ∙ same_index src (c - idx + s) t 0 (omega (arith, b.place, b.slot_lt))

    miss_both :
        (t s : ℕ)
        → length src ≤ t
        → t < c
        → IsBehind c idx t s
        → get_or (blit (blit buf idx (take (c - idx) src)) 0 (drop (c - idx) src)) s 0
          ≡ get_or buf s 0
    miss_both t s ge less b =
        behind_back s (omega (arith, length-back, b.place, b.slot_lt))
        ∙ get_or-blit_front buf (take (c - idx) src) idx (omega (arith, length-front)) s
            (omega (arith, b.place, b.slot_lt))

    two_blits-Wrote :
        Wrote c buf idx src (blit (blit buf idx (take (c - idx) src)) 0 (drop (c - idx) src))
    two_blits-Wrote = record {
      whole =
          length-blit (blit buf idx (take (c - idx) src)) (drop (c - idx) src) 0
            (omega (arith, length-back, length-middle))
          ∙ length-middle;
      hit = λ t s less b. elim (dec_lt t (c - idx)) [
        | yes p ↦ hit_front t s p b
        | no p ↦ hit_back t s (omega arith) less b
      ];
      miss = λ t s ge less b. miss_both t s ge less b;
    }

-- The two writes of the ring.
module _ (k : ℕ) (buf : List ℕ) (idx : ℕ) (src : List ℕ) (array : length buf ≡ 2 ^ k)
    (inside : idx < 2 ^ k) where
  pub put_round-Wrote : length src ≤ 2 ^ k → Wrote (2 ^ k) buf idx src (put_round k buf idx src)
  put_round-Wrote small = elim (Bool-cases (leb (length src) (2 ^ k - idx))) [
    | inl e ↦ rw e (blit-Wrote (2 ^ k) buf idx src array inside (ground arith))
    | inr e ↦ rw e (two_blits-Wrote (2 ^ k) buf idx src array inside (ground arith) small)
  ]

  pub put_tail-Wrote : length src ≡ 2 ^ k → Wrote (2 ^ k) buf idx src (put_tail k buf idx src)
  put_tail-Wrote full = two_blits-Wrote (2 ^ k) buf idx src array inside (omega arith) (omega arith)
