-- ===== src/Session/Ring/Pieces.antt =====
-- What the two pieces that a read copies out of the array give of the stream.
use native.Mathlib.Nat.{mod-lt}
use native.Mathlib.Decide.{dec_lt}
use bridge_sessions.Base.{
  ℕ, zero, suc, ◌+◌, ◌-◌, ◌%◌, ◌^◌, ◌≤◌, ◌<◌, ◌≡◌, refl, sym, ap, ◌∙◌, inl, inr, Bool-cases, List,
  [], ◌∷◌, ◌++◌, arith, length, take, drop, get_or, leb, length-append, length-take, length-drop,
  get_or-append_left, get_or-append_right, get_or-take, get_or-drop, same_index, list_ext,
}
use bridge_sessions.Base.Masks.{pow_pos, bit_and-mask}
use bridge_sessions.Session.Ring.{RingBuffer, slot, get_round}
use bridge_sessions.Session.Ring.Slots.{slot_cases}
use bridge_sessions.Session.Ring.Refine.{Holds, slot-lt}

-- Two pieces of an array one after the other, the second from its start.
module _ (k : ℕ) (buf : List ℕ) (start n i : ℕ) (array : length buf ≡ 2 ^ k) (small : n ≤ 2 ^ k)
    (less : i < n) where
  piece_front :
      (m : ℕ)
      → i < m
      → slot k start + i < 2 ^ k
      → get_or (take m (drop (slot k start) buf)) i 0 ≡ get_or buf ((start + i) % 2 ^ k) 0
  piece_front m im inside =
      get_or-take m (drop (slot k start) buf) i 0 im
      ∙ get_or-drop (slot k start) buf i 0
      ∙ same_index buf (slot k start + i) ((start + i) % 2 ^ k) 0 (
          omega (
            arith,
            bit_and-mask k start,
            slot_cases (2 ^ k) start i (omega arith),
            mod-lt (start + i) (pow_pos k),
          ))

  piece_back :
      (m : ℕ)
      → i - (2 ^ k - slot k start) < m
      → 2 ^ k ≤ slot k start + i
      → get_or (take m buf) (i - (2 ^ k - slot k start)) 0 ≡ get_or buf ((start + i) % 2 ^ k) 0
  piece_back m im outside =
      get_or-take m buf (i - (2 ^ k - slot k start)) 0 im
      ∙ same_index buf (i - (2 ^ k - slot k start)) ((start + i) % 2 ^ k) 0 (
          omega (
            arith,
            bit_and-mask k start,
            slot-lt k start,
            slot_cases (2 ^ k) start i (omega arith),
            mod-lt (start + i) (pow_pos k),
          ))

  -- The second piece has `m` bytes, enough for the index.
  pub pieces :
      (m : ℕ)
      → n ≤ 2 ^ k - slot k start + m
      → get_or (take (2 ^ k - slot k start) (drop (slot k start) buf) ++ take m buf) i 0
        ≡ get_or buf ((start + i) % 2 ^ k) 0
  pieces m enough = elim (dec_lt (slot k start + i) (2 ^ k)) [
    | yes p ↦
        get_or-append_left (take (2 ^ k - slot k start) (drop (slot k start) buf)) (take m buf) i 0
          (omega (
            arith,
            length-take (2 ^ k - slot k start) (drop (slot k start) buf),
            length-drop (slot k start) buf,
          ))
        ∙ piece_front (2 ^ k - slot k start) (omega arith) p
    | no p ↦
        get_or-append_right (take (2 ^ k - slot k start) (drop (slot k start) buf)) (take m buf) i 0
          (omega (
            arith,
            length-take (2 ^ k - slot k start) (drop (slot k start) buf),
            length-drop (slot k start) buf,
          ))
        ∙ same_index (take m buf)
            (i - length (take (2 ^ k - slot k start) (drop (slot k start) buf)))
            (i - (2 ^ k - slot k start)) 0
            (omega (
              arith,
              length-take (2 ^ k - slot k start) (drop (slot k start) buf),
              length-drop (slot k start) buf,
            ))
        ∙ piece_back m (omega (arith, slot-lt k start)) (omega arith)
  ]

  get_round-slot : get_or (get_round k buf start n) i 0 ≡ get_or buf ((start + i) % 2 ^ k) 0
  get_round-slot = elim (Bool-cases (leb n (2 ^ k - slot k start))) [
    | inl e ↦ rw e (piece_front n less (ground (arith, slot-lt k start)))
    | inr e ↦ rw e (pieces (n - (2 ^ k - slot k start)) (omega arith))
  ]

pub length-get_round :
    (k : ℕ) (buf : List ℕ) (start n : ℕ)
    → length buf ≡ 2 ^ k
    → n ≤ 2 ^ k
    → length (get_round k buf start n) ≡ n
length-get_round k buf start n array small = elim (Bool-cases (leb n (2 ^ k - slot k start))) [
  | inl e ↦ rw e (
      ground (
        arith,
        length-take n (drop (slot k start) buf),
        length-drop (slot k start) buf,
        slot-lt k start,
      ))
  | inr e ↦ rw e (
      ground (
        arith,
        length-append (take (2 ^ k - slot k start) (drop (slot k start) buf))
            (take (n - (2 ^ k - slot k start)) buf),
        length-take (2 ^ k - slot k start) (drop (slot k start) buf),
        length-drop (slot k start) buf,
        length-take (n - (2 ^ k - slot k start)) buf,
        slot-lt k start,
      ))
]

-- The part of the stream that a read of `n` bytes from `start` gives.
pub get_round-eq :
    (k : ℕ) (r : RingBuffer) (history : List ℕ) (start n : ℕ)
    → Holds k r history
    → start + n ≤ length history
    → length history ≤ start + 2 ^ k
    → n ≤ 2 ^ k
    → get_round k r.buf start n ≡ take n (drop start history)
get_round-eq k r history start n h inside recent small =
    let long = length-get_round k r.buf start n h.array small in
    list_ext (get_round k r.buf start n) (take n (drop start history)) 0
      (omega (arith, long, length-take n (drop start history), length-drop start history))
      (λ i less.
        get_round-slot k r.buf start n i h.array small (omega (arith, long))
        ∙ h.kept (start + i) (omega (arith, long)) (omega arith)
        ∙ sym (get_or-drop start history i 0)
        ∙ sym (get_or-take n (drop start history) i 0 (omega (arith, long))))

pub take_all : (n : ℕ) (xs : List ℕ) → length xs ≤ n → take n xs ≡ xs
take_all zero [] h = refl
take_all zero (x ∷ xs) h = absurd (omega arith)
take_all (suc n) [] h = refl
take_all (suc n) (x ∷ xs) h = ap (◌∷◌ x) (take_all n xs (omega arith))

pub drop_all : (n : ℕ) (xs : List ℕ) → length xs ≤ n → drop n xs ≡ []
drop_all zero [] h = refl
drop_all zero (x ∷ xs) h = absurd (omega arith)
drop_all (suc n) [] h = refl
drop_all (suc n) (x ∷ xs) h = drop_all n xs (omega arith)
