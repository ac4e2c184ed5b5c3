-- ===== src/Session/Ring/Refine.antt =====
-- The ring against the stream of all bytes that were ever written to it.
use native.Mathlib.Nat.{mod-lt, add-mod_right}
use native.Mathlib.Decide.{dec_lt}
use bridge_sessions.Base.{
  ℕ, ◌+◌, ◌-◌, ◌%◌, ◌^◌, ◌≤◌, ◌<◌, ◌≡◌, sym, ap, subst, ◌∙◌, ◌⊎◌, inl, inr, Bool-cases, List, [],
  ◌∷◌, ◌++◌, append-nil, arith, length, drop, get_or, leb, length-append, length-drop,
  get_or-append_left, get_or-append_right, get_or-drop, same_index,
}
use bridge_sessions.Base.Masks.{pow_pos, bit_and-mask}
use bridge_sessions.Session.Ring.{RingBuffer, slot, put_round, put_tail, write}
use bridge_sessions.Session.Ring.Slots.{slot_cases}
use bridge_sessions.Session.Ring.Round.{IsBehind, Wrote, put_round-Wrote, put_tail-Wrote}

pub record Holds (k : ℕ) (r : RingBuffer) (history : List ℕ) : Type 0 where
  pub array : length r.buf ≡ 2 ^ k
  pub count : r.write_pos ≡ length history
  pub kept :
      (q : ℕ)
      → q < length history
      → length history ≤ q + 2 ^ k
      → get_or r.buf (q % 2 ^ k) 0 ≡ get_or history q 0

behind : (c p t q : ℕ) → t < c → (q ≡ p + t) ⊎ (q + c ≡ p + t) → IsBehind c (p % c) t (q % c)
behind c p t q less at = record {
  place = elim (slot_cases c p t less) [
    | inl e ↦ inl (same ∙ e)
    | inr e ↦ inr (omega (arith, same, e))
  ];
  slot_lt = mod-lt q (omega arith);
}
  where
    same : q % c ≡ (p + t) % c
    same = elim at [
      | inl e ↦ ap (λ x. x % c) e
      | inr e ↦ sym (add-mod_right q c) ∙ ap (λ x. x % c) e
    ]

module _ (k : ℕ) (r : RingBuffer) (history bytes : List ℕ) (h : Holds k r history) where
  -- A byte that was there before, and one of the new ones, in the history that follows.
  before : (q : ℕ) → q < length history → get_or (history ++ bytes) q 0 ≡ get_or history q 0
  before q less = get_or-append_left history bytes q 0 less

  after : (t q : ℕ) → q ≡ length history + t → get_or (history ++ bytes) q 0 ≡ get_or bytes t 0
  after t q e =
      get_or-append_right history bytes q 0 (omega arith)
      ∙ same_index bytes (q - length history) t 0 (omega arith)

  round-Holds :
      (new_pos : ℕ) (out : List ℕ)
      → new_pos ≡ length history + length bytes
      → 0 < length bytes
      → length bytes < 2 ^ k
      → Wrote (2 ^ k) r.buf (r.write_pos % 2 ^ k) bytes out
      → Holds k (record { buf = out; write_pos = new_pos }) (history ++ bytes)
  round-Holds new_pos out e some_bytes small w = record {
    array = w.whole;
    count = omega (arith, length-append history bytes);
    kept = λ q less recent. elim (dec_lt q (length history)) [
      | yes old ↦
          let t = 2 ^ k - (length history - q) in
          let b =
            behind (2 ^ k) r.write_pos t q (omega (arith, length-append history bytes))
              (inr (omega (arith, h.count, length-append history bytes))) in
          w.miss t (q % 2 ^ k) (omega (arith, length-append history bytes))
            (omega (arith, length-append history bytes)) b
          ∙ h.kept q old (omega (arith, length-append history bytes))
          ∙ sym (before q old)
      | no new ↦
          let t = q - length history in
          let b =
            behind (2 ^ k) r.write_pos t q (omega (arith, length-append history bytes))
              (inl (omega (arith, h.count))) in
          w.hit t (q % 2 ^ k) (omega (arith, length-append history bytes)) b
          ∙ sym (after t q (omega arith))
    ];
  }

  tail-Holds :
      (new_pos : ℕ) (out : List ℕ)
      → new_pos ≡ length history + length bytes
      → 2 ^ k ≤ length bytes
      → Wrote (2 ^ k) r.buf (new_pos % 2 ^ k) (drop (length bytes - 2 ^ k) bytes) out
      → Holds k (record { buf = out; write_pos = new_pos }) (history ++ bytes)
  tail-Holds new_pos out e large w = record {
    array = w.whole;
    count = omega (arith, length-append history bytes);
    kept = λ q less recent.
        let t = q + 2 ^ k - new_pos in
        let b =
          behind (2 ^ k) new_pos t q (omega (arith, length-append history bytes))
            (inr (omega (arith, length-append history bytes))) in
        w.hit t (q % 2 ^ k)
          (omega (arith, length-append history bytes, length-drop (length bytes - 2 ^ k) bytes)) b
        ∙ get_or-drop (length bytes - 2 ^ k) bytes t 0
        ∙ sym (after (length bytes - 2 ^ k + t) q (omega (arith, length-append history bytes)));
  }

tail_length :
    (k : ℕ) (bytes : List ℕ)
    → 2 ^ k ≤ length bytes
    → length (drop (length bytes - 2 ^ k) bytes) ≡ 2 ^ k
tail_length k bytes large = omega (arith, length-drop (length bytes - 2 ^ k) bytes)

pub slot-lt : (k pos : ℕ) → slot k pos < 2 ^ k
slot-lt k pos = omega (arith, bit_and-mask k pos, mod-lt pos (pow_pos k))

-- `write` appends to the history, of which the ring keeps the end. The stream stays under 2 ^ 64 bytes.
pub write-Holds :
    (k : ℕ) (r : RingBuffer) (history bytes : List ℕ)
    → Holds k r history
    → length history + length bytes < 2 ^ 64
    → Holds k (write k r bytes) (history ++ bytes)
unfolding write
write-Holds k r history [] h bound = subst (Holds k r) (sym (append-nil history)) h
write-Holds k r history (b ∷ bytes) h bound =
    let data_len = length (b ∷ bytes) in
    let new_pos = (r.write_pos + data_len) % 2 ^ 64 in
    let e : new_pos ≡ length history + data_len = omega (arith, h.count) in
    elim (Bool-cases (leb (2 ^ k) data_len)) [
      | inl large ↦ rw large (
          tail-Holds k r history (b ∷ bytes) h new_pos
            (put_tail k r.buf (slot k new_pos) (drop (data_len - 2 ^ k) (b ∷ bytes))) e
            (ground arith)
            (subst
              (λ idx.
                Wrote (2 ^ k) r.buf idx (drop (data_len - 2 ^ k) (b ∷ bytes))
                  (put_tail k r.buf (slot k new_pos) (drop (data_len - 2 ^ k) (b ∷ bytes))))
              (bit_and-mask k new_pos)
              (put_tail-Wrote k r.buf (slot k new_pos) (drop (data_len - 2 ^ k) (b ∷ bytes)) h.array
                (slot-lt k new_pos) (tail_length k (b ∷ bytes) (ground arith)))))
      | inr small ↦ rw small (
          round-Holds k r history (b ∷ bytes) h new_pos
            (put_round k r.buf (slot k r.write_pos) (b ∷ bytes)) e (omega arith) (ground arith)
            (subst
              (λ idx.
                Wrote (2 ^ k) r.buf idx (b ∷ bytes)
                  (put_round k r.buf (slot k r.write_pos) (b ∷ bytes)))
              (bit_and-mask k r.write_pos)
              (put_round-Wrote k r.buf (slot k r.write_pos) (b ∷ bytes) h.array
                (slot-lt k r.write_pos) (ground arith))))
    ]
