-- ===== src/Session/Ring/Read.antt =====
-- What the reads of the ring give of the stream.
use native.Mathlib.Nat.{mod-eq_of_lt, add-mod_right}
use bridge_sessions.Base.{
  ℕ, ◌+◌, ◌-◌, ◌%◌, ◌^◌, ◌≤◌, ◌<◌, min, max, ◌≡◌, sym, ap, ap₂, ◌∙◌, inl, inr, Bool, Bool-cases,
  List, ◌++◌, ◌&&◌, ◌||◌, arith, length, take, drop, leb, ltb, length-append, length-take,
  length-drop, get_or-take, get_or-drop, same_index, list_ext,
}
use bridge_sessions.Session.Ring.{
  RingBuffer, slot, get_round, snapshot, size, read_since, read_max, first_kept, first_sent,
}
use bridge_sessions.Session.Ring.Refine.{Holds, slot-lt}
use bridge_sessions.Session.Ring.Pieces.{pieces, get_round-eq, take_all, drop_all}

module _ (k : ℕ) (r : RingBuffer) (history : List ℕ) (h : Holds k r history) where
  unwrapped : length history ≤ 2 ^ k → take (length history) r.buf ≡ history
  unwrapped short =
      let long = length-take (length history) r.buf in
      list_ext (take (length history) r.buf) history 0 (omega (arith, long, h.array)) (λ i less.
        get_or-take (length history) r.buf i 0 (omega (arith, long, h.array))
        ∙ same_index r.buf i (i % 2 ^ k) 0 (sym (mod-eq_of_lt (omega (arith, long, h.array))))
        ∙ h.kept i (omega (arith, long, h.array)) (omega arith))

  wrapped :
      2 ^ k < length history
      → take (2 ^ k - slot k r.write_pos) (drop (slot k r.write_pos) r.buf)
          ++ take (slot k r.write_pos) r.buf
        ≡ drop (length history - 2 ^ k) history
  wrapped long =
      let idx = slot k r.write_pos in
      let size_eq : length (take (2 ^ k - idx) (drop idx r.buf) ++ take idx r.buf) ≡ 2 ^ k = omega (
        arith,
        h.array,
        slot-lt k r.write_pos,
        length-append (take (2 ^ k - idx) (drop idx r.buf)) (take idx r.buf),
        length-take (2 ^ k - idx) (drop idx r.buf),
        length-drop idx r.buf,
        length-take idx r.buf,
      ) in
      list_ext (take (2 ^ k - idx) (drop idx r.buf) ++ take idx r.buf)
        (drop (length history - 2 ^ k) history) 0
        (omega (arith, size_eq, length-drop (length history - 2 ^ k) history))
        (λ i less.
          pieces k r.buf r.write_pos (2 ^ k) i h.array (omega arith) (omega (arith, size_eq)) idx
            (omega (arith, slot-lt k r.write_pos))
          ∙ same_index r.buf ((r.write_pos + i) % 2 ^ k) ((length history - 2 ^ k + i) % 2 ^ k) 0 (
              ap (λ x. x % 2 ^ k) (round_again i long)
              ∙ add-mod_right (length history - 2 ^ k + i) (2 ^ k))
          ∙ h.kept (length history - 2 ^ k + i) (omega (arith, size_eq)) (omega arith)
          ∙ sym (get_or-drop (length history - 2 ^ k) history i 0))
    where
      round_again :
          (i : ℕ) → 2 ^ k < length history → r.write_pos + i ≡ length history - 2 ^ k + i + 2 ^ k
      round_again i long = omega (arith, h.count)

  -- `snapshot`, of which `read_last_lines` and `read_range` give parts, is the last `2 ^ k` bytes of all
  -- that was written.
  pub snapshot-eq : snapshot k r ≡ drop (length history - 2 ^ k) history
  unfolding snapshot size
  snapshot-eq = elim (Bool-cases (leb r.write_pos (2 ^ k))) [
    | inl short ↦ rw short (
        ap (λ n. take n r.buf) (short_size (ground (arith, h.count)))
        ∙ unwrapped (ground (arith, h.count))
        ∙ sym (ap (λ n. drop n history) (none_lost (ground (arith, h.count)))))
    | inr long ↦ rw long (
        ap (λ p. p ++ take (slot k r.write_pos) r.buf)
          (sym (
            take_all (2 ^ k - slot k r.write_pos) (drop (slot k r.write_pos) r.buf)
              (omega (arith, h.array, length-drop (slot k r.write_pos) r.buf))))
        ∙ wrapped (ground (arith, h.count)))
  ]
    where
      short_size : length history ≤ 2 ^ k → min r.write_pos (2 ^ k) ≡ length history
      short_size le = omega (arith, h.count)

      none_lost : length history ≤ 2 ^ k → length history - 2 ^ k ≡ 0
      none_lost le = omega arith

  sent_eq :
      (since wp : ℕ) → first_sent (first_kept k since wp) wp ≡ max since (wp - min (2 ^ k) read_max)
  sent_eq since wp = ground arith

  reset_eq :
      (since wp : ℕ)
      → ((ltb (2 ^ k) wp && ltb since (wp - 2 ^ k)) || ltb read_max (wp - first_kept k since wp))
        ≡ ltb since (max since (wp - min (2 ^ k) read_max))
  reset_eq since wp = ground arith

  sent_start :
      (since : ℕ)
      → first_sent (first_kept k since r.write_pos) r.write_pos
        ≡ max since (length history - min (2 ^ k) read_max)
  sent_start since =
      sent_eq since r.write_pos ∙ ap (λ n. max since (n - min (2 ^ k) read_max)) h.count

  sent_bytes :
      (since : ℕ)
      → since < length history
      → let start = max since (length history - min (2 ^ k) read_max) in
        get_round k r.buf start (min read_max (r.write_pos - start)) ≡ drop start history
  sent_bytes since less =
      let start = max since (length history - min (2 ^ k) read_max) in
      let n = min read_max (r.write_pos - start) in
      get_round-eq k r history start n h (omega (arith, h.count)) (omega arith)
        (omega (arith, h.count))
      ∙ take_all n (drop start history) (omega (arith, h.count, length-drop start history))

  -- `read_since` gives all of the stream behind the position asked for, but at most the last 2 ^ k bytes
  -- and at most 64 KiB, and tells whether that leaves out some of it.
  pub read_since-eq :
      (since : ℕ)
      → let start = max since (length history - min (2 ^ k) read_max) in
        read_since k r since ≡ (drop start history, ltb since start)
  unfolding read_since
  read_since-eq since =
      let start = max since (length history - min (2 ^ k) read_max) in
      elim (Bool-cases (leb r.write_pos since)) [
        | inl none ↦ rw none (
            sym (
              ap₂ (λ (a : List ℕ) (b : Bool). (a, b))
                (drop_all start history (ground (arith, h.count))) (ground (arith, h.count))))
        | inr behind ↦ rw behind (
            ap₂ (λ (a : List ℕ) (b : Bool). (a, b))
              (ap (λ p. get_round k r.buf p (min read_max (r.write_pos - p))) (sent_start since)
                ∙ sent_bytes since (ground (arith, h.count)))
              (reset_eq since r.write_pos
                ∙ ap (λ n. ltb since (max since (n - min (2 ^ k) read_max))) h.count))
      ]
