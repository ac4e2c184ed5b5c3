-- ===== src/Session/Ring/Stream.antt =====
-- The ring over a whole run, from the fresh ring of a session on.
use bridge_sessions.Base.{
  ℕ, zero, suc, ◌-◌, ◌^◌, ◌≤◌, ◌<◌, min, ◌≡◌, refl, sym, ap, subst, ◌∙◌, inl, inr, Bool-cases, List,
  [], ◌∷◌, ◌++◌, append-nil, append_assoc, arith, length, length-append, length-drop, take, drop,
  replicate, leb,
}
use bridge_sessions.Session.Ring.{RingBuffer, write, clear, empty_ring, snapshot, size, read_range}
use bridge_sessions.Session.Ring.Refine.{Holds, write-Holds}
use bridge_sessions.Session.Ring.Pieces.{drop_all}
use bridge_sessions.Session.Ring.Read.{snapshot-eq}

length-replicate : (n b : ℕ) → length (replicate n b) ≡ n
length-replicate zero b = refl
length-replicate (suc n) b = ap suc (length-replicate n b)

-- A fresh ring, and a cleared one, hold nothing.
pub empty_ring-Holds : (k : ℕ) → Holds k (empty_ring k) []
unfolding empty_ring
empty_ring-Holds k = record {
  array = length-replicate (2 ^ k) 0;
  count = refl;
  kept = λ q less. absurd (omega arith);
}

pub clear-Holds :
    (k : ℕ) (r : RingBuffer) (history : List ℕ) → Holds k r history → Holds k (clear k r) []
unfolding clear
clear-Holds k r history h = record {
  array = h.array;
  count = refl;
  kept = λ q less. absurd (omega arith);
}

-- The writes of a run, one after the other.
unfoldable pub write_all : (k : ℕ) → RingBuffer → List (List ℕ) → RingBuffer
write_all k r [] = r
write_all k r (bytes ∷ more) = write_all k (write k r bytes) more

abbrev pub stream : List (List ℕ) → List ℕ
stream [] = []
stream (bytes ∷ more) = bytes ++ stream more

pub write_all-Holds :
    (k : ℕ) (r : RingBuffer) (history : List ℕ) (writes : List (List ℕ))
    → Holds k r history
    → length (history ++ stream writes) < 2 ^ 64
    → Holds k (write_all k r writes) (history ++ stream writes)
unfolding write_all
write_all-Holds k r history [] h bound = subst (Holds k r) (sym (append-nil history)) h
write_all-Holds k r history (bytes ∷ more) h bound =
    let same = append_assoc history bytes (stream more) in
    subst (Holds k (write_all k (write k r bytes) more)) same (
      write_all-Holds k (write k r bytes) (history ++ bytes) more
        (write-Holds k r history bytes h (
          omega (
            arith,
            length-append history (bytes ++ stream more),
            length-append bytes (stream more),
          )))
        (omega (arith, ap length same)))

-- Whatever is written to a fresh ring, in whatever pieces, its linear view is the last 2 ^ k bytes of
-- it. The stream stays under 2 ^ 64 bytes.
pub snapshot-write_all :
    (k : ℕ) (writes : List (List ℕ))
    → length (stream writes) < 2 ^ 64
    → snapshot k (write_all k (empty_ring k) writes)
      ≡ drop (length (stream writes) - 2 ^ k) (stream writes)
snapshot-write_all k writes bound =
    snapshot-eq k (write_all k (empty_ring k) writes) (stream writes)
      (write_all-Holds k (empty_ring k) [] writes (empty_ring-Holds k) bound)

take-nil : (n : ℕ) → take {A = ℕ} n [] ≡ []
take-nil zero = refl
take-nil (suc n) = refl

take-min : (m n : ℕ) (xs : List ℕ) → length xs ≤ n → take (min m n) xs ≡ take m xs
take-min zero n xs h = ap (λ j. take j xs) (let e : min 0 n ≡ 0 = omega arith in e)
take-min (suc m) zero [] h =
    ap (λ j. take {A = ℕ} j []) (let e : min (suc m) 0 ≡ 0 = omega arith in e)
take-min (suc m) zero (x ∷ xs) h = absurd (omega arith)
take-min (suc m) (suc n) [] h =
    ap (λ j. take {A = ℕ} j []) (let e : min (suc m) (suc n) ≡ suc (min m n) = omega arith in e)
take-min (suc m) (suc n) (x ∷ xs) h =
    ap (λ j. take j (x ∷ xs)) (let e : min (suc m) (suc n) ≡ suc (min m n) = omega arith in e)
    ∙ ap (◌∷◌ x) (take-min m n xs (omega arith))

-- `read_range` gives the `len` bytes from `offset` on of what the ring holds of the stream.
pub read_range-eq :
    (k : ℕ) (r : RingBuffer) (history : List ℕ) (offset len : ℕ)
    → Holds k r history
    → read_range k r offset len ≡ take len (drop offset (drop (length history - 2 ^ k) history))
unfolding read_range size
read_range-eq k r history offset len h =
    let linear = drop (length history - 2 ^ k) history in
    let view = snapshot-eq k r history h in
    let n = min r.write_pos (2 ^ k) in
    elim (Bool-cases (leb n offset)) [
      | inl outside ↦ rw outside (
          sym (
            ap (take len) (
              drop_all offset linear
                (ground (arith, h.count, length-drop (length history - 2 ^ k) history)))
            ∙ take-nil len))
      | inr inside ↦ rw inside (
          ap (λ l. take (min len (n - offset)) (drop offset l)) view
          ∙ take-min len (n - offset) (drop offset linear) (
              omega (
                arith,
                h.count,
                length-drop (length history - 2 ^ k) history,
                length-drop offset linear,
              )))
    ]
