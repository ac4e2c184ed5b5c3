-- ===== src/Transfer/Shape.antt =====
-- The count of chunks that both ends compute from the size of a file.
use native.Mathlib.Nat.{div-add-mod, mod-lt}
use bridge_sessions.Base.{
  ℕ, zero, suc, ◌+◌, ◌-◌, ◌*◌, ◌/◌, ◌%◌, ◌^◌, ◌≤◌, ◌<◌, ◌≡◌, ◌⊎◌, inl, inr, refl, sym, subst, Bool,
  true, false, ◌&&◌, arith, ltb, if◌then◌else◌,
}
use bridge_sessions.Transfer.Chunks.{
  exceeds_max_bytes, too_many_chunks, Shape, shape, refused, count_of, compare_count,
  effective_transfer_chunk_size, chunk_raw_size_max, chunk_raw_size_min, expected_chunks,
  calculate_transfer_metadata, validate_transfer_metadata,
}

pub effective-bounds :
    (declared max_allowed : ℕ)
    → (chunk_raw_size_min ≤ effective_transfer_chunk_size declared max_allowed)
      × (effective_transfer_chunk_size declared max_allowed ≤ chunk_raw_size_max)
unfolding effective_transfer_chunk_size
effective-bounds declared max_allowed = (ground arith, ground arith)

-- The `n` chunks of at most `c` bytes hold a file of `f` bytes, and one chunk less does not.
pub record Covers (f c n : ℕ) : Type 0 where
  pub holds : f ≤ n * c
  pub least : (n ≡ 1) ⊎ (n * c < f + c)

count_of_even : (q : ℕ) → count_of (suc q) zero ≡ suc q
count_of_even q = ground arith

count_of_odd : (q r : ℕ) → count_of (suc q) (suc r) ≡ suc (suc q)
count_of_odd q r = ground arith

count_of-Covers : (f c q r : ℕ) → c * q + r ≡ f → r < c → Covers f c (count_of q r)
count_of-Covers f c zero zero e less = record { holds = omega arith; least = inl refl }
count_of-Covers f c zero (suc r) e less = record {
  holds = ground arith;
  least = inl (ground arith);
}
count_of-Covers f c (suc q) zero e less =
    subst (Covers f c) (sym (count_of_even q))
      (record { holds = omega arith; least = inr (omega arith) })
count_of-Covers f c (suc q) (suc r) e less =
    subst (Covers f c) (sym (count_of_odd q r))
      (record { holds = omega arith; least = inr (omega arith) })

expected_chunks-Covers : (f c : ℕ) → 0 < c → Covers f c (expected_chunks f c)
expected_chunks-Covers f c pos =
    count_of-Covers f c (f / c) (f % c) (div-add-mod f c) (mod-lt f pos)

compare_count-inv : (t n : ℕ) (s : Shape) → compare_count t s ≡ shape n → (s ≡ shape n) × (t ≡ n)
compare_count-inv t n (refused r) e = ground arith
compare_count-inv t n (shape x) e = ground arith

bounded-inv :
    (over : Bool) (x n : ℕ)
    → (if over
        then refused exceeds_max_bytes
        else (if ltb (2 ^ 32 - 1) x then refused too_many_chunks else shape x))
      ≡ shape n
    → (x ≡ n) × (n < 2 ^ 32)
bounded-inv true x n e = ground arith
bounded-inv false x n e = ground arith

-- Files that the receiver accepts: the announced count is the one that the sender computes, and the
-- chunks of the agreed size cover the file with none to spare.
pub validate_transfer_metadata-Covers :
    (filesize total_chunks max_bytes chunk_raw n : ℕ)
    → validate_transfer_metadata filesize total_chunks max_bytes chunk_raw ≡ shape n
    → (total_chunks ≡ n)
      × (n < 2 ^ 32)
      × Covers filesize (effective_transfer_chunk_size (chunk_raw % 2 ^ 32) chunk_raw_size_max) n
unfolding validate_transfer_metadata calculate_transfer_metadata
validate_transfer_metadata-Covers filesize total_chunks max_bytes chunk_raw n e =
    let c = effective_transfer_chunk_size (chunk_raw % 2 ^ 32) chunk_raw_size_max in
    let counted =
      compare_count-inv total_chunks n (calculate_transfer_metadata filesize max_bytes chunk_raw)
        e in
    let bounded =
      bounded-inv (ltb 0 max_bytes && ltb max_bytes filesize) (expected_chunks filesize c) n
        counted.0 in
    let wide = (effective-bounds (chunk_raw % 2 ^ 32) chunk_raw_size_max).0 in
    (
      counted.1,
      bounded.1,
      subst (Covers filesize c) bounded.0 (expected_chunks-Covers filesize c (omega arith)),
    )
