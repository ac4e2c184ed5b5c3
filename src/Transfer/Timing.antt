-- ===== src/Transfer/Timing.antt =====
-- `TransferChunkTiming` of bs-codec.h: the times of the chunks of one transfer, in microseconds. They
-- are durations, so none is negative, and the sums are the bits of an `int64_t`; the means of `format` are floating point and are not modelled.
use bridge_sessions.Base.{
  ◌<◌, ◌⊎◌, inl, inr, refl, sym, subst, ◌∙◌, Bool-cases, leb, length, ℕ, ◌+◌, ◌-◌, ◌%◌, ◌^◌, ◌≤◌,
  min, max, ◌≡◌, List, [], ◌∷◌, All, map, arith,
}

-- The four times of a chunk.
pub record ChunkTimes : Type 0 where
  pub select : ℕ
  pub write : ℕ
  pub drain : ℕ
  pub total : ℕ

-- The sum, the least and the greatest of one of the times.
pub record Stat : Type 0 where
  pub us : ℕ
  pub least : ℕ
  pub most : ℕ

pub record TransferChunkTiming : Type 0 where
  pub select : Stat
  pub write : Stat
  pub drain : Stat
  pub total : Stat
  pub count : ℕ

-- The least starts at `INT64_MAX`.
abbrev pub no_time : Stat
no_time = record { us = 0; least = 2 ^ 63 - 1; most = 0 }

abbrev pub no_timing : TransferChunkTiming
no_timing = record {
  select = no_time;
  write = no_time;
  drain = no_time;
  total = no_time;
  count = 0;
}

abbrev pub add_time : Stat → ℕ → Stat
add_time s t = record { us = (s.us + t) % 2 ^ 64; least = min s.least t; most = max s.most t }

-- `record`
unfoldable pub record_chunk : TransferChunkTiming → ChunkTimes → TransferChunkTiming
record_chunk t c = record {
  select = add_time t.select c.select;
  write = add_time t.write c.write;
  drain = add_time t.drain c.drain;
  total = add_time t.total c.total;
  count = (t.count + 1) % 2 ^ 32;
}

unfoldable pub record_all : TransferChunkTiming → List ChunkTimes → TransferChunkTiming
record_all t [] = t
record_all t (c ∷ cs) = record_all (record_chunk t c) cs

abbrev pub sum : List ℕ → ℕ
sum [] = 0
sum (t ∷ ts) = t + sum ts

-- One statistic of a run of chunks.
abbrev add_times : Stat → List ℕ → Stat
add_times s [] = s
add_times s (t ∷ ts) = add_times (add_time s t) ts

pub data Among (t : ℕ) : List ℕ → Type 0 where
  first : (ts : List ℕ) → Among t (t ∷ ts)
  later : (u : ℕ) (ts : List ℕ) → Among t ts → Among t (u ∷ ts)

-- What the statistic `s` holds behind the times `ts`, from `start` on.
record Extends (start s : Stat) (ts : List ℕ) : Type 0 where
  added : s.us ≡ start.us + sum ts
  lower : All (λ t. s.least ≤ t) ts
  upper : All (λ t. t ≤ s.most) ts
  least_le : s.least ≤ start.least
  most_ge : start.most ≤ s.most
  least_of : (s.least ≡ start.least) ⊎ Among s.least ts
  most_of : (s.most ≡ start.most) ⊎ Among s.most ts

Extends-none : (s : Stat) → Extends s s []
Extends-none s = record {
  added = omega arith;
  lower = tt;
  upper = tt;
  least_le = omega arith;
  most_ge = omega arith;
  least_of = inl refl;
  most_of = inl refl;
}

among_either :
    (x start chosen t : ℕ) (ts : List ℕ)
    → (chosen ≡ start) ⊎ (chosen ≡ t)
    → (x ≡ chosen) ⊎ Among x ts
    → (x ≡ start) ⊎ Among x (t ∷ ts)
among_either x start chosen t ts which (inr among) = inr (later t ts among)
among_either x start chosen t ts (inl old) (inl same) = inl (same ∙ old)
among_either x start chosen t ts (inr new) (inl same) =
    inr (subst (λ u. Among u (t ∷ ts)) (sym (same ∙ new)) (first ts))

min_which : (a b : ℕ) → (min a b ≡ a) ⊎ (min a b ≡ b)
min_which a b = elim (Bool-cases (leb a b)) [
  | inl less ↦ inl (ground arith)
  | inr more ↦ inr (ground arith)
]

max_which : (a b : ℕ) → (max a b ≡ a) ⊎ (max a b ≡ b)
max_which a b = elim (Bool-cases (leb b a)) [
  | inl less ↦ inl (ground arith)
  | inr more ↦ inr (ground arith)
]

Extends-add :
    (start s : Stat) (t : ℕ) (ts : List ℕ)
    → start.us + sum (t ∷ ts) < 2 ^ 63
    → Extends (add_time start t) s ts
    → Extends start s (t ∷ ts)
Extends-add start s t ts small h = record {
  added = omega (arith, h.added);
  lower = (omega (arith, h.least_le), h.lower);
  upper = (omega (arith, h.most_ge), h.upper);
  least_le = omega (arith, h.least_le);
  most_ge = omega (arith, h.most_ge);
  least_of =
      among_either s.least start.least (min start.least t) t ts (min_which start.least t)
        h.least_of;
  most_of =
      among_either s.most start.most (max start.most t) t ts (max_which start.most t) h.most_of;
}

add_times-Extends :
    (start : Stat) (ts : List ℕ)
    → start.us + sum ts < 2 ^ 63
    → Extends start (add_times start ts) ts
add_times-Extends start [] small = Extends-none start
add_times-Extends start (t ∷ ts) small =
    Extends-add start (add_times start (t ∷ ts)) t ts small
      (add_times-Extends (add_time start t) ts (omega arith))

-- The sum, the least and the greatest of the times `ts`: both are among them.
pub record IsSummary (s : Stat) (ts : List ℕ) : Type 0 where
  pub added : s.us ≡ sum ts
  pub lower : All (λ t. s.least ≤ t) ts
  pub upper : All (λ t. t ≤ s.most) ts
  pub least_of : Among s.least ts
  pub most_of : Among s.most ts

-- A bound that starts outside of the times is one of them when there are any.
least_among :
    (least t : ℕ) (ts : List ℕ)
    → t < 2 ^ 63
    → least ≤ t
    → (least ≡ 2 ^ 63 - 1) ⊎ Among least (t ∷ ts)
    → Among least (t ∷ ts)
least_among least t ts small le (inr among) = among
least_among least t ts small le (inl start) =
    let same : t ≡ least = omega arith in subst (λ u. Among u (t ∷ ts)) same (first ts)

most_among :
    (most t : ℕ) (ts : List ℕ) → t ≤ most → (most ≡ 0) ⊎ Among most (t ∷ ts) → Among most (t ∷ ts)
most_among most t ts ge (inr among) = among
most_among most t ts ge (inl start) =
    let same : t ≡ most = omega arith in subst (λ u. Among u (t ∷ ts)) same (first ts)

add_times-IsSummary :
    (t : ℕ) (ts : List ℕ) → sum (t ∷ ts) < 2 ^ 63 → IsSummary (add_times no_time (t ∷ ts)) (t ∷ ts)
add_times-IsSummary t ts small =
    let s = add_times no_time (t ∷ ts) in
    let h = add_times-Extends no_time (t ∷ ts) (omega (arith, small)) in
    record {
      added = omega (arith, h.added);
      lower = h.lower;
      upper = h.upper;
      least_of = least_among s.least t ts (omega arith) h.lower.0 h.least_of;
      most_of = most_among s.most t ts h.upper.0 h.most_of;
    }

-- Each of the four statistics is on its own.
record_all-parts :
    (t : TransferChunkTiming) (cs : List ChunkTimes)
    → record_all t cs ≡ record {
      select = add_times t.select (map (λ c. c.select) cs);
      write = add_times t.write (map (λ c. c.write) cs);
      drain = add_times t.drain (map (λ c. c.drain) cs);
      total = add_times t.total (map (λ c. c.total) cs);
      count = (record_all t cs).count;
    }
unfolding record_all record_chunk
record_all-parts t [] = refl
record_all-parts t (c ∷ cs) = record_all-parts (record_chunk t c) cs

record_all-count :
    (t : TransferChunkTiming) (cs : List ChunkTimes)
    → t.count + length cs < 2 ^ 32
    → (record_all t cs).count ≡ t.count + length cs
unfolding record_all record_chunk
record_all-count t [] small = omega arith
record_all-count t (c ∷ cs) small =
    record_all-count (record_chunk t c) cs (omega arith) ∙ omega arith

-- Behind a first chunk and any others each of the four statistics holds the sum, the least and the greatest of
-- its times, and the count is that of the chunks. The sums fit an `int64_t`, the count a `uint32_t`.
pub record_all_lem :
    (c : ChunkTimes) (cs : List ChunkTimes)
    → sum (map (λ x. x.select) (c ∷ cs)) < 2 ^ 63
    → sum (map (λ x. x.write) (c ∷ cs)) < 2 ^ 63
    → sum (map (λ x. x.drain) (c ∷ cs)) < 2 ^ 63
    → sum (map (λ x. x.total) (c ∷ cs)) < 2 ^ 63
    → length (c ∷ cs) < 2 ^ 32
    → let t = record_all no_timing (c ∷ cs) in
      IsSummary t.select (map (λ x. x.select) (c ∷ cs))
      × IsSummary t.write (map (λ x. x.write) (c ∷ cs))
      × IsSummary t.drain (map (λ x. x.drain) (c ∷ cs))
      × IsSummary t.total (map (λ x. x.total) (c ∷ cs))
      × (t.count ≡ length (c ∷ cs))
record_all_lem c cs selects writes drains totals few =
    let same = sym (record_all-parts no_timing (c ∷ cs)) in
    (
      subst (λ (t : TransferChunkTiming). IsSummary t.select (map (λ x. x.select) (c ∷ cs))) same
          (add_times-IsSummary c.select _ selects),
      subst (λ (t : TransferChunkTiming). IsSummary t.write (map (λ x. x.write) (c ∷ cs))) same
          (add_times-IsSummary c.write _ writes),
      subst (λ (t : TransferChunkTiming). IsSummary t.drain (map (λ x. x.drain) (c ∷ cs))) same
          (add_times-IsSummary c.drain _ drains),
      subst (λ (t : TransferChunkTiming). IsSummary t.total (map (λ x. x.total) (c ∷ cs))) same
          (add_times-IsSummary c.total _ totals),
      omega (arith, record_all-count no_timing (c ∷ cs) (omega (arith, few))),
    )
