-- ===== src/Session/Ring/Lines.antt =====
-- The lines that `read_last_lines` cuts off the linear view.
use bridge_sessions.Base.{
  ℕ, zero, suc, ◌+◌, ◌-◌, ◌^◌, ◌≤◌, ◌<◌, ◌≡◌, refl, sym, ap, subst, ap₂, length-drop, inl, inr,
  true, false, Bool-cases, List, [], ◌∷◌, ◌&&◌, ◌||◌, arith, length, drop, get_or, leb, ◌==◌,
  if◌then◌else◌,
}
use bridge_sessions.Session.Ring.{
  RingBuffer, size, snapshot, scan_back, feeds_wanted, last_lines, read_last_lines,
}
use bridge_sessions.Session.Ring.Refine.{Holds}
use bridge_sessions.Session.Ring.Read.{snapshot-eq}

-- The line feeds at the indices from `lo` up to, but not at, `hi`.
abbrev pub feeds : List ℕ → ℕ → ℕ → ℕ
feeds linear lo zero = 0
feeds linear lo (suc hi) =
    feeds linear lo hi + (if leb lo hi && (get_or linear hi 0 == b'\n') then 1 else 0)

-- `cut` is where the last `target` line feeds in front of `hi` begin, behind the first of them.
pub data IsCut (linear : List ℕ) (hi target : ℕ) : ℕ → Type 0 where
  short : feeds linear 0 hi < target → IsCut linear hi target 0
  exact :
      (i : ℕ)
      → i < hi
      → get_or linear i 0 ≡ b'\n'
      → feeds linear (suc i) hi + 1 ≡ target
      → IsCut linear hi target (suc i)

feeds_none : (linear : List ℕ) (lo hi : ℕ) → hi ≤ lo → feeds linear lo hi ≡ 0
feeds_none linear lo zero h = refl
feeds_none linear lo (suc hi) h = ground (arith, feeds_none linear lo hi (omega arith))

module _ (linear : List ℕ) (i : ℕ) where
  skip :
      (target cut : ℕ)
      → (get_or linear i 0 == b'\n') ≡ false
      → IsCut linear i target cut
      → IsCut linear (suc i) target cut
  skip target _ other (short few) = short (ground arith)
  skip target _ other (exact j less nl n) = exact j (omega arith) nl (ground arith)

  pass :
      (target cut : ℕ)
      → (get_or linear i 0 == b'\n') ≡ true
      → 1 ≤ target
      → IsCut linear i target cut
      → IsCut linear (suc i) (suc target) cut
  pass target _ yes_nl pos (short few) = short (ground arith)
  pass target _ yes_nl pos (exact j less nl n) = exact j (omega arith) nl (ground arith)

less_one : (t : ℕ) → suc (suc t) - 1 ≡ suc t
less_one t = omega arith

scan_feed :
    (linear : List ℕ) (i t : ℕ)
    → (get_or linear i 0 == b'\n') ≡ true
    → scan_back linear (suc i) (suc (suc t)) ≡ scan_back linear i (suc t)
scan_feed linear i t feed =
    let many : leb (suc (suc t)) 1 ≡ false = ground arith in
    rw feed (rw many (ap (λ n. scan_back linear i n) (less_one t)))

scan_back-IsCut :
    (linear : List ℕ) (hi target : ℕ)
    → 1 ≤ target
    → IsCut linear hi target (scan_back linear hi target)
scan_back-IsCut linear zero target pos = short (omega arith)
scan_back-IsCut linear (suc i) zero pos = absurd (omega arith)
scan_back-IsCut linear (suc i) (suc zero) pos = elim (Bool-cases (get_or linear i 0 == b'\n')) [
  | inl feed ↦ rw feed (
      exact i (omega arith) (ground arith)
        (omega (arith, feeds_none linear (suc i) (suc i) (omega arith))))
  | inr other ↦
      rw other (skip linear i 1 (scan_back linear i 1) other (scan_back-IsCut linear i 1 pos))
]
scan_back-IsCut linear (suc i) (suc (suc t)) pos = elim (Bool-cases (get_or linear i 0 == b'\n')) [
  | inl feed ↦ subst (IsCut linear (suc i) (suc (suc t))) (sym (scan_feed linear i t feed)) (
      pass linear i (suc t) (scan_back linear i (suc t)) feed (omega arith)
        (scan_back-IsCut linear i (suc t) (omega arith)))
  | inr other ↦ rw other (
      skip linear i (suc (suc t)) (scan_back linear i (suc (suc t))) other
        (scan_back-IsCut linear i (suc (suc t)) pos))
]

-- The lines of `linear` from `cut` on: one for each line feed, and one for bytes behind the last of them.
abbrev pub lines_from : List ℕ → ℕ → ℕ
lines_from linear cut =
    feeds linear cut (length linear)
    + (if (length linear == 0) || (get_or linear (length linear - 1) 0 == b'\n') then 0 else 1)

-- The end of `linear` with `num_lines` lines, or all of it when it has no more than these.
pub data HasLines (linear : List ℕ) (num_lines : ℕ) (out : List ℕ) : Type 0 where
  whole : out ≡ linear → lines_from linear 0 ≤ num_lines → HasLines linear num_lines out
  newest :
      (i : ℕ)
      → i < length linear
      → get_or linear i 0 ≡ b'\n'
      → out ≡ drop (suc i) linear
      → lines_from linear (suc i) ≡ num_lines
      → HasLines linear num_lines out

HasLines-cut :
    (linear : List ℕ) (num_lines cut : ℕ)
    → num_lines + 1 < 2 ^ 64
    → (length linear == 0) ≡ false
    → IsCut linear (length linear) (feeds_wanted linear (length linear) num_lines) cut
    → HasLines linear num_lines (drop cut linear)
HasLines-cut linear num_lines _ small some_bytes (short few) = whole refl (ground arith)
HasLines-cut linear num_lines _ small some_bytes (exact i less feed n) =
    newest i less feed refl (ground arith)

feeds_wanted-pos :
    (linear : List ℕ) (n num_lines : ℕ)
    → 1 ≤ num_lines
    → num_lines + 1 < 2 ^ 64
    → 1 ≤ feeds_wanted linear n num_lines
feeds_wanted-pos linear n num_lines pos small = ground arith

last_lines-HasLines :
    (linear : List ℕ) (num_lines : ℕ)
    → 1 ≤ num_lines
    → num_lines + 1 < 2 ^ 64
    → HasLines linear num_lines (last_lines linear (length linear) num_lines)
last_lines-HasLines [] num_lines pos small = whole (ground arith) (omega arith)
last_lines-HasLines (c ∷ linear) num_lines pos small =
    let all = c ∷ linear in
    let wanted = feeds_wanted all (length all) num_lines in
    let some_bytes : ((num_lines == 0) || (length all == 0)) ≡ false = ground arith in
    rw some_bytes (
      HasLines-cut all num_lines (scan_back all (length all) wanted) small (ground arith) (
        scan_back-IsCut all (length all) wanted
          (feeds_wanted-pos all (length all) num_lines pos small)))

-- `read_last_lines` gives the end of what the ring holds of the stream: exactly the newest `num_lines`
-- lines from behind a line feed, where bytes behind the last line feed are a line, or all of it when that
-- is no more than `num_lines` lines. `num_lines` is from 1 to 2 ^ 64 - 2.
pub read_last_lines-HasLines :
    (k : ℕ) (r : RingBuffer) (history : List ℕ) (num_lines : ℕ)
    → Holds k r history
    → 1 ≤ num_lines
    → num_lines + 1 < 2 ^ 64
    → HasLines (drop (length history - 2 ^ k) history) num_lines (read_last_lines k r num_lines)
unfolding read_last_lines size
read_last_lines-HasLines k r history num_lines h pos small =
    let linear = drop (length history - 2 ^ k) history in
    let same : last_lines (snapshot k r) (size k r) num_lines
        ≡ last_lines linear (length linear) num_lines =
      ap₂ (λ l n. last_lines l n num_lines) (snapshot-eq k r history h)
        (omega (arith, h.count, length-drop (length history - 2 ^ k) history)) in
    subst (HasLines linear num_lines) (sym same) (last_lines-HasLines linear num_lines pos small)
