-- ===== src/Session/Ring.antt =====
-- `RingBuffer` of bs-session.h: the last bytes of a stream in an array of a power of two.
pub mod Slots
pub mod Round
pub mod Refine
pub mod Pieces
pub mod Read
pub mod Lines
pub mod Stream
use bridge_sessions.Base.{
  ℕ, zero, suc, ◌+◌, ◌-◌, ◌*◌, ◌%◌, ◌^◌, min, max, bit_and, Bool, true, false, ◌||◌, ◌&&◌, not,
  List, [], ◌∷◌, ◌++◌, length, take, drop, get_or, replicate, ltb, leb, ◌==◌, if◌then◌else◌,
}

-- `buf_` and `write_pos_`. The lock makes each operation one step.
pub record RingBuffer : Type 0 where
  pub buf : List ℕ
  pub write_pos : ℕ

-- `memcpy(buf + idx, src, n)` of all of `src`.
abbrev pub blit : List ℕ → ℕ → List ℕ → List ℕ
blit buf idx src = take idx buf ++ (src ++ drop (idx + length src) buf)

-- `kMax` of `read_since`
abbrev pub read_max : ℕ
read_max = 64 * 1024

-- At most `kMax` bytes are sent, the newest ones.
abbrev pub first_sent : ℕ → ℕ → ℕ
first_sent start wp = if ltb read_max (wp - start) then wp - read_max else start

-- How many bytes of `linear` are left in front of the newest lines, scanning back from index `i`;
-- 0 when there are not `target` line feeds.
abbrev pub scan_back : List ℕ → ℕ → ℕ → ℕ
scan_back linear zero target = 0
scan_back linear (suc i) target =
    let feed = get_or linear i 0 == b'\n' in
    if feed && leb target 1 then suc i else scan_back linear i (if feed then target - 1 else target)

-- The line feeds that a read of `num_lines` lines goes back over: one more behind a closing line feed,
-- where the sum wraps around.
abbrev pub feeds_wanted : List ℕ → ℕ → ℕ → ℕ
feeds_wanted linear n num_lines =
    if get_or linear (n - 1) 0 == b'\n' then (num_lines + 1) % 2 ^ 64 else num_lines

-- `read_last_lines` of the linear view, which has `n` bytes.
abbrev pub last_lines : List ℕ → ℕ → ℕ → List ℕ
last_lines linear n num_lines =
    if (num_lines == 0) || (n == 0)
    then []
    else drop (scan_back linear n (feeds_wanted linear n num_lines)) linear

-- A capacity of `2 ^ k`.
module _ (k : ℕ) where
  abbrev pub capacity : ℕ
  capacity = 2 ^ k

  -- `pos & kMask`
  abbrev pub slot : ℕ → ℕ
  slot pos = bit_and pos (2 ^ k - 1)

  -- Bytes that go round at the end of the array.
  abbrev pub put_round : List ℕ → ℕ → List ℕ → List ℕ
  put_round buf idx src =
      let space = capacity - idx in
      if leb (length src) space
      then blit buf idx src
      else blit (blit buf idx (take space src)) 0 (drop space src)

  -- `write` of at least `Capacity` bytes: the last of them, at the slots of their positions.
  abbrev pub put_tail : List ℕ → ℕ → List ℕ → List ℕ
  put_tail buf idx tail =
      let first = capacity - idx in blit (blit buf idx (take first tail)) 0 (drop first tail)

  unfoldable pub write : RingBuffer → List ℕ → RingBuffer
  write r [] = r
  write r (b ∷ bytes) =
      let len = length (b ∷ bytes) in
      let new_pos = (r.write_pos + len) % 2 ^ 64 in
      if leb capacity len
      then record {
        buf = put_tail r.buf (slot new_pos) (drop (len - capacity) (b ∷ bytes));
        write_pos = new_pos;
      }
      else record { buf = put_round r.buf (slot r.write_pos) (b ∷ bytes); write_pos = new_pos }

  unfoldable pub size : RingBuffer → ℕ
  size r = min r.write_pos capacity

  -- The bytes from `start` on, which go round at the end of the array.
  abbrev pub get_round : List ℕ → ℕ → ℕ → List ℕ
  get_round buf start n =
      let idx = slot start in
      let tail = capacity - idx in
      if leb n tail then take n (drop idx buf) else take tail (drop idx buf) ++ take (n - tail) buf

  -- The linear view that `snapshot`, `read_last_lines` and `read_range` build.
  unfoldable pub snapshot : RingBuffer → List ℕ
  snapshot r =
      if leb r.write_pos capacity
      then take (size r) r.buf
      else (let idx = slot r.write_pos in drop idx r.buf ++ take idx r.buf)

  -- The first position that `read_since` delivers.
  abbrev pub first_kept : ℕ → ℕ → ℕ
  first_kept since wp =
      if ltb capacity wp && ltb since (wp - capacity) then wp - capacity else since

  -- The bytes behind `since_byte`, and whether some of them are lost.
  unfoldable pub read_since : RingBuffer → ℕ → List ℕ × Bool
  read_since r since_byte =
      let wp = r.write_pos in
      if leb wp since_byte
      then ([], false)
      else (let kept = first_kept since_byte wp in
          let start = first_sent kept wp in
          let reset =
            (ltb capacity wp && ltb since_byte (wp - capacity)) || ltb read_max (wp - kept) in
          (get_round r.buf start (min read_max (wp - start)), reset))

  unfoldable pub read_last_lines : RingBuffer → ℕ → List ℕ
  read_last_lines r num_lines = last_lines (snapshot r) (size r) num_lines

  unfoldable pub read_range : RingBuffer → ℕ → ℕ → List ℕ
  read_range r offset len =
      let n = size r in
      if leb n offset then [] else take (min len (n - offset)) (drop offset (snapshot r))

  unfoldable pub clear : RingBuffer → RingBuffer
  clear r = record r { write_pos = 0 }

  unfoldable pub empty_ring : RingBuffer
  empty_ring = record { buf = replicate (2 ^ k) 0; write_pos = 0 }
