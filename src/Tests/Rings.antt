-- ===== src/Tests/Rings.antt =====
-- A scrollback of eight bytes at concrete streams.
use bridge_sessions.Base.{ℕ, ◌≡◌, true, List, [], ◌∷◌, codes, arith}
use bridge_sessions.Session.Ring.{
  RingBuffer, write, snapshot, read_since, read_last_lines, empty_ring,
}
use bridge_sessions.Session.Ring.Refine.{Holds, write-Holds}
use bridge_sessions.Session.Ring.Read.{read_since-eq}
use bridge_sessions.Session.Ring.Lines.{HasLines, read_last_lines-HasLines}
use bridge_sessions.Session.Ring.Stream.{write_all, snapshot-write_all, empty_ring-Holds}

abbrev pieces : List (List ℕ)
pieces = codes "one\n" ∷ codes "two\n" ∷ codes "three" ∷ []

abbrev start : RingBuffer
start = empty_ring 3

snapshot-write_all_example : snapshot 3 (write_all 3 start pieces) ≡ codes "wo\nthree"
snapshot-write_all_example = snapshot-write_all 3 pieces (omega arith)

write-Holds_example : Holds 3 (write 3 start (codes "one\n")) (codes "one\n")
write-Holds_example = write-Holds 3 start [] (codes "one\n") (empty_ring-Holds 3) (omega arith)

one_line-Holds : Holds 3 (write 3 start (codes "one\n")) (codes "one\n")
one_line-Holds = write-Holds 3 start [] (codes "one\n") (empty_ring-Holds 3) (omega arith)

two_lines-Holds :
    Holds 3 (write 3 (write 3 start (codes "one\n")) (codes "two three")) (codes "one\ntwo three")
two_lines-Holds =
    write-Holds 3 (write 3 start (codes "one\n")) (codes "one\n") (codes "two three") one_line-Holds
      (omega arith)

read_since-eq_example :
    read_since 3 (write 3 (write 3 start (codes "one\n")) (codes "two three")) 2
    ≡ (codes "wo three", true)
read_since-eq_example =
    read_since-eq 3 (write 3 (write 3 start (codes "one\n")) (codes "two three"))
      (codes "one\ntwo three") two_lines-Holds 2

read_last_lines-HasLines_example :
    HasLines (codes "one\n") 1 (read_last_lines 3 (write 3 start (codes "one\n")) 1)
read_last_lines-HasLines_example =
    read_last_lines-HasLines 3 (write 3 start (codes "one\n")) (codes "one\n") 1 one_line-Holds
      (omega arith) (omega arith)
