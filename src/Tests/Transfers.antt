-- ===== src/Tests/Transfers.antt =====
-- A transfer of three bytes, with a stand-in for OpenSSL whose digest is the content behind an `x`.
use bridge_sessions.Base.{
  ℕ, ◌^◌, ◌%◌, ◌<◌, ◌≡◌, refl, true, false, none, some, List, [], ◌∷◌, ◌++◌, arith, length,
  replicate, codes,
}
use bridge_sessions.Codec.Result.{err, logical_over_cap}
use bridge_sessions.Codec.File.{FileChunkMsg}
use bridge_sessions.Codec.Message.{file_chunk}
use bridge_sessions.Codec.Frame.{encode}
use bridge_sessions.Version.Parse.{version_has_cap}
use bridge_sessions.Transfer.Chunks.{
  cap_frm2, transfer_chunk_size_for_peer, shape, validate_transfer_metadata,
  calculate_transfer_metadata, effective_transfer_chunk_size, chunk_raw_size_max,
  validate_transfer_chunk,
}
use bridge_sessions.Transfer.Shape.{Covers, validate_transfer_metadata-Covers}
use bridge_sessions.Transfer.Timing.{ChunkTimes, no_timing, record_all, IsSummary, record_all_lem}
use bridge_sessions.Transfer.Telemetry.{append_all, append_all_lem}
use bridge_sessions.Transfer.Legacy.{encode-legacy_chunk}
use bridge_sessions.Transfer.Digest.{Digest, IsDigest}
use bridge_sessions.Transfer.Receive.{
  finish_chunk, Answers, Files, FileReceiveState, handle_file_chunks, handle_file_chunk,
  decompress_chunk_payload,
}
use bridge_sessions.Transfer.Receive.Invariant.{
  IsSound, handle_file_chunks-IsComplete, handle_file_chunks-IsSound,
}
use bridge_sessions.Tests.Frames.{plain_zstd}

abbrev plain_digest : Digest
plain_digest = record {
  Ctx = List ℕ;
  start = some [];
  feed = λ c b. some (c ++ b);
  finish = λ c. some (b'x' ∷ c);
}

abbrev plain_sha : List ℕ → List ℕ
plain_sha s = b'x' ∷ s

plain_digest-IsDigest : IsDigest plain_digest plain_sha
plain_digest-IsDigest = record {
  Digests = λ c seen. c ≡ seen;
  start_empty = λ c e. ground arith;
  feed_append = λ c c' seen bytes h e. ground arith;
  finish_sha = λ c seen hex h e. ground arith;
}

abbrev fine : Answers
fine = record {
  write_ok = true;
  close_ok = true;
  flushed = 0;
  part_removed = true;
  sidecar_removed = true;
  read_ok = true;
  rename_ok = true;
  mtime_ok = true;
  filename = codes "a.txt";
  relative = some (codes "a.txt");
}

abbrev fresh : FileReceiveState plain_digest
fresh = record {
  path = codes "/r/a.txt";
  recv_dir = codes "/r";
  checksum = codes "xabc";
  expected_size = 3;
  received_bytes = 0;
  total_chunks = 1;
  received_chunks = 0;
  chunk_raw_size = 65536;
  src_mtime_unix = 0;
  direct = false;
  hasher = some [];
  active = true;
}

abbrev empty_part : Files
empty_part = record { part = some []; published = none; mtime = none; sidecar = true }

abbrev chunks : List (Answers × FileChunkMsg)
chunks = (fine, record { chunk_index = 0; total_chunks = 1; payload = codes "abc" }) ∷ []

fresh-IsSound :
    IsSound plain_digest plain_sha plain_digest-IsDigest 3 (codes "xabc") fresh empty_part
unfolding effective_transfer_chunk_size plain_digest-IsDigest
fresh-IsSound = record {
  sized = refl;
  summed = refl;
  storing = λ e. record {
    content = [];
    part = refl;
    bytes = refl;
    hashed = refl;
    received = refl;
    enough = omega arith;
    chunks_le = omega arith;
    chunks_bound = omega arith;
    size_bound = omega arith;
  };
  complete = λ content e. ground arith;
}

published :
    (handle_file_chunks plain_digest plain_zstd chunks fresh empty_part).1.published
    ≡ some (codes "abc")
unfolding handle_file_chunks finish_chunk handle_file_chunk decompress_chunk_payload
    validate_transfer_chunk effective_transfer_chunk_size
published = refl

handle_file_chunks-IsComplete_example :
    (length (codes "abc") ≡ 3) × (plain_sha (codes "abc") ≡ codes "xabc")
handle_file_chunks-IsComplete_example =
    handle_file_chunks-IsComplete plain_digest plain_sha plain_digest-IsDigest plain_zstd chunks
      fresh empty_part (codes "abc") (refl, tt) fresh-IsSound published

handle_file_chunks-IsSound_example :
    let end = handle_file_chunks plain_digest plain_zstd chunks fresh empty_part in
    IsSound plain_digest plain_sha plain_digest-IsDigest 3 (codes "xabc") end.0 end.1
handle_file_chunks-IsSound_example =
    handle_file_chunks-IsSound plain_digest plain_sha plain_digest-IsDigest plain_zstd 3
      (codes "xabc") chunks fresh empty_part (refl, tt) fresh-IsSound

-- 100,000 bytes take two chunks of 64 KiB.
two_chunks : validate_transfer_metadata 100000 2 0 65536 ≡ shape 2
unfolding validate_transfer_metadata calculate_transfer_metadata effective_transfer_chunk_size
two_chunks = refl

validate_transfer_metadata-Covers_example :
    (◌≡◌ {A = ℕ} 2 2)
    × (2 < 2 ^ 32)
    × Covers 100000 (effective_transfer_chunk_size (65536 % 2 ^ 32) chunk_raw_size_max) 2
validate_transfer_metadata-Covers_example =
    validate_transfer_metadata-Covers 100000 2 0 65536 2 two_chunks

abbrev two_entries : List ℕ
two_entries = 7 ∷ 8 ∷ []

append_all_lem_example : append_all [] two_entries ≡ two_entries
append_all_lem_example = append_all_lem two_entries

abbrev full_chunk : FileChunkMsg
full_chunk = record { chunk_index = 0; total_chunks = 2; payload = replicate 65536 b'a' }

old_version : version_has_cap (codes "26.07.01") cap_frm2 ≡ false
unfolding version_has_cap
old_version = refl

full_size : length full_chunk.payload ≡ transfer_chunk_size_for_peer (codes "26.07.01")
unfolding transfer_chunk_size_for_peer version_has_cap
full_size = refl

encode-legacy_chunk_example :
    encode plain_zstd (file_chunk full_chunk) 0 false ≡ err logical_over_cap
encode-legacy_chunk_example =
    encode-legacy_chunk plain_zstd full_chunk 0 (codes "26.07.01") old_version full_size

abbrev slow : ChunkTimes
slow = record { select = 5; write = 9; drain = 1; total = 20 }

abbrev fast : ChunkTimes
fast = record { select = 7; write = 2; drain = 3; total = 15 }

record_all_lem_example :
    let t = record_all no_timing (slow ∷ fast ∷ []) in
    IsSummary t.select (5 ∷ 7 ∷ [])
    × IsSummary t.write (9 ∷ 2 ∷ [])
    × IsSummary t.drain (1 ∷ 3 ∷ [])
    × IsSummary t.total (20 ∷ 15 ∷ [])
    × (t.count ≡ 2)
record_all_lem_example =
    record_all_lem slow (fast ∷ []) (omega arith) (omega arith) (omega arith) (omega arith)
      (omega arith)
