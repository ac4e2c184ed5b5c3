-- ===== src/Transfer/Chunks.antt =====
-- The sizes of a file transfer: the part of bs-codec.h that both the sender and the receiver use.
use bridge_sessions.Version.Parse.{version_has_cap}
use bridge_sessions.Base.{
  codes, List, ℕ, ◌+◌, ◌*◌, ◌-◌, ◌/◌, ◌%◌, ◌^◌, min, max, not, ◌&&◌, ◌||◌, ltb, leb, ◌==◌,
  if◌then◌else◌,
}

-- `transfer_overall_timeout`, in seconds
unfoldable pub transfer_overall_timeout : ℕ → ℕ
transfer_overall_timeout bytes = min 7200 (max 300 (bytes / (256 * 1024)))

abbrev pub chunk_raw_size_default : ℕ
chunk_raw_size_default = 64 * 1024

abbrev pub chunk_raw_size_large : ℕ
chunk_raw_size_large = 128 * 1024

abbrev pub chunk_raw_size_min : ℕ
chunk_raw_size_min = 4 * 1024

abbrev pub chunk_raw_size_max : ℕ
chunk_raw_size_max = 256 * 1024

unfoldable pub effective_transfer_chunk_size : ℕ → ℕ → ℕ
effective_transfer_chunk_size declared max_allowed =
    let max_c = max (min max_allowed chunk_raw_size_max) chunk_raw_size_min in
    if declared == 0
    then min chunk_raw_size_default max_c
    else min (max declared chunk_raw_size_min) max_c

abbrev pub cap_frm2 : List ℕ
cap_frm2 = codes "frm2"

-- The chunk size that a peer of this version is offered.
unfoldable pub transfer_chunk_size_for_peer : List ℕ → ℕ
transfer_chunk_size_for_peer remote_version =
    if version_has_cap remote_version cap_frm2 then chunk_raw_size_large else chunk_raw_size_default

-- The reasons that a receiver gives.
pub data Reason : Type 0 where
  exceeds_max_bytes : Reason
  too_many_chunks : Reason
  count_mismatch : Reason
  total_mismatch : Reason
  unexpected_index : Reason
  already_exceeds : Reason
  bytes_mismatch : Reason

-- `TransferMetadataValidation`: the number of chunks, or a reason.
pub data Shape : Type 0 where
  shape : ℕ → Shape
  refused : Reason → Shape

-- The number of chunks behind the quotient and the remainder; an empty file takes one.
abbrev pub count_of : ℕ → ℕ → ℕ
count_of quotient remainder =
    let expected = quotient + (if remainder == 0 then 0 else 1) in
    if expected == 0 then 1 else expected

abbrev pub expected_chunks : ℕ → ℕ → ℕ
expected_chunks filesize chunk = count_of (filesize / chunk) (filesize % chunk)

unfoldable pub calculate_transfer_metadata : ℕ → ℕ → ℕ → Shape
calculate_transfer_metadata filesize max_bytes chunk_raw =
    if ltb 0 max_bytes && ltb max_bytes filesize
    then refused exceeds_max_bytes
    else (let expected =
          expected_chunks filesize
            (effective_transfer_chunk_size (chunk_raw % 2 ^ 32) chunk_raw_size_max) in
        if ltb (2 ^ 32 - 1) expected then refused too_many_chunks else shape expected)

-- The end of `validate_transfer_metadata`.
abbrev pub compare_count : ℕ → Shape → Shape
compare_count total_chunks (refused r) = refused r
compare_count total_chunks (shape expected) =
    if total_chunks == expected then shape expected else refused count_mismatch

unfoldable pub validate_transfer_metadata : ℕ → ℕ → ℕ → ℕ → Shape
validate_transfer_metadata filesize total_chunks max_bytes chunk_raw =
    compare_count total_chunks (calculate_transfer_metadata filesize max_bytes chunk_raw)

-- `TransferChunkValidation`
pub data Verdict : Type 0 where
  accepted : Verdict
  rejected : Reason → Verdict

unfoldable pub validate_transfer_chunk : ℕ → ℕ → ℕ → ℕ → ℕ → ℕ → ℕ → ℕ → Verdict
validate_transfer_chunk expected_size received_bytes expected_index expected_total_chunks
      chunk_index chunk_total_chunks decompressed_size chunk_raw =
    if not (chunk_total_chunks == expected_total_chunks)
    then rejected total_mismatch
    else (if not (chunk_index == expected_index) || leb expected_total_chunks chunk_index
        then rejected unexpected_index
        else (if ltb expected_size received_bytes
            then rejected already_exceeds
            else (if decompressed_size
                  == min (expected_size - received_bytes)
                      (effective_transfer_chunk_size (chunk_raw % 2 ^ 32) chunk_raw_size_max)
                then accepted
                else rejected bytes_mismatch)))
