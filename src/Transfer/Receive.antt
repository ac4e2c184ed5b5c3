-- ===== src/Transfer/Receive.antt =====
-- The receiver of a file: `FileReceiveState` of bs-mesh-conn.h and `handle_file_chunk` of
-- bs-mesh-transfer.h, with the three files that one transfer writes.
pub mod Publish
pub mod Invariant
use bridge_sessions.Base.{
  starts_with, ℕ, zero, suc, ◌+◌, ◌^◌, ◌%◌, ◌≡◌, Bool, true, false, not, ◌&&◌, ◌||◌, Option, none,
  some, List, [], ◌∷◌, ◌++◌, String, codes, ◌=b=◌, length, take, drop, leb, ◌==◌, if◌then◌else◌,
}
use bridge_sessions.Codec.Result.{Result, ok, err}
use bridge_sessions.Codec.Zstd.{Zstd, zstd_decompress}
use bridge_sessions.Codec.File.{FileAckMsg, FileChunkMsg}
use bridge_sessions.Transfer.Digest.{Digest, final_hex, sha256_file_stream, update_hasher}
use bridge_sessions.Transfer.Chunks.{
  Reason, exceeds_max_bytes, too_many_chunks, count_mismatch, total_mismatch, unexpected_index,
  already_exceeds, bytes_mismatch, Verdict, accepted, rejected, validate_transfer_chunk,
}

-- What the system answers during one call: whether the write, the close, the reads of the hash pass,
-- the rename, the change of the file's time and the removals of the partial file and of its sidecar
-- succeed, and what std::filesystem computes of the published path: its last component, and the path
-- relative to the receive root, or an error. A write goes to the buffer of the stream: a close that
-- fails leaves the first `flushed` bytes in the file.
pub record Answers : Type 0 where
  pub write_ok : Bool
  pub close_ok : Bool
  pub flushed : ℕ
  pub part_removed : Bool
  pub sidecar_removed : Bool
  pub read_ok : Bool
  pub rename_ok : Bool
  pub mtime_ok : Bool
  pub filename : List ℕ
  pub relative : Option (List ℕ)

-- `path.part` with what its stream still buffers, `path`, the time that `path` was given, and whether `path.part.bsmeta` is there.
pub record Files : Type 0 where
  pub part : Option (List ℕ)
  pub published : Option (List ℕ)
  pub mtime : Option ℕ
  pub sidecar : Bool

module _ (d : Digest) where
  -- The fields that `handle_file_chunk` reads; `hasher` is null in a resumed transfer.
  pub record FileReceiveState : Type 0 where
    pub path : List ℕ
    pub recv_dir : List ℕ
    pub checksum : List ℕ
    pub expected_size : ℕ
    pub received_bytes : ℕ
    pub total_chunks : ℕ
    pub received_chunks : ℕ
    pub chunk_raw_size : ℕ
    pub src_mtime_unix : ℕ
    pub direct : Bool
    pub hasher : Option d.Ctx
    pub active : Bool

abbrev pub reason_text : Reason → List ℕ
reason_text exceeds_max_bytes = codes "file exceeds transfer.max_bytes"
reason_text too_many_chunks = codes "file requires too many chunks"
reason_text count_mismatch = codes "declared chunk count does not match file size"
reason_text total_mismatch = codes "chunk total does not match transfer metadata"
reason_text unexpected_index = codes "unexpected chunk index"
reason_text already_exceeds = codes "received byte count already exceeds declared size"
reason_text bytes_mismatch = codes "chunk bytes do not match declared file size"

abbrev pub is_zstd_magic : List ℕ → Bool
is_zstd_magic (a ∷ b ∷ c ∷ e ∷ r) = (a == 0x28) && (b == 0xB5) && (c == 0x2F) && (e == 0xFD)
is_zstd_magic r = false

-- A failed decompression falls back to the bytes as they came.
unfoldable pub decompress_chunk_payload : Zstd → List ℕ → List ℕ
decompress_chunk_payload z raw =
    if is_zstd_magic raw then elim (zstd_decompress z raw) [ ok out ↦ out | err e ↦ raw ] else raw

-- `relative_receive_path` of bs-config.h
unfoldable pub relative_receive_path : Answers → List ℕ → List ℕ
relative_receive_path a [] = a.filename
relative_receive_path a (c ∷ receive_root) = elim a.relative [
  | none ↦ a.filename
  | some generic ↦
      if (generic =b= []) || starts_with (codes "..") generic then a.filename else generic
]

-- `fs::remove` of the partial file, of which the error is not read.
abbrev pub remove_part : Answers → Files → Files
remove_part a fs = record fs { part = if a.part_removed then none else fs.part }

abbrev pub take_part : ℕ → Option (List ℕ) → Option (List ℕ)
take_part n none = none
take_part n (some content) = some (take n content)

-- `state.file.close()`, of which the result is not read.
abbrev pub close_part : Answers → Files → Files
close_part a fs = record fs { part = if a.close_ok then fs.part else take_part a.flushed fs.part }

abbrev pub remove_sidecar : Answers → Files → Files
remove_sidecar a fs = record fs { sidecar = not a.sidecar_removed && fs.sidecar }

module _ (d : Digest) where
  -- The state of the receiver, its files, and the answer to the peer, if there is one.
  pub record Handled : Type 0 where
    pub state : FileReceiveState d
    pub files : Files
    pub ack : FileAckMsg

  -- A refusal: the partial file is removed, and the transfer is over.
  abbrev pub refuse : Answers → FileReceiveState d → Files → ℕ → List ℕ → Handled
  refuse a st fs chunk_index reason = record {
    state = record st { active = false };
    files = remove_part a fs;
    ack = record {
      chunk_index = chunk_index;
      next_requested = st.received_chunks;
      error = true;
      error_msg = reason;
    };
  }

  abbrev pub append_part : Option (List ℕ) → List ℕ → Option (List ℕ)
  append_part none bytes = none
  append_part (some content) bytes = some (content ++ bytes)

  -- The digest of what was received: the running one, or in a resumed transfer one of the file.
  abbrev pub actual_checksum : Answers → Option d.Ctx → Option (List ℕ) → List ℕ
  actual_checksum a none part = sha256_file_stream d a.read_ok part
  actual_checksum a (some ctx) part = final_hex d ctx

  abbrev pub checksum_ok : FileReceiveState d → List ℕ → Bool
  checksum_ok st actual = not (actual =b= []) && (actual =b= st.checksum)

  abbrev pub restored_time : Answers → FileReceiveState d → Option ℕ
  restored_time a st =
      if not (st.src_mtime_unix == 0) && a.mtime_ok then some st.src_mtime_unix else none

  -- The rename and the file's time, given whether the checksum and the rename are right: the files,
  -- and an error or an empty text.
  abbrev pub settle : Answers → FileReceiveState d → Files → Bool → Bool → Files × List ℕ
  settle a st fs true true =
      (record fs { published = fs.part; part = none; mtime = restored_time a st }, [])
  settle a st fs true false = (remove_part a fs, codes "cannot publish received file")
  settle a st fs false rename_ok = (remove_part a fs, codes "checksum mismatch")

  abbrev pub publish : Answers → FileReceiveState d → Files → Files × List ℕ
  publish a st fs =
      settle a st fs (checksum_ok st (actual_checksum a st.hasher fs.part)) a.rename_ok

  abbrev pub final_message : Answers → FileReceiveState d → List ℕ → List ℕ
  final_message a st [] =
      if st.direct
      then codes "dest_abs=" ++ st.path
      else codes "path=" ++ relative_receive_path a st.recv_dir
  final_message a st (c ∷ final_error) = c ∷ final_error

  -- The end of the handler, behind the last chunk or behind another one.
  unfoldable pub finish_chunk : Answers → FileReceiveState d → Files → FileChunkMsg → Handled
  finish_chunk a st fs m =
      if leb st.total_chunks st.received_chunks
      then (let done = publish a st (close_part a fs) in
          record {
            state = record st { active = false; hasher = none };
            files = remove_sidecar a (done.0);
            ack = record {
              chunk_index = m.chunk_index;
              next_requested = m.total_chunks;
              error = not (done.1 =b= []);
              error_msg = final_message a st done.1;
            };
          })
      else record {
        state = st;
        files = fs;
        ack = record {
          chunk_index = m.chunk_index;
          next_requested = (m.chunk_index + 1) % 2 ^ 32;
          error = false;
          error_msg = [];
        };
      }

  -- The counters behind an accepted chunk.
  abbrev pub advance : FileReceiveState d → Option d.Ctx → FileChunkMsg → ℕ → FileReceiveState d
  advance st hasher m n = record st {
    hasher = hasher;
    received_chunks = (m.chunk_index + 1) % 2 ^ 32;
    received_bytes = (st.received_bytes + n) % 2 ^ 64;
  }

  -- The bytes of an accepted chunk, given whether the write succeeded and the digest behind them.
  abbrev pub store_bytes :
      Answers
      → FileReceiveState d
      → Files
      → FileChunkMsg
      → List ℕ
      → Bool
      → Option (Option d.Ctx)
      → Handled
  store_bytes a st fs m bytes false hashed =
      refuse a st fs m.chunk_index (codes "failed to write receive file")
  store_bytes a st fs m bytes true none =
      refuse a st fs m.chunk_index (codes "sha256 update failed")
  store_bytes a st fs m bytes true (some hasher) =
      finish_chunk a (advance st hasher m (length bytes))
        (record fs { part = append_part fs.part bytes }) m

  -- An accepted chunk: the bytes are written and hashed, unless there are none.
  abbrev pub store_chunk : Answers → FileReceiveState d → Files → FileChunkMsg → List ℕ → Handled
  store_chunk a st fs m [] = finish_chunk a (advance st st.hasher m 0) fs m
  store_chunk a st fs m (b ∷ bytes) =
      store_bytes a st fs m (b ∷ bytes) a.write_ok (update_hasher d st.hasher (b ∷ bytes))

  abbrev pub judge :
      Answers → FileReceiveState d → Files → FileChunkMsg → List ℕ → Verdict → Handled
  judge a st fs m bytes accepted = store_chunk a st fs m bytes
  judge a st fs m bytes (rejected r) = refuse a st fs m.chunk_index (reason_text r)

  -- A chunk without a transfer is answered, and changes nothing.
  abbrev pub orphan : FileReceiveState d → Files → ℕ → Handled
  orphan st fs chunk_index = record {
    state = st;
    files = fs;
    ack = record {
      chunk_index = chunk_index;
      next_requested = 0;
      error = true;
      error_msg = codes "no active receive";
    };
  }

  abbrev pub take_chunk :
      Bool → Answers → FileReceiveState d → Files → FileChunkMsg → List ℕ → Handled
  take_chunk false a st fs m bytes = orphan st fs m.chunk_index
  take_chunk true a st fs m bytes = judge a st fs m bytes (
      validate_transfer_chunk st.expected_size st.received_bytes st.received_chunks st.total_chunks
        m.chunk_index m.total_chunks (length bytes) st.chunk_raw_size)

  unfoldable pub handle_file_chunk :
      Zstd → Answers → FileReceiveState d → Files → FileChunkMsg → Handled
  handle_file_chunk z a st fs m =
      take_chunk st.active a st fs m (decompress_chunk_payload z m.payload)

  -- Chunks that come one after the other, each with what the system answers.
  unfoldable pub handle_file_chunks :
      Zstd → List (Answers × FileChunkMsg) → FileReceiveState d → Files → FileReceiveState d × Files
  handle_file_chunks z [] st fs = (st, fs)
  handle_file_chunks z (c ∷ cs) st fs =
      let h = handle_file_chunk z c.0 st fs c.1 in handle_file_chunks z cs h.state h.files
