-- ===== src/Transfer/Legacy.antt =====
-- The chunks that a sender makes for a peer that does not announce `+frm2`.
use bridge_sessions.Base.{
  ℕ, ◌+◌, ◌%◌, ◌^◌, ◌≡◌, ◌≤◌, refl, true, false, List, ◌++◌, arith, ltb, length, ◌∙◌,
}
use bridge_sessions.Codec.Result.{ok, err, logical_over_cap}
use bridge_sessions.Codec.Serializer.{◌>>◌, put_u32be, put_check, put_blob, put_bytes, be_bytes}
use bridge_sessions.Codec.Zstd.{Zstd}
use bridge_sessions.Codec.File.{FileChunkMsg, serialize_file_chunk, max_frame_payload_u32}
use bridge_sessions.Codec.Message.{file_chunk, serialize_msg}
use bridge_sessions.Codec.Frame.{encode, logical_cap}
use bridge_sessions.Version.Parse.{version_has_cap}
use bridge_sessions.Transfer.Chunks.{transfer_chunk_size_for_peer, cap_frm2}

-- The bytes of a chunk: three words, then the payload.
chunk_bytes :
    (m : FileChunkMsg)
    → length m.payload ≤ max_frame_payload_u32
    → (logical : List ℕ) × (serialize_file_chunk m ≡ ok logical)
      × (length logical ≡ 12 + length m.payload)
unfolding serialize_file_chunk put_u32be put_check put_blob put_bytes ◌>>◌ be_bytes
chunk_bytes m fits =
    let bytes : List ℕ =
      be_bytes 4 m.chunk_index
      ++ (be_bytes 4 m.total_chunks ++ (be_bytes 4 (length m.payload % 2 ^ 32) ++ m.payload)) in
    let under : ltb max_frame_payload_u32 (length m.payload) ≡ false = ground arith in
    (bytes, rw under refl, omega arith)

-- A full chunk of the size that is offered to a peer without `+frm2` does not fit a frame that this
-- peer reads: `encode` throws for it.
pub encode-legacy_chunk :
    (z : Zstd) (m : FileChunkMsg) (stream_id : ℕ) (remote_version : List ℕ)
    → version_has_cap remote_version cap_frm2 ≡ false
    → length m.payload ≡ transfer_chunk_size_for_peer remote_version
    → encode z (file_chunk m) stream_id false ≡ err logical_over_cap
unfolding encode serialize_msg transfer_chunk_size_for_peer
encode-legacy_chunk z m stream_id remote_version legacy full =
    let size : length m.payload ≡ 65536 = full ∙ rw legacy refl in
    let (logical, written, wide) = chunk_bytes m (omega arith) in
    let over : ltb (logical_cap false) (length logical) ≡ true = ground arith in
    rw written (rw over refl)
