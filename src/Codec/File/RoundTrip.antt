-- ===== src/Codec/File/RoundTrip.antt =====
-- The file transfer messages read back.
use bridge_sessions.Base.{
  ℕ, ◌^◌, ◌<◌, ◌≡◌, refl, Bool, true, false, not, ◌||◌, List, [], ◌∷◌, arith, ltb, ◌==◌, length,
}
use bridge_sessions.Codec.Result.{file_chunk_over_cap, file_chunk_size_over_cap}
use bridge_sessions.Codec.Serializer.{Put, ◌>>◌, put_str_prefixed_u16, put_if, is_empty}
use bridge_sessions.Codec.Decoder.{◌>>=◌, pure, get_str_prefixed_u16, get_if}
use bridge_sessions.Codec.Wire.{
  ◌⨾◌, Wire, Ends, AtLeast, next, next_end, last, last_end, ends, wire_if, Ends-absent, wire_check,
  nothing->>, next_absent, Ends-optional, AtLeast-both,
}
use bridge_sessions.Codec.Wire.Words.{
  wire_u8, wire_u32be, wire_u64_halves, wire_flag, AtLeast-u8, AtLeast-u64_halves, AtLeast-u32be,
}
use bridge_sessions.Codec.Wire.Texts.{
  wire_str_prefixed, wire_str_prefixed_u16, AtLeast-str_prefixed_u16,
}
use bridge_sessions.Codec.Wire.Blobs.{wire_blob}
use bridge_sessions.Codec.File.{
  max_frame_payload_u32, FileAckMsg, serialize_file_ack, decode_file_ack, FileMetaMsg, put_meta_ext,
  serialize_file_meta, get_meta_ext, decode_file_meta, FileChunkMsg, serialize_file_chunk,
  decode_file_chunk, FileRequestMsg, serialize_file_request, decode_file_request,
}

abbrev pub FileAckFits : FileAckMsg → Type 0
FileAckFits m = (m.chunk_index < 2 ^ 32) × (m.next_requested < 2 ^ 32)

pub wire_file_ack : (m : FileAckMsg) → FileAckFits m → Wire (serialize_file_ack m) decode_file_ack m
unfolding serialize_file_ack decode_file_ack
wire_file_ack m (chunk_index_fits, next_requested_fits) =
    next _ (wire_u32be chunk_index_fits)
    ⨾ next _ (wire_u32be next_requested_fits)
    ⨾ next _ (wire_flag m.error)
    ⨾ last _ (wire_str_prefixed_u16 m.error_msg)

abbrev pub FileMetaFits : FileMetaMsg → Type 0
FileMetaFits m =
    (m.filesize < 2 ^ 64)
    × (m.total_chunks < 2 ^ 32)
    × (m.chunk_size < 2 ^ 32)
    × (m.src_mtime_unix < 2 ^ 64)

wire_meta_ext :
    (mtime direct : ℕ)
    → mtime < 2 ^ 64
    → Wire (put_meta_ext mtime direct) get_meta_ext (mtime, direct)
unfolding put_meta_ext get_meta_ext
wire_meta_ext mtime direct h = next _ (wire_u64_halves h) ⨾ last _ (wire_u8 direct)

AtLeast-meta_ext : (mtime direct : ℕ) → AtLeast 9 (put_meta_ext mtime direct)
unfolding put_meta_ext
AtLeast-meta_ext mtime direct = AtLeast-both (AtLeast-u64_halves mtime) (AtLeast-u8 direct)

-- The extension is left out only if both of its fields are 0.
abbrev ext_sent : ℕ → ℕ → Bool
ext_sent mtime direct = not (mtime == 0) || not (direct == 0)

ext_unsent :
    (mtime direct : ℕ) → ext_sent mtime direct ≡ false → ◌≡◌ {A = ℕ × ℕ} (mtime, direct) (0, 0)
ext_unsent mtime direct h = ground arith

-- Behind an empty destination the extension brings an empty path before it.
no_path_tail :
    {B : Type 0} (f : List ℕ → ℕ × ℕ → B) (sent : Bool) (mtime direct : ℕ)
    → mtime < 2 ^ 64
    → (sent ≡ false → ◌≡◌ {A = ℕ × ℕ} (mtime, direct) (0, 0))
    → Ends
        (put_if sent (put_str_prefixed_u16 [] >> put_meta_ext mtime direct))
        (get_if 2 get_str_prefixed_u16 [] >>= λ d.
          get_if 9 get_meta_ext (0, 0) >>= λ x. pure (f d x))
        (f [] (mtime, direct))
unfolding put_if
no_path_tail f true mtime direct h same =
    next_end _ (wire_if [] (AtLeast-str_prefixed_u16 _) (wire_str_prefixed_u16 []))
    ⨾ last_end _ (ends (wire_if _ (AtLeast-meta_ext mtime direct) (wire_meta_ext mtime direct h)))
no_path_tail f false mtime direct h same =
    next_absent 2 get_str_prefixed_u16 [] _ (omega arith)
      (last_end _ (rw (same refl) (Ends-absent 9 get_meta_ext (0, 0) (omega arith))))

put_meta_tail : List ℕ → ℕ → ℕ → Put
put_meta_tail dest mtime direct = do
  put_if (not (is_empty dest)) (put_str_prefixed_u16 dest)
  put_if (not (mtime == 0) || not (direct == 0))
      (do put_if (is_empty dest) (put_str_prefixed_u16 []); put_meta_ext mtime direct)

meta_tail :
    {B : Type 0} (f : List ℕ → ℕ × ℕ → B) (dest : List ℕ) (mtime direct : ℕ)
    → mtime < 2 ^ 64
    → Ends
        (put_meta_tail dest mtime direct)
        (get_if 2 get_str_prefixed_u16 [] >>= λ d.
          get_if 9 get_meta_ext (0, 0) >>= λ x. pure (f d x))
        (f dest (mtime, direct))
unfolding put_meta_tail is_empty put_if
meta_tail f (c ∷ dest) mtime direct h = rw nothing->> (
    next_end _ (wire_if [] (AtLeast-str_prefixed_u16 _) (wire_str_prefixed_u16 (c ∷ dest)))
    ⨾ last_end _ (
        Ends-optional (ext_sent mtime direct) (omega arith) (AtLeast-meta_ext mtime direct)
          (wire_meta_ext mtime direct h) (ext_unsent mtime direct)))
meta_tail f [] mtime direct h =
    rw nothing->> (no_path_tail f (ext_sent mtime direct) mtime direct h (ext_unsent mtime direct))

pub Ends-file_meta :
    (m : FileMetaMsg) → FileMetaFits m → Ends (serialize_file_meta m) decode_file_meta m
unfolding serialize_file_meta decode_file_meta put_meta_tail
Ends-file_meta m (size, chunks, chunk, mtime) =
    next_end _ (wire_str_prefixed m.filename)
    ⨾ next_end _ (wire_u64_halves size)
    ⨾ next_end _ (wire_str_prefixed m.checksum)
    ⨾ next_end _ (wire_u32be chunks)
    ⨾ next_end _ (wire_if 0 (AtLeast-u32be _) (wire_u32be chunk))
    ⨾ meta_tail _ m.dest_path m.src_mtime_unix m.direct mtime

abbrev pub FileChunkFits : FileChunkMsg → Type 0
FileChunkFits m = (m.chunk_index < 2 ^ 32) × (m.total_chunks < 2 ^ 32)

pub wire_file_chunk :
    (m : FileChunkMsg) → FileChunkFits m → Wire (serialize_file_chunk m) decode_file_chunk m
unfolding serialize_file_chunk decode_file_chunk
wire_file_chunk m (index, chunks) =
    next _ (wire_u32be index)
    ⨾ next _ (wire_u32be chunks)
    ⨾ wire_check (ltb max_frame_payload_u32 (length m.payload)) file_chunk_over_cap λ small.
      last _ (
        wire_blob max_frame_payload_u32 file_chunk_size_over_cap m.payload (omega arith)
          (ground arith))

pub Ends-file_request : (m : FileRequestMsg) → Ends (serialize_file_request m) decode_file_request m
unfolding serialize_file_request decode_file_request
Ends-file_request m =
    next_end _ (wire_str_prefixed_u16 m.path)
    ⨾ last_end _ (
        Ends-optional (not (m.mode == 0)) (omega arith) (AtLeast-u8 m.mode) (wire_u8 m.mode)
          (λ absent. ground arith))
