-- ===== src/Codec/File.antt =====
-- The messages of a file transfer.
pub mod RoundTrip
use bridge_sessions.Base.{
  ℕ, zero, suc, ◌+◌, ◌-◌, ◌*◌, ◌%◌, ◌^◌, ◌≤◌, ◌<◌, ◌≡◌, refl, sym, ap, subst, ◌∙◌, ◌≢◌, ◌⊎◌, inl,
  inr, Bool, true, false, not, ◌&&◌, ◌||◌, Option, none, some, List, [], ◌∷◌, ◌++◌, arith, ltb, leb,
  ◌==◌, min, length, take, drop, length-append, append-nil, append_assoc, All, if◌then◌else◌,
  Bool-cases, Option-cases,
}
use bridge_sessions.Base.Signed.{ℤ, IsI32, IsI16}
use bridge_sessions.Codec.Result.{
  Error, ok, err, clipboard_separator, image_over_cap, image_frame_over_cap, file_chunk_over_cap,
  file_chunk_size_over_cap, cua_text_over_cap, cua_data_over_cap, batch_over_512,
}
use bridge_sessions.Codec.Serializer.{
  Put, ◌>>◌, put_nothing, put_bytes, put_u8, put_u16, put_u32be, put_u64be, put_str,
  put_str_prefixed, put_str_prefixed_u16, put_flag, put_u64_halves, put_i32, put_i16, put_check,
  put_blob, put_each, put_if, is_empty,
}
use bridge_sessions.Codec.Decoder.{
  Get, ◌>>=◌, pure, throw, get_u8, get_u16, get_u32be, get_u64be, get_str_size, get_rest,
  get_str_prefixed, get_str_prefixed_u16, get_flag, get_u64_halves, get_i32, get_i16, get_if,
  get_check, get_blob, get_many,
}

pub record FileAckMsg : Type 0 where
  pub chunk_index : ℕ
  pub next_requested : ℕ
  pub error : Bool
  pub error_msg : List ℕ

unfoldable pub serialize_file_ack : FileAckMsg → Put
serialize_file_ack m = do
  put_u32be m.chunk_index
  put_u32be m.next_requested
  put_flag m.error
  put_str_prefixed_u16 m.error_msg

unfoldable pub decode_file_ack : Get FileAckMsg
decode_file_ack = do
  chunk_index ← get_u32be
  next_requested ← get_u32be
  error ← get_flag
  error_msg ← get_str_prefixed_u16
  pure (record {
    chunk_index = chunk_index;
    next_requested = next_requested;
    error = error;
    error_msg = error_msg;
  })

pub record FileMetaMsg : Type 0 where
  pub filename : List ℕ
  pub filesize : ℕ
  pub checksum : List ℕ
  pub total_chunks : ℕ
  pub chunk_size : ℕ
  pub dest_path : List ℕ
  pub src_mtime_unix : ℕ
  pub direct : ℕ

unfoldable pub put_meta_ext : ℕ → ℕ → Put
put_meta_ext src_mtime_unix direct = do put_u64_halves src_mtime_unix; put_u8 direct

unfoldable pub serialize_file_meta : FileMetaMsg → Put
serialize_file_meta m = do
  put_str_prefixed m.filename
  put_u64_halves m.filesize
  put_str_prefixed m.checksum
  put_u32be m.total_chunks
  put_u32be m.chunk_size
  put_if (not (is_empty m.dest_path)) (put_str_prefixed_u16 m.dest_path)
  put_if (not (m.src_mtime_unix == 0) || not (m.direct == 0)) (do
    put_if (is_empty m.dest_path) (put_str_prefixed_u16 [])
    put_meta_ext m.src_mtime_unix m.direct)

unfoldable pub get_meta_ext : Get (ℕ × ℕ)
get_meta_ext = do src_mtime_unix ← get_u64_halves; direct ← get_u8; pure (src_mtime_unix, direct)

unfoldable pub decode_file_meta : Get FileMetaMsg
decode_file_meta = do
  filename ← get_str_prefixed
  filesize ← get_u64_halves
  checksum ← get_str_prefixed
  total_chunks ← get_u32be
  chunk_size ← get_if 4 get_u32be 0
  dest_path ← get_if 2 get_str_prefixed_u16 []
  ext ← get_if 9 get_meta_ext (0, 0)
  pure (record {
    filename = filename;
    filesize = filesize;
    checksum = checksum;
    total_chunks = total_chunks;
    chunk_size = chunk_size;
    dest_path = dest_path;
    src_mtime_unix = ext.0;
    direct = ext.1;
  })

-- `MAX_FRAME_PAYLOAD_U32`
abbrev pub max_frame_payload_u32 : ℕ
max_frame_payload_u32 = 4 * 1024 * 1024

pub record FileChunkMsg : Type 0 where
  pub chunk_index : ℕ
  pub total_chunks : ℕ
  pub payload : List ℕ

unfoldable pub serialize_file_chunk : FileChunkMsg → Put
serialize_file_chunk m = do
  put_u32be m.chunk_index
  put_u32be m.total_chunks
  put_check (ltb max_frame_payload_u32 (length m.payload)) file_chunk_over_cap
  put_blob m.payload

unfoldable pub decode_file_chunk : Get FileChunkMsg
decode_file_chunk = do
  chunk_index ← get_u32be
  total_chunks ← get_u32be
  payload ← get_blob max_frame_payload_u32 file_chunk_size_over_cap
  pure (record { chunk_index = chunk_index; total_chunks = total_chunks; payload = payload })

pub record FileRequestMsg : Type 0 where
  pub path : List ℕ
  pub mode : ℕ

unfoldable pub serialize_file_request : FileRequestMsg → Put
serialize_file_request m = do
  put_str_prefixed_u16 m.path
  put_if (not (m.mode == 0)) (put_u8 m.mode)

unfoldable pub decode_file_request : Get FileRequestMsg
decode_file_request = do
  path ← get_str_prefixed_u16
  mode ← get_if 1 get_u8 0
  pure (record { path = path; mode = mode })
