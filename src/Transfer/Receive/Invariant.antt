-- ===== src/Transfer/Receive/Invariant.antt =====
-- What every chunk leaves true of the receiver of a file.
use bridge_sessions.Base.{
  All, codes, ℕ, suc, ◌+◌, ◌*◌, ◌-◌, ◌^◌, ◌%◌, ◌≤◌, ◌<◌, min, ◌≡◌, refl, sym, ap, subst, ◌∙◌, inl,
  inr, Bool, true, false, Option, none, some, Bool-cases, List, [], ◌∷◌, ◌++◌, append-nil, length,
  length-append, leb, arith,
}
use bridge_sessions.Codec.Zstd.{Zstd}
use bridge_sessions.Codec.File.{FileChunkMsg}
use bridge_sessions.Transfer.Chunks.{
  Verdict, accepted, rejected, validate_transfer_chunk, effective_transfer_chunk_size,
  chunk_raw_size_max,
}
use bridge_sessions.Transfer.Digest.{
  Digest, IsDigest, IsHashed, update_hasher, update_hasher-IsHashed,
}
use bridge_sessions.Transfer.Receive.Publish.{IsComplete, checksum_ok-eq, settle-IsComplete}
use bridge_sessions.Transfer.Receive.{
  take_chunk, handle_file_chunks, Answers, Files, FileReceiveState, checksum_ok, publish, refuse,
  store_bytes, append_part, actual_checksum, finish_chunk, advance, store_chunk, judge,
  handle_file_chunk, decompress_chunk_payload, reason_text, close_part,
}

module _ (d : Digest) (sha : List ℕ → List ℕ) (laws : IsDigest d sha) where
  abbrev chunk_of : FileReceiveState d → ℕ
  chunk_of st = effective_transfer_chunk_size (st.chunk_raw_size % 2 ^ 32) chunk_raw_size_max

  -- The counters and the partial file of a receiver that has taken `st.received_chunks` chunks.
  pub record IsStored (st : FileReceiveState d) (fs : Files) : Type 0 where
    pub content : List ℕ
    pub part : fs.part ≡ some content
    pub bytes : length content ≡ st.received_bytes
    pub hashed : IsHashed d sha laws st.hasher content
    pub received : st.received_bytes ≡ min (st.received_chunks * chunk_of st) st.expected_size
    pub enough : st.expected_size ≤ st.total_chunks * chunk_of st
    pub chunks_le : st.received_chunks ≤ st.total_chunks
    pub chunks_bound : st.total_chunks < 2 ^ 32
    pub size_bound : st.expected_size < 2 ^ 64

  pub record IsSound (size : ℕ) (checksum : List ℕ) (st : FileReceiveState d) (fs : Files)
      : Type 0 where
    pub sized : st.expected_size ≡ size
    pub summed : st.checksum ≡ checksum
    pub storing : st.active ≡ true → IsStored st fs
    pub complete :
        (content : List ℕ)
        → fs.published ≡ some content
        → IsComplete d sha laws size checksum content

  refuse-IsSound :
      (size : ℕ) (checksum : List ℕ) (a : Answers) (st : FileReceiveState d) (fs : Files) (i : ℕ)
      (reason : List ℕ)
      → IsSound size checksum st fs
      → IsSound size checksum (refuse d a st fs i reason).state (refuse d a st fs i reason).files
  refuse-IsSound size checksum a st fs i reason s = record {
    sized = s.sized;
    summed = s.summed;
    storing = λ e. ground arith;
    complete = s.complete;
  }

  -- Behind the last chunk the file has all its bytes.
  stored-full :
      (st : FileReceiveState d) (fs : Files) (stored : IsStored st fs)
      → leb st.total_chunks st.received_chunks ≡ true
      → length stored.content ≡ st.expected_size
  stored-full st fs stored last =
      let all : st.received_chunks ≡ st.total_chunks = ground arith in
      omega (arith, ap (λ x. x * chunk_of st) all)

  published-IsComplete :
      (size : ℕ) (checksum : List ℕ) (a : Answers) (st : FileReceiveState d) (fs : Files)
      → st.expected_size ≡ size
      → st.checksum ≡ checksum
      → IsStored st fs
      → leb st.total_chunks st.received_chunks ≡ true
      → ((old : List ℕ) → fs.published ≡ some old → IsComplete d sha laws size checksum old)
      → (written : List ℕ) → (publish d a st fs).0.published ≡ some written
      → IsComplete d sha laws size checksum written
  published-IsComplete size checksum a st fs sized summed stored last old written e =
      let full = stored-full st fs stored last ∙ sized in
      let done =
        settle-IsComplete d sha laws a st fs stored.content
          (checksum_ok d st (actual_checksum d a st.hasher fs.part)) a.rename_ok stored.part
          (λ k.
            checksum_ok-eq d sha laws a st stored.content stored.hashed (
              subst (λ x. checksum_ok d st (actual_checksum d a st.hasher x) ≡ true) stored.part k))
          (λ o eo. record {
            full = (old o eo).full ∙ sym full;
            same_sum = (old o eo).same_sum ∙ sym summed;
          })
          written e in
      record { full = done.full ∙ full; same_sum = done.same_sum ∙ summed }

  close_part-ok : (a : Answers) (fs : Files) → a.close_ok ≡ true → close_part a fs ≡ fs
  close_part-ok a fs closed = rw closed refl

  -- Behind the counters of an accepted chunk.
  finish_chunk-IsSound :
      (size : ℕ) (checksum : List ℕ) (a : Answers) (st : FileReceiveState d) (fs : Files)
      (m : FileChunkMsg)
      → a.close_ok ≡ true
      → st.expected_size ≡ size
      → st.checksum ≡ checksum
      → IsStored st fs
      → ((old : List ℕ) → fs.published ≡ some old → IsComplete d sha laws size checksum old)
      → IsSound size checksum (finish_chunk d a st fs m).state (finish_chunk d a st fs m).files
  unfolding finish_chunk
  finish_chunk-IsSound size checksum a st fs m closed sized summed stored old =
      elim (Bool-cases (leb st.total_chunks st.received_chunks)) [
        | inl last ↦ rw last (record {
          sized = sized;
          summed = summed;
          storing = λ e. ground arith;
          complete =
              subst
                (λ (f : Files).
                  (written : List ℕ)
                  → (publish d a st f).0.published ≡ some written
                  → IsComplete d sha laws size checksum written)
                (sym (close_part-ok a fs closed))
                (published-IsComplete size checksum a st fs sized summed stored last old);
        })
        | inr more ↦
            rw more
              (record { sized = sized; summed = summed; storing = λ e. stored; complete = old })
      ]

  -- What `validate_transfer_chunk` accepts.
  record IsNext (st : FileReceiveState d) (m : FileChunkMsg) (bytes : List ℕ) : Type 0 where
    index : m.chunk_index ≡ st.received_chunks
    more : m.chunk_index < st.total_chunks
    size : length bytes ≡ min (st.expected_size - st.received_bytes) (chunk_of st)

  next_chunk : (i rc total : ℕ) → i ≡ rc → i < total → total < 2 ^ 32 → (i + 1) % 2 ^ 32 ≡ suc rc
  next_chunk i rc total e less bound = omega arith

  -- What an accepted chunk leaves, once its bytes are in the file and in the digest.
  advance-IsStored :
      (st : FileReceiveState d) (fs after : Files) (m : FileChunkMsg) (stored : IsStored st fs)
      (hasher : Option d.Ctx) (bytes : List ℕ)
      → after.part ≡ some (stored.content ++ bytes)
      → IsHashed d sha laws hasher (stored.content ++ bytes)
      → IsNext st m bytes
      → IsStored (advance d st hasher m (length bytes)) after
  advance-IsStored st fs after m stored hasher bytes p h next = record {
    content = stored.content ++ bytes;
    part = p;
    bytes = omega (arith, length-append stored.content bytes);
    hashed = h;
    received = omega (
      arith,
      ap (λ x. x * chunk_of st)
          (next_chunk m.chunk_index st.received_chunks st.total_chunks next.index next.more
            stored.chunks_bound),
    );
    enough = stored.enough;
    chunks_le = omega arith;
    chunks_bound = stored.chunks_bound;
    size_bound = stored.size_bound;
  }

  store_bytes-IsSound :
      (size : ℕ) (checksum : List ℕ) (a : Answers) (st : FileReceiveState d) (fs : Files)
      (m : FileChunkMsg) (bytes : List ℕ) (write_ok : Bool) (hashed : Option (Option d.Ctx))
      → a.close_ok ≡ true
      → IsSound size checksum st fs
      → IsStored st fs
      → update_hasher d st.hasher bytes ≡ hashed
      → IsNext st m bytes
      → IsSound size checksum
          (store_bytes d a st fs m bytes write_ok hashed).state
          (store_bytes d a st fs m bytes write_ok hashed).files
  store_bytes-IsSound size checksum a st fs m bytes false hashed closed s stored e next =
      refuse-IsSound size checksum a st fs m.chunk_index (codes "failed to write receive file") s
  store_bytes-IsSound size checksum a st fs m bytes true none closed s stored e next =
      refuse-IsSound size checksum a st fs m.chunk_index (codes "sha256 update failed") s
  store_bytes-IsSound size checksum a st fs m bytes true (some hasher) closed s stored e next =
      let after : Files = record fs { part = append_part d fs.part bytes } in
      finish_chunk-IsSound size checksum a (advance d st hasher m (length bytes)) after m closed
        s.sized s.summed
        (advance-IsStored st fs after m stored hasher bytes
          (ap (λ x. append_part d x bytes) stored.part)
          (update_hasher-IsHashed d sha laws st.hasher hasher stored.content bytes stored.hashed e)
          next)
        s.complete

  store_chunk-IsSound :
      (size : ℕ) (checksum : List ℕ) (a : Answers) (st : FileReceiveState d) (fs : Files)
      (m : FileChunkMsg) (bytes : List ℕ)
      → a.close_ok ≡ true
      → IsSound size checksum st fs
      → IsStored st fs
      → IsNext st m bytes
      → IsSound size checksum
          (store_chunk d a st fs m bytes).state
          (store_chunk d a st fs m bytes).files
  store_chunk-IsSound size checksum a st fs m [] closed s stored next =
      let same = sym (append-nil stored.content) in
      finish_chunk-IsSound size checksum a (advance d st st.hasher m 0) fs m closed s.sized s.summed
        (advance-IsStored st fs fs m stored st.hasher [] (stored.part ∙ ap some same)
          (subst (IsHashed d sha laws st.hasher) same stored.hashed) next)
        s.complete
  store_chunk-IsSound size checksum a st fs m (b ∷ bytes) closed s stored next =
      store_bytes-IsSound size checksum a st fs m (b ∷ bytes) a.write_ok
        (update_hasher d st.hasher (b ∷ bytes)) closed s stored refl next

  judge-IsSound :
      (size : ℕ) (checksum : List ℕ) (a : Answers) (st : FileReceiveState d) (fs : Files)
      (m : FileChunkMsg) (bytes : List ℕ) (v : Verdict)
      → a.close_ok ≡ true
      → IsSound size checksum st fs
      → IsStored st fs
      → (v ≡ accepted → IsNext st m bytes)
      → IsSound size checksum (judge d a st fs m bytes v).state (judge d a st fs m bytes v).files
  judge-IsSound size checksum a st fs m bytes accepted closed s stored next =
      store_chunk-IsSound size checksum a st fs m bytes closed s stored (next refl)
  judge-IsSound size checksum a st fs m bytes (rejected r) closed s stored next =
      refuse-IsSound size checksum a st fs m.chunk_index (reason_text r) s

  accepted-IsNext :
      (st : FileReceiveState d) (m : FileChunkMsg) (bytes : List ℕ)
      → validate_transfer_chunk st.expected_size st.received_bytes st.received_chunks
          st.total_chunks m.chunk_index m.total_chunks
          (length bytes)
          st.chunk_raw_size
        ≡ accepted
      → IsNext st m bytes
  unfolding validate_transfer_chunk
  accepted-IsNext st m bytes e = record {
    index = ground arith;
    more = ground arith;
    size = ground arith;
  }

  take_chunk-IsSound :
      (on : Bool) (a : Answers) (size : ℕ) (checksum : List ℕ) (st : FileReceiveState d)
      (fs : Files) (m : FileChunkMsg) (bytes : List ℕ)
      → a.close_ok ≡ true
      → st.active ≡ on
      → IsSound size checksum st fs
      → IsSound size checksum
          (take_chunk d on a st fs m bytes).state
          (take_chunk d on a st fs m bytes).files
  take_chunk-IsSound false a size checksum st fs m bytes closed e s = s
  take_chunk-IsSound true a size checksum st fs m bytes closed e s =
      judge-IsSound size checksum a st fs m bytes
        (validate_transfer_chunk st.expected_size st.received_bytes st.received_chunks
          st.total_chunks m.chunk_index m.total_chunks (length bytes) st.chunk_raw_size)
        closed s (s.storing e) (accepted-IsNext st m bytes)

  pub handle_file_chunk-IsSound :
      (z : Zstd) (a : Answers) (size : ℕ) (checksum : List ℕ) (st : FileReceiveState d) (fs : Files)
      (m : FileChunkMsg)
      → a.close_ok ≡ true
      → IsSound size checksum st fs
      → IsSound size checksum
          (handle_file_chunk d z a st fs m).state
          (handle_file_chunk d z a st fs m).files
  unfolding handle_file_chunk
  handle_file_chunk-IsSound z a size checksum st fs m closed s =
      take_chunk-IsSound st.active a size checksum st fs m (decompress_chunk_payload z m.payload)
        closed refl s

  -- Every close of the partial file succeeds.
  abbrev pub AllClosed : List (Answers × FileChunkMsg) → Type 0
  AllClosed cs = All (λ (c : Answers × FileChunkMsg). c.0.close_ok ≡ true) cs

  -- Every sequence of chunks, where each close succeeds and whatever else the system answers, keeps the
  -- receiver sound: the size and the checksum that were announced stay, an active transfer has written
  -- and hashed exactly the bytes that it counts, and a published file is complete.
  pub handle_file_chunks-IsSound :
      (z : Zstd) (size : ℕ) (checksum : List ℕ) (cs : List (Answers × FileChunkMsg))
      (st : FileReceiveState d) (fs : Files)
      → AllClosed cs
      → IsSound size checksum st fs
      → let end = handle_file_chunks d z cs st fs in IsSound size checksum end.0 end.1
  unfolding handle_file_chunks
  handle_file_chunks-IsSound z size checksum [] st fs closed s = s
  handle_file_chunks-IsSound z size checksum (c ∷ cs) st fs closed s =
      let h = handle_file_chunk d z c.0 st fs c.1 in
      handle_file_chunks-IsSound z size checksum cs h.state h.files closed.1
        (handle_file_chunk-IsSound z c.0 size checksum st fs c.1 closed.0 s)

  -- However the chunks of a transfer come, where each close succeeds and whatever else the system
  -- answers, a file that is published has the announced size, and its digest is the announced
  -- checksum. The transfer starts in a sound state, and the digest is what OpenSSL documents.
  pub handle_file_chunks-IsComplete :
      (z : Zstd) (cs : List (Answers × FileChunkMsg)) (st : FileReceiveState d) (fs : Files)
      (written : List ℕ)
      → AllClosed cs
      → IsSound st.expected_size st.checksum st fs
      → (handle_file_chunks d z cs st fs).1.published ≡ some written
      → (length written ≡ st.expected_size) × (sha written ≡ st.checksum)
  handle_file_chunks-IsComplete z cs st fs written closed s e =
      let end = handle_file_chunks-IsSound z st.expected_size st.checksum cs st fs closed s in
      let done = end.complete written e in (done.full, done.same_sum)
