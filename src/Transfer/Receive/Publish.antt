-- ===== src/Transfer/Receive/Publish.antt =====
-- The end of a transfer: what is published behind the last chunk.
use bridge_sessions.Base.{
  =b=_eq, ℕ, ◌≡◌, ◌≢◌, refl, sym, subst, ◌∙◌, Bool, true, false, Option, none, some, List, [], ◌∷◌,
  length, arith,
}
use bridge_sessions.Transfer.Digest.{
  Digest, IsDigest, IsHashed, some_inj, final_hex-eq, digest_stream-eq,
}
use bridge_sessions.Transfer.Receive.{
  Answers, Files, FileReceiveState, checksum_ok, settle, actual_checksum,
}

module _ (d : Digest) (sha : List ℕ → List ℕ) (laws : IsDigest d sha) where
  -- A published file has the announced size and the announced checksum.
  pub record IsComplete (size : ℕ) (checksum content : List ℕ) : Type 0 where
    pub full : length content ≡ size
    pub same_sum : sha content ≡ checksum

  actual_checksum-eq :
      (a : Answers) (hasher : Option d.Ctx) (content : List ℕ)
      → IsHashed d sha laws hasher content
      → actual_checksum d a hasher (some content) ≢ []
      → actual_checksum d a hasher (some content) ≡ sha content
  actual_checksum-eq a (some c) content h ne = final_hex-eq d sha laws c content h ne
  actual_checksum-eq a none content h ne =
      digest_stream-eq d sha laws a.read_ok content d.start (λ c e. laws.start_empty c e) ne

  checksum_ok-inv :
      (st : FileReceiveState d) (actual : List ℕ)
      → checksum_ok d st actual ≡ true
      → (actual ≢ []) × (actual ≡ st.checksum)
  checksum_ok-inv st [] e = ground arith
  checksum_ok-inv st (b ∷ r) e = (λ z. cc, =b=_eq (b ∷ r) st.checksum e)

  pub checksum_ok-eq :
      (a : Answers) (st : FileReceiveState d) (content : List ℕ)
      → IsHashed d sha laws st.hasher content
      → checksum_ok d st (actual_checksum d a st.hasher (some content)) ≡ true
      → sha content ≡ st.checksum
  checksum_ok-eq a st content h e =
      let inv = checksum_ok-inv st (actual_checksum d a st.hasher (some content)) e in
      sym (actual_checksum-eq a st.hasher content h inv.0) ∙ inv.1

  -- What the last chunk publishes is complete.
  pub settle-IsComplete :
      (a : Answers) (st : FileReceiveState d) (fs : Files) (content : List ℕ)
      (sum_ok rename_ok : Bool)
      → fs.part ≡ some content
      → (sum_ok ≡ true → sha content ≡ st.checksum)
      → ((old : List ℕ) → fs.published ≡ some old → IsComplete (length content) st.checksum old)
      → (written : List ℕ) → (settle d a st fs sum_ok rename_ok).0.published ≡ some written
      → IsComplete (length content) st.checksum written
  settle-IsComplete a st fs content true true p same old written e =
      let eq : content ≡ written = some_inj content written (sym p ∙ e) in
      subst (IsComplete (length content) st.checksum) eq
        (record { full = refl; same_sum = same refl })
  settle-IsComplete a st fs content true false p same old written e = old written e
  settle-IsComplete a st fs content false rename_ok p same old written e = old written e
