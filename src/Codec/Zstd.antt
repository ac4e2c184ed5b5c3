-- ===== src/Codec/Zstd.antt =====
-- `zstd_compress` and `zstd_decompress` over the calls of libzstd, which are a parameter.
use bridge_sessions.Base.{
  refl, ap, ◌∙◌, inl, inr, Bool-cases, ℕ, ◌<◌, ◌≤◌, ◌≡◌, Option, none, some, List, arith, ltb,
  length, if◌then◌else◌,
}
use bridge_sessions.Codec.Result.{
  Result, ok, err, zstd_compress_failed, zstd_invalid_frame, zstd_unknown_size, zstd_over_cap,
  zstd_decompress_failed,
}
use bridge_sessions.Codec.File.{max_frame_payload_u32}

-- What `ZSTD_getFrameContentSize` answers.
pub data ContentSize : Type 0 where
  size_error size_unknown : ContentSize
  size_known : ℕ → ContentSize

-- The three calls; `none` is a result for which `ZSTD_isError` holds. The capacity of the output is
-- `ZSTD_compressBound` for the first and the number given for the last.
pub record Zstd : Type 0 where
  pub compress_cctx : List ℕ → Option (List ℕ)
  pub frame_content_size : List ℕ → ContentSize
  pub decompress_dctx : ℕ → List ℕ → Option (List ℕ)

-- What libzstd documents: a compressed frame is not empty, holds the size of its content, and
-- decompresses to that content.
pub record IsZstd (z : Zstd) : Type 0 where
  pub nonempty : (d c : List ℕ) → z.compress_cctx d ≡ some c → 0 < length c
  pub content :
      (d c : List ℕ) → z.compress_cctx d ≡ some c → z.frame_content_size c ≡ size_known (length d)
  pub inverse :
      (d c : List ℕ) → z.compress_cctx d ≡ some c → z.decompress_dctx (length d) c ≡ some d

abbrev checked_output : Option (List ℕ) → Result (List ℕ)
checked_output none = err zstd_decompress_failed
checked_output (some out) =
    if ltb max_frame_payload_u32 (length out) then err zstd_over_cap else ok out

module _ (z : Zstd) where
  unfoldable pub zstd_compress : List ℕ → Result (List ℕ)
  zstd_compress d = elim (z.compress_cctx d) [ none ↦ err zstd_compress_failed | some c ↦ ok c ]

  abbrev decompress_known : ℕ → List ℕ → Result (List ℕ)
  decompress_known bound d =
      if ltb max_frame_payload_u32 bound
      then err zstd_over_cap
      else checked_output (z.decompress_dctx bound d)

  abbrev decompress_sized : ContentSize → List ℕ → Result (List ℕ)
  decompress_sized size_error d = err zstd_invalid_frame
  decompress_sized size_unknown d = err zstd_unknown_size
  decompress_sized (size_known bound) d = decompress_known bound d

  unfoldable pub zstd_decompress : List ℕ → Result (List ℕ)
  zstd_decompress d = decompress_sized (z.frame_content_size d) d

  -- What `zstd_compress` made of at most 4 MiB, `zstd_decompress` undoes.
  pub zstd_decompress-compress :
      (d c : List ℕ)
      → IsZstd z
      → length d ≤ max_frame_payload_u32
      → zstd_compress d ≡ ok c
      → zstd_decompress c ≡ ok d
  unfolding zstd_compress zstd_decompress
  zstd_decompress-compress d c laws fits e =
      ground (arith, laws.content d c (ground arith), laws.inverse d c (ground arith))

-- Two versions of libzstd that read the same sizes and decompress the same to at most 4 MiB.
pub record AgreeBelow (z w : Zstd) : Type 0 where
  pub sizes : (d : List ℕ) → z.frame_content_size d ≡ w.frame_content_size d
  pub outputs :
      (capacity : ℕ) (d : List ℕ)
      → capacity ≤ max_frame_payload_u32
      → z.decompress_dctx capacity d ≡ w.decompress_dctx capacity d

decompress_known-eq :
    (z w : Zstd) (bound : ℕ) (d : List ℕ)
    → AgreeBelow z w
    → decompress_known z bound d ≡ decompress_known w bound d
decompress_known-eq z w bound d h = elim (Bool-cases (ltb max_frame_payload_u32 bound)) [
  | inl over ↦ rw over refl
  | inr fits ↦ rw fits (ap checked_output (h.outputs bound d (ground arith)))
]

decompress_sized-eq :
    (z w : Zstd) (size : ContentSize) (d : List ℕ)
    → AgreeBelow z w
    → decompress_sized z size d ≡ decompress_sized w size d
decompress_sized-eq z w size_error d h = refl
decompress_sized-eq z w size_unknown d h = refl
decompress_sized-eq z w (size_known bound) d h = decompress_known-eq z w bound d h

-- `zstd_decompress` never asks libzstd for more than 4 MiB: two versions of it that differ only in what
-- they do with more room give the same result on every frame, also where the frame declares more.
pub zstd_decompress-AgreeBelow :
    (z w : Zstd) (d : List ℕ) → AgreeBelow z w → zstd_decompress z d ≡ zstd_decompress w d
unfolding zstd_decompress
zstd_decompress-AgreeBelow z w d h =
    ap (λ size. decompress_sized z size d) (h.sizes d)
    ∙ decompress_sized-eq z w (w.frame_content_size d) d h
