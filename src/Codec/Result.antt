-- ===== src/Codec/Result.antt =====
-- The exceptions of bs-codec.h as values: a `std::runtime_error` for each text that it throws.
use bridge_sessions.Base.{ℕ, ◌≡◌, refl}

pub data Error : Type 0 where
  frame_truncated : Error
  prefixed_over_255 : Error
  prefixed_over_65535 : Error
  image_over_cap : Error
  image_frame_over_cap : Error
  file_chunk_over_cap : Error
  file_chunk_size_over_cap : Error
  cua_text_over_cap : Error
  cua_data_over_cap : Error
  clipboard_separator : Error
  batch_over_512 : Error
  zstd_compress_failed : Error
  zstd_invalid_frame : Error
  zstd_unknown_size : Error
  zstd_over_cap : Error
  zstd_decompress_failed : Error
  logical_over_cap : Error
  encoded_over_u32 : Error
  encoded_over_u16 : Error
  header_truncated : Error
  u32_header_truncated : Error
  payload_over_u32 : Error
  frame_too_short : Error
  decoded_over_u32 : Error
  unknown_type : ℕ → Error
  -- Not an exception of the code: the model's loop over the input ran out of fuel.
  stuck : Error

pub data Result {ℓ} (A : Type ℓ) : Type ℓ where
  err : Error → Result A
  ok : A → Result A

infixl 5 ◌>>=◌
abbrev pub ◌>>=◌ {ℓ κ} : {A : Type ℓ} {B : Type κ} (m : Result A) (next : A → Result B) → Result B
err thrown >>= next = err thrown
ok a >>= next = next a

-- A chain that ends well begins well.
pub >>=-eq-ok {ℓ κ} :
    {A : Type ℓ} {B : Type κ} (first : Result A) (next : A → Result B) {out : B}
    → (first >>= next) ≡ ok out
    → (a : A) × (first ≡ ok a) × (next a ≡ ok out)
>>=-eq-ok (err thrown) next done = cc
>>=-eq-ok (ok a) next done = (a, refl, done)
