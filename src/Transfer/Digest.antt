-- ===== src/Transfer/Digest.antt =====
-- Digests: `Sha256Stream` and `sha256_file_stream` of bs-codec.h over the calls of OpenSSL, which are a
-- parameter.
use bridge_sessions.Base.{
  ℕ, zero, suc, ◌≡◌, ◌≢◌, refl, ap, subst, ◌∙◌, inl, inr, Bool, true, false, Option, none, some,
  Option-cases, List, [], ◌∷◌, ◌++◌, append-nil, append_assoc, length, take, drop, take-append-drop,
  arith, if◌then◌else◌,
}

-- The calls of OpenSSL behind `Sha256Stream`: a digest state, its start, the next bytes, and the
-- digest in hexadecimal. `none` is a failed call.
pub record Digest : Type 1 where
  pub Ctx : Type 0
  pub start : Option Ctx
  pub feed : Ctx → List ℕ → Option Ctx
  pub finish : Ctx → Option (List ℕ)

module _ (d : Digest) where
  -- The digest of a stream in blocks of 64 KiB. A block is not empty, so the length is enough fuel.
  unfoldable pub feed_blocks : ℕ → d.Ctx → List ℕ → Option d.Ctx
  feed_blocks fuel ctx [] = some ctx
  feed_blocks zero ctx (b ∷ content) = none
  feed_blocks (suc fuel) ctx (b ∷ content) = elim (d.feed ctx (take 65536 (b ∷ content))) [
    | none ↦ none
    | some next ↦ feed_blocks fuel next (drop 65536 (b ∷ content))
  ]

  -- `Sha256Stream::final_hex`: an empty text for a failure.
  abbrev pub final_hex : d.Ctx → List ℕ
  final_hex ctx = elim (d.finish ctx) [ none ↦ [] | some hex ↦ hex ]

  abbrev pub finish_stream : Bool → Option d.Ctx → List ℕ
  finish_stream read_ok none = []
  finish_stream read_ok (some ctx) = if read_ok then final_hex ctx else []

  abbrev pub digest_stream : Bool → List ℕ → Option d.Ctx → List ℕ
  digest_stream read_ok content none = []
  digest_stream read_ok content (some ctx) =
      finish_stream read_ok (feed_blocks (length content) ctx content)

  -- `sha256_file_stream` of a file with this content, or without one.
  abbrev pub sha256_file_stream : Bool → Option (List ℕ) → List ℕ
  sha256_file_stream read_ok none = []
  sha256_file_stream read_ok (some content) = digest_stream read_ok content d.start

  -- `state.hasher->update(decompressed)` where there is a hasher.
  abbrev pub update_hasher : Option d.Ctx → List ℕ → Option (Option d.Ctx)
  update_hasher none bytes = some none
  update_hasher (some ctx) bytes = elim (d.feed ctx bytes) [ none ↦ none | some c ↦ some (some c) ]

-- What OpenSSL documents of a digest: the state stands for the bytes that were fed to it, and its
-- hexadecimal text is that of those bytes.
pub record IsDigest (d : Digest) (sha : List ℕ → List ℕ) : Type 1 where
  pub Digests : d.Ctx → List ℕ → Type 0
  pub start_empty : (c : d.Ctx) → d.start ≡ some c → Digests c []
  pub feed_append :
      (c c' : d.Ctx) (seen bytes : List ℕ)
      → Digests c seen
      → d.feed c bytes ≡ some c'
      → Digests c' (seen ++ bytes)
  pub finish_sha :
      (c : d.Ctx) (seen hex : List ℕ) → Digests c seen → d.finish c ≡ some hex → hex ≡ sha seen

pub some_inj {ℓ} : {A : Type ℓ} (a b : A) → some a ≡ some b → a ≡ b
some_inj a b e = cc

pub final_hex-eq :
    (d : Digest) (sha : List ℕ → List ℕ) (laws : IsDigest d sha) (c : d.Ctx) (seen : List ℕ)
    → laws.Digests c seen
    → final_hex d c ≢ []
    → final_hex d c ≡ sha seen
final_hex-eq d sha laws c seen h ne = elim (Option-cases (d.finish c)) [
  | inl e ↦ ground arith
  | inr (hex, e) ↦ ground (arith, laws.finish_sha c seen hex h e)
]

module _ (d : Digest) (sha : List ℕ → List ℕ) (laws : IsDigest d sha) where
  pub feed_blocks-Digests :
      (fuel : ℕ) (c c' : d.Ctx) (seen content : List ℕ)
      → laws.Digests c seen
      → feed_blocks d fuel c content ≡ some c'
      → laws.Digests c' (seen ++ content)
  unfolding feed_blocks
  feed_blocks-Digests fuel c c' seen [] h e =
      rw append-nil (subst (λ x. laws.Digests x seen) (some_inj c c' e) h)
  feed_blocks-Digests zero c c' seen (b ∷ content) h e = ground arith
  feed_blocks-Digests (suc fuel) c c' seen (b ∷ content) h e =
      elim (Option-cases (d.feed c (take 65536 (b ∷ content)))) [
        | inl none_eq ↦ ground arith
        | inr (next, some_eq) ↦
            subst (laws.Digests c')
              (append_assoc seen (take 65536 (b ∷ content)) (drop 65536 (b ∷ content))
                ∙ ap (λ x. seen ++ x) (take-append-drop 65536 (b ∷ content)))
              (feed_blocks-Digests fuel next c' (seen ++ take 65536 (b ∷ content))
                (drop 65536 (b ∷ content))
                (laws.feed_append c next seen (take 65536 (b ∷ content)) h some_eq) (ground arith))
      ]

  -- The running digest stands for the content; a receiver without one hashes the file at the end.
  abbrev pub IsHashed : Option d.Ctx → List ℕ → Type 0
  IsHashed none content = Unit
  IsHashed (some c) content = laws.Digests c content

  finish_stream-eq :
      (read_ok : Bool) (content : List ℕ) (o : Option d.Ctx)
      → ((c : d.Ctx) → o ≡ some c → laws.Digests c content)
      → finish_stream d read_ok o ≢ []
      → finish_stream d read_ok o ≡ sha content
  finish_stream-eq read_ok content none h ne = absurd (ne refl)
  finish_stream-eq false content (some c) h ne = absurd (ne refl)
  finish_stream-eq true content (some c) h ne = final_hex-eq d sha laws c content (h c refl) ne

  pub digest_stream-eq :
      (read_ok : Bool) (content : List ℕ) (o : Option d.Ctx)
      → ((c : d.Ctx) → o ≡ some c → laws.Digests c [])
      → digest_stream d read_ok content o ≢ []
      → digest_stream d read_ok content o ≡ sha content
  digest_stream-eq read_ok content none h ne = absurd (ne refl)
  digest_stream-eq read_ok content (some c) h ne =
      finish_stream-eq read_ok content (feed_blocks d (length content) c content)
        (λ c' e. feed_blocks-Digests (length content) c c' [] content (h c refl) e) ne

  pub update_hasher-IsHashed :
      (hasher : Option d.Ctx) (next : Option d.Ctx) (content bytes : List ℕ)
      → IsHashed hasher content
      → update_hasher d hasher bytes ≡ some next
      → IsHashed next (content ++ bytes)
  update_hasher-IsHashed none none content bytes h e = tt
  update_hasher-IsHashed none (some c') content bytes h e = ground arith
  update_hasher-IsHashed (some c) next content bytes h e = elim (Option-cases (d.feed c bytes)) [
    | inl none_eq ↦ ground arith
    | inr (c', some_eq) ↦
        subst (λ x. IsHashed x (content ++ bytes)) (some_inj (some c') next (ground arith))
          (laws.feed_append c c' content bytes h some_eq)
  ]
