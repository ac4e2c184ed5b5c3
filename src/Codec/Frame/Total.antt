-- ===== src/Codec/Frame/Total.antt =====
-- `decode` ends on every input.
use bridge_sessions.Base.{ℕ, ◌≢◌, Bool, true, false, List, arith, length}
use bridge_sessions.Codec.Result.{Result, Error, ok, err, ◌>>=◌, stuck}
use bridge_sessions.Codec.Zstd.{Zstd, zstd_decompress}
use bridge_sessions.Codec.Dispatch.{decode_payload}
use bridge_sessions.Codec.Steady.{Within}
use bridge_sessions.Codec.Steady.Messages.{Steady-payload}
use bridge_sessions.Codec.Frame.{check, frame_header_layout, split_frame, unpack, decode}

module _ {A B : Type 0} where
  pub bind-ne-stuck :
      (m : Result A) (f : A → Result B)
      → m ≢ err stuck
      → ((a : A) → f a ≢ err stuck)
      → (m >>= f) ≢ err stuck
  bind-ne-stuck (ok a) f h k p = k a p
  bind-ne-stuck (err e) f h k p = h (cc)

check-ne-stuck : (over : Bool) (e : Error) → e ≢ stuck → check over e ≢ err stuck
check-ne-stuck true e h p = h (cc)
check-ne-stuck false e h p = cc

Within-ne-stuck : {A : Type 0} (r : Result (A × List ℕ)) (n : ℕ) → Within r n → r ≢ err stuck
Within-ne-stuck (ok p) n w e = cc
Within-ne-stuck (err x) n w e = w (cc)

payload-ne-stuck : (t : ℕ) (s : List ℕ) → decode_payload t s ≢ err stuck
payload-ne-stuck t s = Within-ne-stuck (decode_payload t s) (length s) ((Steady-payload t).at s)

pub layout-ne-stuck : (raw : List ℕ) → frame_header_layout raw ≢ err stuck
unfolding frame_header_layout
layout-ne-stuck raw = ground arith

split_frame-ne-stuck : (raw : List ℕ) → split_frame raw ≢ err stuck
unfolding split_frame
split_frame-ne-stuck raw = ground (arith, layout-ne-stuck raw)

unpack-ne-stuck : (z : Zstd) (flags : ℕ) (body : List ℕ) → unpack z flags body ≢ err stuck
unfolding unpack zstd_decompress
unpack-ne-stuck z flags body = ground arith

-- On every byte string `decode` gives a message or throws: its loops end.
pub decode-ne-stuck : (z : Zstd) (raw : List ℕ) → decode z raw ≢ err stuck
unfolding decode
decode-ne-stuck z raw = bind-ne-stuck (split_frame raw) _ (split_frame-ne-stuck raw) λ parts.
    bind-ne-stuck (unpack z parts.1 parts.2) _ (unpack-ne-stuck z parts.1 parts.2) λ payload.
      bind-ne-stuck (check _ _) _ (check-ne-stuck _ _ (λ e. cc)) λ _.
        bind-ne-stuck (decode_payload parts.0 payload) _ (payload-ne-stuck parts.0 payload)
          (λ msg e. cc)
