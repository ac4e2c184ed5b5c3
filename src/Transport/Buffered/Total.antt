-- ===== src/Transport/Buffered/Total.antt =====
-- The loop of `drain_complete_frames` ends on every buffer.
use bridge_sessions.Base.{
  ℕ, zero, suc, ◌≤◌, ◌<◌, ◌≡◌, ◌≢◌, refl, ap, some, List, arith, length, take, drop, length-drop,
  Option-cases, inl, inr, ◌∙◌,
}
use bridge_sessions.Codec.Result.{Result, ok, err, ◌>>=◌, stuck}
use bridge_sessions.Codec.Zstd.{Zstd}
use bridge_sessions.Codec.Frame.{frame_header_layout, decode}
use bridge_sessions.Codec.Frame.Total.{bind-ne-stuck, layout-ne-stuck, decode-ne-stuck}
use bridge_sessions.Transport.Buffered.{next_frame, drain, drain_complete_frames}

next_frame-ne-stuck : (buffered : List ℕ) → next_frame buffered ≢ err stuck
unfolding next_frame
next_frame-ne-stuck buffered = ground (arith, layout-ne-stuck buffered)

-- A round takes six bytes at least, and no more than there are.
next_frame-bounds :
    (buffered : List ℕ) (n : ℕ)
    → next_frame buffered ≡ ok (some n)
    → (6 ≤ n) × (n ≤ length buffered)
unfolding next_frame frame_header_layout
next_frame-bounds buffered n e = ground arith

bind_eq-ne-stuck :
    {A B : Type 0} (m : Result A) (f : A → Result B)
    → m ≢ err stuck
    → ((a : A) → m ≡ ok a → f a ≢ err stuck)
    → (m >>= f) ≢ err stuck
bind_eq-ne-stuck (ok a) f h k p = k a refl p
bind_eq-ne-stuck (err e) f h k p = h (cc)

module _ (z : Zstd) where
  drain-ne-stuck :
      (fuel : ℕ) (buffered : List ℕ) → length buffered < fuel → drain z fuel buffered ≢ err stuck
  unfolding drain
  drain-ne-stuck zero buffered enough = absurd (omega arith)
  drain-ne-stuck (suc fuel) buffered enough =
      bind_eq-ne-stuck (next_frame buffered) _ (next_frame-ne-stuck buffered) λ next e.
        elim (Option-cases next) [
          | inl gone ↦ rw gone (λ p. cc)
          | inr (n, found) ↦
              let bounds = next_frame-bounds buffered n (e ∙ ap ok found) in
              rw found (
                bind-ne-stuck (decode z (take n buffered)) _ (decode-ne-stuck z (take n buffered))
                  λ m.
                    bind-ne-stuck (drain z fuel (drop n buffered)) _
                      (drain-ne-stuck fuel (drop n buffered)
                        (omega (arith, bounds.0, bounds.1, length-drop n buffered)))
                      (λ rest p. cc))
        ]

  -- On every buffer the loop ends, by the end of the whole frames or by an exception.
  pub drain_complete_frames-ne-stuck :
      (buffered : List ℕ) → drain_complete_frames z buffered ≢ err stuck
  unfolding drain_complete_frames
  drain_complete_frames-ne-stuck buffered =
      drain-ne-stuck (suc (length buffered)) buffered (omega arith)
