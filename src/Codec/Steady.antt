-- ===== src/Codec/Steady.antt =====
-- Reads that end: none runs out of the model's fuel, and none leaves more than it was given.
pub mod Loops
pub mod Items
pub mod Messages
use bridge_sessions.Base.{
  ℕ, zero, suc, ◌+◌, ◌-◌, ◌≤◌, ◌<◌, ◌≡◌, ◌≢◌, refl, inl, inr, Bool, true, false, Bool-cases, List,
  [], ◌∷◌, arith, ltb, leb, ◌==◌, length, take, drop, length-drop, if◌then◌else◌,
}
use bridge_sessions.Codec.Result.{Result, Error, ok, err, frame_truncated, stuck}
use bridge_sessions.Codec.Decoder.{
  Get, ◌>>=◌, pure, throw, get_u8, get_u16, get_u32be, get_u64be, get_str_size, get_rest,
  get_str_prefixed, get_str_prefixed_u16, get_flag, get_u64_halves, get_i32, get_i16, get_if,
  get_check, get_blob, get_many_fuel, get_many, get_upto, get_end,
}

abbrev pub Within : {A : Type 0} → Result (A × List ℕ) → ℕ → Type 0
Within (ok (a, t)) n = length t ≤ n
Within (err e) n = e ≢ stuck

pub record Steady {A : Type 0} (g : Get A) : Type 0 where
  pub at : (s : List ℕ) → Within (g s) (length s)

-- A read that takes a byte at least.
pub record Eats {A : Type 0} (g : Get A) : Type 0 where
  pub at : (b : ℕ) (s : List ℕ) → Within (g (b ∷ s)) (length s)

abbrev pub IsReal : Error → Type 0
IsReal e = e ≢ stuck

pub Within-mono : {A : Type 0} (r : Result (A × List ℕ)) {m n : ℕ} → m ≤ n → Within r m → Within r n
Within-mono (ok (a, t)) h w = omega arith
Within-mono (err e) h w = w

pub bind-Within :
    {A B : Type 0} (r : Result (A × List ℕ)) (g : Get A) (f : A → Get B) (s : List ℕ) (n : ℕ)
    → g s ≡ r
    → Within r n
    → ((a : A) (t : List ℕ) → length t ≤ n → Within (f a t) n)
    → Within ((g >>= f) s) n
unfolding ◌>>=◌
bind-Within (ok (a, t)) g f s n e w k = rw (e, ◌>>=◌) (k a t w)
bind-Within (err x) g f s n e w k = rw (e, ◌>>=◌) w

pub Steady-bind :
    {A B : Type 0} {g : Get A} {f : A → Get B}
    → Steady g
    → ((a : A) → Steady (f a))
    → Steady (g >>= f)
Steady-bind {g = g} {f = f} v k = record {
  at = λ s.
      bind-Within (g s) g f s (length s) refl (v.at s) λ a t h. Within-mono (f a t) h ((k a).at t);
}

pub Eats-bind :
    {A B : Type 0} {g : Get A} {f : A → Get B} → Eats g → ((a : A) → Steady (f a)) → Eats (g >>= f)
Eats-bind {g = g} {f = f} v k = record {
  at = λ b s.
      bind-Within (g (b ∷ s)) g f (b ∷ s) (length s) refl (v.at b s)
        λ a t h. Within-mono (f a t) h ((k a).at t);
}

pub Steady-pure : {A : Type 0} (a : A) → Steady (pure a)
unfolding pure
Steady-pure a = record { at = λ s. omega arith }

pub Steady-throw : {A : Type 0} (e : Error) → IsReal e → Steady (throw {A = A} e)
unfolding throw
Steady-throw e h = record { at = λ s. h }

Steady-of_Eats : {A : Type 0} {g : Get A} → Eats g → Within (g []) 0 → Steady g
Steady-of_Eats {g = g} v h = record {
  at = elim [ [] ↦ h | b ∷ s ↦ Within-mono (g (b ∷ s)) (omega arith) (v.at b s) ];
}

pub Eats-u8 : Eats get_u8
unfolding get_u8
Eats-u8 = record { at = λ b s. omega arith }

pub Steady-u8 : Steady get_u8
unfolding get_u8
Steady-u8 = Steady-of_Eats Eats-u8 (λ e. cc)

u16_Within : (s : List ℕ) → Within (get_u16 s) (length s)
unfolding get_u16
u16_Within (a ∷ b ∷ s) = omega arith
u16_Within (a ∷ []) = λ e. cc
u16_Within [] = λ e. cc

pub Steady-u16 : Steady get_u16
Steady-u16 = record { at = u16_Within }

u32be_Within : (s : List ℕ) → Within (get_u32be s) (length s)
unfolding get_u32be
u32be_Within (a ∷ b ∷ c ∷ d ∷ s) = omega arith
u32be_Within (a ∷ b ∷ c ∷ []) = λ e. cc
u32be_Within (a ∷ b ∷ []) = λ e. cc
u32be_Within (a ∷ []) = λ e. cc
u32be_Within [] = λ e. cc

pub Steady-u32be : Steady get_u32be
Steady-u32be = record { at = u32be_Within }

if_Within :
    {A : Type 0} (b : Bool) (x y : Result (A × List ℕ)) (n : ℕ)
    → Within x n
    → Within y n
    → Within (if b then x else y) n
if_Within true x y n h k = h
if_Within false x y n h k = k

pub Steady-u64be : Steady get_u64be
unfolding get_u64be
Steady-u64be = record {
  at = λ s. if_Within (leb 8 (length s)) _ _ (length s) (omega (arith, length-drop 8 s)) (λ e. cc);
}

pub Steady-str_size : (n : ℕ) → Steady (get_str_size n)
unfolding get_str_size
Steady-str_size n = record {
  at = λ s.
      if_Within (n == 0) _ _ (length s) (omega arith)
        (if_Within (leb n (length s)) _ _ (length s) (omega (arith, length-drop n s)) (λ e. cc));
}

pub Steady-rest : Steady get_rest
unfolding get_rest
Steady-rest = record { at = λ s. (Steady-str_size (length s)).at s }

pub Steady-if : {A : Type 0} (need : ℕ) {g : Get A} (a : A) → Steady g → Steady (get_if need g a)
unfolding get_if
Steady-if need a v = record {
  at = λ s. if_Within (leb need (length s)) _ _ (length s) (v.at s) (omega arith);
}

pub Steady-check : (over : Bool) (e : Error) → IsReal e → Steady (get_check over e)
unfolding get_check
Steady-check over e h = record { at = λ s. if_Within over _ _ (length s) h (omega arith) }

end_Within : (e : Error) (s : List ℕ) → IsReal e → Within (get_end e s) (length s)
unfolding get_end
end_Within e [] h = omega arith
end_Within e (b ∷ s) h = h

pub Steady-end : (e : Error) → IsReal e → Steady (get_end e)
Steady-end e h = record { at = λ s. end_Within e s h }
