-- ===== src/Codec/Steady/Loops.antt =====
-- The loops over the rest of the payload end.
use bridge_sessions.Base.{ℕ, zero, suc, ◌≤◌, refl, List, [], ◌∷◌, arith, length}
use bridge_sessions.Codec.Result.{Error}
use bridge_sessions.Codec.Decoder.{
  Get, pure, get_str_prefixed, get_str_prefixed_u16, get_flag, get_u64_halves, get_i32, get_i16,
  get_blob, get_many_fuel, get_many, get_upto,
}
use bridge_sessions.Codec.Steady.{
  Within, Steady, Eats, IsReal, bind-Within, Steady-bind, Eats-bind, Steady-pure, Eats-u8,
  Steady-u8, Steady-u16, Steady-u32be, Steady-u64be, Steady-str_size, Steady-rest, Steady-if,
  Steady-check, Steady-end, Within-mono,
}

-- A round reads a byte at least, so as many rounds as there are bytes are enough.
many_fuel_Within :
    {A : Type 0} (g : Get A)
    → Eats g
    → (fuel : ℕ) (s : List ℕ) → length s ≤ fuel
    → Within (get_many_fuel fuel g s) (length s)
unfolding get_many_fuel pure
many_fuel_Within g v zero [] h = omega arith
many_fuel_Within g v (suc fuel) [] h = omega arith
many_fuel_Within g v zero (b ∷ s) h = absurd (omega arith)
many_fuel_Within g v (suc fuel) (b ∷ s) h = Within-mono _ (omega arith) (
    bind-Within (g (b ∷ s)) g _ (b ∷ s) (length s) refl (v.at b s) λ a t ht.
      bind-Within (get_many_fuel fuel g t) (get_many_fuel fuel g) _ t (length s) refl
        (Within-mono (get_many_fuel fuel g t) ht (many_fuel_Within g v fuel t (omega arith)))
        (λ rest u hu. hu))

pub Steady-many : {A : Type 0} {g : Get A} → Eats g → Steady (get_many g)
unfolding get_many
Steady-many {g = g} v = record { at = λ s. many_fuel_Within g v (length s) s (omega arith) }

upto_Within :
    {A : Type 0} (g : Get A) → Eats g → (n : ℕ) (s : List ℕ) → Within (get_upto n g s) (length s)
unfolding get_upto pure
upto_Within g v zero s = omega arith
upto_Within g v (suc n) [] = omega arith
upto_Within g v (suc n) (b ∷ s) = Within-mono _ (omega arith) (
    bind-Within (g (b ∷ s)) g _ (b ∷ s) (length s) refl (v.at b s) λ a t ht.
      bind-Within (get_upto n g t) (get_upto n g) _ t (length s) refl
        (Within-mono (get_upto n g t) ht (upto_Within g v n t)) (λ rest u hu. hu))

pub Steady-upto : {A : Type 0} (n : ℕ) {g : Get A} → Eats g → Steady (get_upto n g)
Steady-upto n {g = g} v = record { at = upto_Within g v n }

-- The composed reads of `struct Decoder`.
pub Eats-str_prefixed : Eats get_str_prefixed
unfolding get_str_prefixed
Eats-str_prefixed = Eats-bind Eats-u8 Steady-str_size

pub Steady-str_prefixed : Steady get_str_prefixed
unfolding get_str_prefixed
Steady-str_prefixed = Steady-bind Steady-u8 Steady-str_size

pub Steady-str_prefixed_u16 : Steady get_str_prefixed_u16
unfolding get_str_prefixed_u16
Steady-str_prefixed_u16 = Steady-bind Steady-u16 Steady-str_size

pub Steady-flag : Steady get_flag
unfolding get_flag
Steady-flag = Steady-bind Steady-u8 (λ b. Steady-pure _)

pub Steady-u64_halves : Steady get_u64_halves
unfolding get_u64_halves
Steady-u64_halves = Steady-bind Steady-u32be (λ h. Steady-bind Steady-u32be (λ l. Steady-pure _))

pub Steady-i32 : Steady get_i32
unfolding get_i32
Steady-i32 = Steady-bind Steady-u32be (λ w. Steady-pure _)

pub Steady-i16 : Steady get_i16
unfolding get_i16
Steady-i16 = Steady-bind Steady-u16 (λ w. Steady-pure _)

pub Steady-blob : (cap : ℕ) (e : Error) → IsReal e → Steady (get_blob cap e)
unfolding get_blob
Steady-blob cap e h =
    Steady-bind Steady-u32be (λ n. Steady-bind (Steady-check _ e h) (λ _. Steady-str_size n))

pub ruleset steady_rules = (
  Steady-bind, Eats-bind, Steady-pure, Steady-u8, Steady-u16, Steady-u32be, Steady-u64be,
  Steady-str_size, Steady-rest, Steady-if, Steady-check, Steady-end, Steady-many, Steady-upto,
  Eats-str_prefixed, Steady-str_prefixed, Steady-str_prefixed_u16, Steady-flag, Steady-u64_halves,
  Steady-i32, Steady-i16, Steady-blob,
)
