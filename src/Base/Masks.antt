-- ===== src/Base/Masks.antt =====
-- `&` with a mask of ones is the remainder by a power of two.
use Prim.Native.Nat.{
  ℕ, zero, suc, ◌+◌, ◌-◌, ◌*◌, ◌/◌, ◌%◌, ◌^◌, ◌≤◌, ◌<◌, min, bit_and, bit_and-bitwise,
}
use mathlib.Core.Path.{◌≡◌, ap, ◌∙◌}
use native.Mathlib.Omega.{arith}
use bridge_sessions.Base.Binary.{digits_enough}
use native.Mathlib.Nat.{pow-suc, div-add-mod, mod-lt, mod-eq_of_lt, mul-add-mod_self_left}

and_low : (y : ℕ) → bit_and 0 y ≡ 0
and_low y = bit_and-bitwise 0 y

-- The last and what is above them.
bit_and_halves : (x y : ℕ) → bit_and x y ≡ min (x % 2) (y % 2) + 2 * bit_and (x / 2) (y / 2)
bit_and_halves zero y = omega (arith, and_low (y / 2), and_low y)
bit_and_halves (suc x) y =
    let above =
      digits_enough (λ z. 0) min (suc x / 2) (y / 2) x (suc x / 2) (omega arith) (omega arith) in
    omega (arith, above, bit_and-bitwise (suc x / 2) (y / 2), bit_and-bitwise (suc x) y)

no_mask : (size x : ℕ) → x ≤ size → bit_and x 0 ≡ 0
no_mask size zero small = and_low 0
no_mask zero (suc x) small = absurd (omega arith)
no_mask (suc size) (suc x) small =
    omega (arith, no_mask size (suc x / 2) (omega arith), bit_and_halves (suc x) 0)

mod_double : (x m : ℕ) → 0 < m → x % (m * 2) ≡ x / 2 % m * 2 + x % 2
mod_double x m pos =
    let r = x / 2 % m * 2 + x % 2 in
    let whole : x ≡ m * 2 * (x / 2 / m) + r = omega (arith, div-add-mod (x / 2) m) in
    ap (λ y. y % (m * 2)) whole
    ∙ mul-add-mod_self_left (m * 2) (x / 2 / m) r
    ∙ mod-eq_of_lt (omega (arith, mod-lt (x / 2) pos))

pub pow_pos : (k : ℕ) → 0 < 2 ^ k
pow_pos zero = omega arith
pow_pos (suc k) = rw pow-suc (omega (arith, pow_pos k))

half : (k : ℕ) → (2 ^ k * 2 - 1) / 2 ≡ 2 ^ k - 1
half k = omega (arith, pow_pos k)

-- `x & (2 ^ k - 1)`
pub bit_and-mask : (k x : ℕ) → bit_and x (2 ^ k - 1) ≡ x % 2 ^ k
bit_and-mask zero x = omega (arith, no_mask x x (omega arith))
bit_and-mask (suc k) x = rw pow-suc (
    omega (
      arith,
      bit_and_halves x (2 ^ k * 2 - 1),
      mod_double x (2 ^ k) (pow_pos k),
      pow_pos k,
      ap (λ m. bit_and (x / 2) m) (half k),
      bit_and-mask k (x / 2),
    ))
