-- ===== src/Base/Binary.antt =====
-- The recursion over binary digits that the native bit operations stand for: more fuel than the first
-- number needs changes nothing.
use Prim.Native.Nat.{ℕ, zero, suc, ◌/◌, ◌≤◌, digits}
use mathlib.Core.Path.{◌≡◌, refl}
use native.Mathlib.Omega.{arith}

module _ (alone : ℕ → ℕ) (join : ℕ → ℕ → ℕ) where
  pub digits_enough :
      (x y k l : ℕ) → x ≤ l → x ≤ k → digits alone join k x y ≡ digits alone join l x y
  digits_enough zero y zero zero wide deep = refl
  digits_enough zero y (suc k) zero wide deep = refl
  digits_enough zero y zero (suc l) wide deep = refl
  digits_enough zero y (suc k) (suc l) wide deep = refl
  digits_enough (suc x) y zero l wide deep = absurd (omega arith)
  digits_enough (suc x) y (suc k) zero wide deep = absurd (omega arith)
  digits_enough (suc x) y (suc k) (suc l) wide deep =
      omega (arith, digits_enough (suc x / 2) (y / 2) k l (omega arith) (omega arith))
