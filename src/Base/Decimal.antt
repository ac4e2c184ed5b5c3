-- ===== src/Base/Decimal.antt =====
-- `std::to_string` of a number, and its inverse.
use Prim.Native.Nat.{ℕ, zero, suc, ◌+◌, ◌-◌, ◌*◌, ◌/◌, ◌%◌, ◌≤◌}
use mathlib.Core.Path.{◌≡◌, sym, ap, ◌∙◌}
use mathlib.Core.List.{List, [], ◌∷◌}
use mathlib.Core.Logic.{inl, inr}
use native.Mathlib.Omega.{arith}
use bridge_sessions.Base.Tests.{ltb, if◌then◌else◌, Bool-cases}

-- The decimal digits of `n` in front of `behind`, with `fuel` digits at most.
abbrev pub digits_before : ℕ → ℕ → List ℕ → List ℕ
digits_before zero n behind = (b'0' + n) ∷ behind
digits_before (suc fuel) n behind =
    let higher = digits_before fuel (n / 10) ((b'0' + n % 10) ∷ behind) in
    if ltb n 10 then (b'0' + n) ∷ behind else higher

-- `n` has no more than `n + 1` digits.
unfoldable pub decimal : ℕ → List ℕ
decimal n = digits_before n n []

abbrev value_behind : ℕ → List ℕ → ℕ
value_behind v [] = v
value_behind v (d ∷ ds) = value_behind (v * 10 + (d - b'0')) ds

value_behind-digits_before :
    (fuel n : ℕ) (behind : List ℕ)
    → n ≤ fuel
    → value_behind 0 (digits_before fuel n behind) ≡ value_behind n behind
value_behind-digits_before zero n behind enough = ap (λ v. value_behind v behind) (omega arith)
value_behind-digits_before (suc fuel) n behind enough = elim (Bool-cases (ltb n 10)) [
  | inl low ↦ rw low (ap (λ v. value_behind v behind) (omega arith))
  | inr high ↦ rw high (
      value_behind-digits_before fuel (n / 10) ((b'0' + n % 10) ∷ behind) (ground arith)
      ∙ ap (λ v. value_behind v behind) (omega arith))
]

-- Different numbers have different digits.
pub decimal-injective : (n m : ℕ) → decimal n ≡ decimal m → n ≡ m
unfolding decimal
decimal-injective n m e =
    sym (value_behind-digits_before n n [] (omega arith))
    ∙ ap (value_behind 0) e
    ∙ value_behind-digits_before m m [] (omega arith)
