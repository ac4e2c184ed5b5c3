-- ===== src/Base64/Table.antt =====
-- Each place of the table has its own character, which is no padding.
use bridge_sessions.Base.{
  ℕ, zero, suc, ◌<◌, ◌≡◌, refl, ap, ◌∙◌, inl, inr, Bool, true, false, not, ◌&&◌, arith, ◌==◌,
  get_or, Bool-cases, List, ==_iff, Option, none, some,
}
use bridge_sessions.Base64.{k_b64, index_from}

and-inv : (a b : Bool) → (a && b) ≡ true → (a ≡ true) × (b ≡ true)
and-inv true b e = (refl, e)
and-inv false b e = ground arith

abbrev same_place : ℕ → Option ℕ → Bool
same_place i none = false
same_place i (some j) = j == i

same_place-inv : (i : ℕ) (o : Option ℕ) → same_place i o ≡ true → o ≡ some i
same_place-inv i none e = ground arith
same_place-inv i (some j) e = ap some (ground arith)

module _ (table : List ℕ) where
  abbrev place_ok : ℕ → Bool
  place_ok i =
      same_place i (index_from 0 (get_or table i 0) table) && not (get_or table i 0 == b'=')

  abbrev places_ok : ℕ → Bool
  places_ok zero = true
  places_ok (suc n) = place_ok n && places_ok n

  places_ok-inv : (n i : ℕ) → places_ok n ≡ true → i < n → place_ok i ≡ true
  places_ok-inv zero i e less = absurd (omega arith)
  places_ok-inv (suc n) i e less =
      let (here, rest) = and-inv (place_ok n) (places_ok n) e in
      elim (Bool-cases (i == n)) [
        | inl same ↦ ap place_ok (omega (arith, (==_iff i n).0 same)) ∙ here
        | inr other ↦ places_ok-inv n i rest (ground arith)
      ]

  place_ok-inv :
      (i : ℕ)
      → place_ok i ≡ true
      → (index_from 0 (get_or table i 0) table ≡ some i) × ((get_or table i 0 == b'=') ≡ false)
  place_ok-inv i e =
      let (found, plain) = and-inv (same_place i (index_from 0 (get_or table i 0) table)) _ e in
      (same_place-inv i _ found, ground arith)

-- The code's table.
k_b64_ok : places_ok k_b64 64 ≡ true
k_b64_ok = refl

module _ (i : ℕ) (less : i < 64) where
  pub k_b64_place : index_from 0 (get_or k_b64 i 0) k_b64 ≡ some i
  k_b64_place = (place_ok-inv k_b64 i (places_ok-inv k_b64 64 i k_b64_ok less)).0

  pub k_b64_plain : (get_or k_b64 i 0 == b'=') ≡ false
  k_b64_plain = (place_ok-inv k_b64 i (places_ok-inv k_b64 64 i k_b64_ok less)).1
