-- ===== src/Sync/Fresh.antt =====
-- `sync_make_pair_id` ends, with an id that no pair has.
use bridge_sessions.Base.{
  ℕ, zero, suc, ◌+◌, ◌≤◌, ◌<◌, Bool, true, false, ◌||◌, ◌≡◌, ◌≢◌, refl, sym, ap, ◌∙◌, inl, inr,
  List, [], ◌∷◌, ◌++◌, map, ◌=b=◌, =b=_eq, arith, Bool-cases, length, if◌then◌else◌,
}
use bridge_sessions.Base.Decimal.{decimal-injective}
use bridge_sessions.Sync.Pair.{
  SyncPairSpec, taken, base_of, safe_char, first_id, numbered_id, next_id, sync_make_pair_id,
}

abbrev tail : List ℕ → List ℕ
tail [] = []
tail (c ∷ s) = s

append_left-injective : (front a b : List ℕ) → front ++ a ≡ front ++ b → a ≡ b
append_left-injective [] a b e = e
append_left-injective (c ∷ front) a b e = append_left-injective front a b (ap tail e)

numbered_id-injective :
    (safe peer : List ℕ) (n m : ℕ) → numbered_id safe peer n ≡ numbered_id safe peer m → n ≡ m
numbered_id-injective safe peer n m e =
    decimal-injective n m (ap tail (append_left-injective (first_id safe peer) _ _ e))

-- The pairs with another id.
abbrev others : List ℕ → List SyncPairSpec → List SyncPairSpec
others id [] = []
others id (p ∷ existing) = let rest = others id existing in if p.id =b= id then rest else p ∷ rest

length-others-le :
    (id : List ℕ) (existing : List SyncPairSpec) → length (others id existing) ≤ length existing
length-others-le id [] = omega arith
length-others-le id (p ∷ existing) = ground (arith, length-others-le id existing)

length-others :
    (id : List ℕ) (existing : List SyncPairSpec)
    → taken existing id ≡ true
    → length (others id existing) < length existing
length-others id [] t = ground arith
length-others id (p ∷ existing) t =
    ground (arith, length-others id existing, length-others-le id existing)

taken-others :
    (id s : List ℕ) (existing : List SyncPairSpec)
    → (id =b= s) ≡ false
    → taken existing s ≡ true
    → taken (others id existing) s ≡ true
taken-others id s [] ne t = t
taken-others id s (p ∷ existing) ne t = elim (Bool-cases (p.id =b= id)) [
  | inl same ↦
      let away : (p.id =b= s) ≡ false = ap (λ x. x =b= s) (=b=_eq p.id id same) ∙ ne in
      rw same (taken-others id s existing ne (sym (ap (λ b. b || taken existing s) away) ∙ t))
  | inr other ↦ rw other (elim (Bool-cases (p.id =b= s)) [
    | inl here ↦ rw here refl
    | inr away ↦
        rw away (taken-others id s existing ne (sym (ap (λ b. b || taken existing s) away) ∙ t))
  ])
]

false-ne-true : (b : Bool) → b ≡ false → b ≢ true
false-ne-true b e t = ground arith

module _ (existing : List SyncPairSpec) (safe peer : List ℕ) where
  numbered_other : (n m : ℕ) → n < m → (numbered_id safe peer n =b= numbered_id safe peer m) ≡ false
  numbered_other n m less =
      elim (Bool-cases (numbered_id safe peer n =b= numbered_id safe peer m)) [
        | inl same ↦
            let e : n ≡ m = numbered_id-injective safe peer n m (=b=_eq _ _ same) in
            absurd (omega arith)
        | inr other ↦ other
      ]

  -- `left` has the pairs whose ids the loop may still meet.
  next_id-fresh :
      (fuel : ℕ) (left : List SyncPairSpec) (n : ℕ)
      → length left < fuel
      → ((m : ℕ)
          → n ≤ m
          → taken existing (numbered_id safe peer m) ≡ true
          → taken left (numbered_id safe peer m) ≡ true)
      → taken existing (next_id fuel existing safe peer (numbered_id safe peer n) (n + 1)) ≡ false
  next_id-fresh zero left n enough meets = absurd (omega arith)
  next_id-fresh (suc fuel) left n enough meets =
      elim (Bool-cases (taken existing (numbered_id safe peer n))) [
        | inr free ↦ rw free free
        | inl used ↦ rw used (
            next_id-fresh fuel (others (numbered_id safe peer n) left) (n + 1)
              (omega
                (arith, length-others (numbered_id safe peer n) left (meets n (omega arith) used)))
              (λ m above again.
                taken-others (numbered_id safe peer n) (numbered_id safe peer m) left
                  (numbered_other n m (omega arith)) (meets m (omega arith) again)))
      ]

  first_id-fresh :
      (id : List ℕ)
      → taken existing (next_id (suc (suc (length existing))) existing safe peer id 2) ≡ false
  first_id-fresh id = elim (Bool-cases (taken existing id)) [
    | inr free ↦ rw free free
    | inl used ↦
        rw used (next_id-fresh (suc (length existing)) existing 2 (omega arith) (λ m above t. t))
  ]

-- The loop of `sync_make_pair_id` ends, and the id is one that no pair has.
pub sync_make_pair_id-taken :
    (existing : List SyncPairSpec) (local_dir peer : List ℕ)
    → taken existing (sync_make_pair_id existing local_dir peer) ≡ false
unfolding sync_make_pair_id
sync_make_pair_id-taken existing local_dir peer =
    let safe = map safe_char (base_of local_dir) in
    first_id-fresh existing safe peer (first_id safe peer)
