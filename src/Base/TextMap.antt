-- ===== src/Base/TextMap.antt =====
-- `std::map<std::string, A>`: entries in the order of their keys.
use Prim.Native.Nat.{ℕ}
use mathlib.Core.Path.{◌≡◌, refl, sym, ap, subst, ◌∙◌}
use mathlib.Core.Logic.{◌≢◌, inl, inr}
use mathlib.Core.Bool.{true, false}
use mathlib.Core.Option.{Option, none, some}
use mathlib.Core.List.{List, [], ◌∷◌}
use native.Mathlib.Omega.{arith}
use bridge_sessions.Base.Tests.{Bool-cases, if◌then◌else◌}
use bridge_sessions.Base.Lists.{All}
use bridge_sessions.Base.Texts.{◌=b=◌, ◌<b◌, =b=_eq}

pub =b=_refl : (a : List ℕ) → (a =b= a) ≡ true
=b=_refl [] = refl
=b=_refl (a ∷ r) = ground (arith, =b=_refl r)

pub =b=_sym : (a b : List ℕ) → (a =b= b) ≡ (b =b= a)
=b=_sym a b = elim (Bool-cases (a =b= b)) [
  | inl same ↦ ap (λ t. t =b= b) (=b=_eq a b same) ∙ ap (λ t. b =b= t) (sym (=b=_eq a b same))
  | inr other ↦ elim (Bool-cases (b =b= a)) [
    | inl same ↦ ap (λ t. t =b= b) (sym (=b=_eq b a same)) ∙ ap (λ t. b =b= t) (=b=_eq b a same)
    | inr rest ↦ other ∙ sym rest
  ]
]

<b_other : (a b : List ℕ) → (a <b b) ≡ true → (a =b= b) ≡ false
<b_other [] [] h = ground arith
<b_other [] (b ∷ bs) h = refl
<b_other (a ∷ r) [] h = refl
<b_other (a ∷ r) (b ∷ bs) h = ground (arith, <b_other r bs)

<b_total : (a b : List ℕ) → (a =b= b) ≡ false → (a <b b) ≡ false → (b <b a) ≡ true
<b_total [] [] ne h = ground arith
<b_total [] (b ∷ bs) ne h = ground arith
<b_total (a ∷ r) [] ne h = refl
<b_total (a ∷ r) (b ∷ bs) ne h = ground (arith, <b_total r bs)

<b_trans : (a b c : List ℕ) → (a <b b) ≡ true → (b <b c) ≡ true → (a <b c) ≡ true
<b_trans a b [] h g = ground arith
<b_trans [] b (c ∷ cs) h g = refl
<b_trans (a ∷ r) [] (c ∷ cs) h g = ground arith
<b_trans (a ∷ r) (b ∷ bs) (c ∷ cs) h g = ground (arith, <b_trans r bs cs)

abbrev pub TextMap {ℓ} : Type ℓ → Type ℓ
TextMap A = List (List ℕ × A)

pub some-ne-none {ℓ} : {A : Type ℓ} {a : A} → some a ≢ none
some-ne-none e = cc

module _ {ℓ} {A : Type ℓ} where
  -- `m.find(key)`
  abbrev pub find : List ℕ → TextMap A → Option A
  find key [] = none
  find key ((k, a) ∷ m) = if key =b= k then some a else find key m

  -- `m[key] = a`
  abbrev pub put : List ℕ → A → TextMap A → TextMap A
  put key a [] = (key, a) ∷ []
  put key a ((k, old) ∷ m) =
      let behind = put key a m in
      if key =b= k
      then (key, a) ∷ m
      else (if key <b k then (key, a) ∷ (k, old) ∷ m else (k, old) ∷ behind)

  -- `m.erase(key)`
  abbrev pub erase : List ℕ → TextMap A → TextMap A
  erase key [] = []
  erase key ((k, a) ∷ m) = let behind = erase key m in if key =b= k then behind else (k, a) ∷ behind

  -- No key twice.
  abbrev pub Unique : TextMap A → Type ℓ
  Unique [] = Unit
  Unique ((k, a) ∷ m) = (find k m ≡ none) × Unique m

  pub find-put_same : (key : List ℕ) (a : A) (m : TextMap A) → find key (put key a m) ≡ some a
  find-put_same key a [] = rw =b=_refl refl
  find-put_same key a ((k, old) ∷ m) = elim (Bool-cases (key =b= k)) [
    | inl same ↦ rw (same, =b=_refl) refl
    | inr other ↦ elim (Bool-cases (key <b k)) [
      | inl before ↦ rw (other, before, =b=_refl) refl
      | inr behind ↦ rw (other, behind, other) (find-put_same key a m)
    ]
  ]

  pub find-put_other :
      (key path : List ℕ) (a : A) (m : TextMap A)
      → (path =b= key) ≡ false
      → find path (put key a m) ≡ find path m
  find-put_other key path a [] ne = rw ne refl
  find-put_other key path a ((k, old) ∷ m) ne = elim (Bool-cases (key =b= k)) [
    | inl same ↦
        let away : (path =b= k) ≡ false = ap (λ t. path =b= t) (sym (=b=_eq key k same)) ∙ ne in
        rw (same, ne, away) refl
    | inr other ↦ elim (Bool-cases (key <b k)) [
      | inl before ↦ rw (other, before, ne) refl
      | inr behind ↦
          rw (other, behind)
            (ap (λ o. if path =b= k then some old else o) (find-put_other key path a m ne))
    ]
  ]

  pub find-put :
      (key path : List ℕ) (a : A) (m : TextMap A)
      → find path (put key a m) ≡ (if path =b= key then some a else find path m)
  find-put key path a m = elim (Bool-cases (path =b= key)) [
    | inl same ↦
        rw same (ap (λ t. find t (put key a m)) (=b=_eq path key same) ∙ find-put_same key a m)
    | inr other ↦ rw other (find-put_other key path a m other)
  ]

  pub find-erase_same : (key : List ℕ) (m : TextMap A) → find key (erase key m) ≡ none
  find-erase_same key [] = refl
  find-erase_same key ((k, a) ∷ m) = elim (Bool-cases (key =b= k)) [
    | inl same ↦ rw same (find-erase_same key m)
    | inr other ↦ rw (other, other) (find-erase_same key m)
  ]

  pub find-erase_other :
      (key path : List ℕ) (m : TextMap A)
      → (path =b= key) ≡ false
      → find path (erase key m) ≡ find path m
  find-erase_other key path [] ne = refl
  find-erase_other key path ((k, a) ∷ m) ne = elim (Bool-cases (key =b= k)) [
    | inl same ↦
        let away : (path =b= k) ≡ false = ap (λ t. path =b= t) (sym (=b=_eq key k same)) ∙ ne in
        rw (same, away) (find-erase_other key path m ne)
    | inr other ↦
        rw other (ap (λ o. if path =b= k then some a else o) (find-erase_other key path m ne))
  ]

  pub find-cons_none :
      (path key : List ℕ) (a : A) (m : TextMap A)
      → find path ((key, a) ∷ m) ≡ none
      → ((path =b= key) ≡ false) × (find path m ≡ none)
  find-cons_none path key a m gone = elim (Bool-cases (path =b= key)) [
    | inl same ↦
        absurd (some-ne-none (sym (ap (λ b. if b then some a else find path m) same) ∙ gone))
    | inr other ↦ (other, sym (ap (λ b. if b then some a else find path m) other) ∙ gone)
  ]

  -- What the rest of a map finds, all of it finds.
  pub find-cons_some :
      (path key : List ℕ) (a old : A) (m : TextMap A)
      → find key m ≡ none
      → find path m ≡ some old
      → find path ((key, a) ∷ m) ≡ some old
  find-cons_some path key a old m unique found = elim (Bool-cases (path =b= key)) [
    | inl same ↦
        absurd (some-ne-none (sym found ∙ ap (λ t. find t m) (=b=_eq path key same) ∙ unique))
    | inr other ↦ ap (λ b. if b then some a else find path m) other ∙ found
  ]

  -- The keys ascend.
  abbrev pub IsSorted : TextMap A → Type ℓ
  IsSorted [] = Unit
  IsSorted ((k, a) ∷ m) = All (λ (e : List ℕ × A). (k <b e.0) ≡ true) m × IsSorted m

  pub put-All :
      (P : List ℕ × A → Type 0) (key : List ℕ) (a : A) (m : TextMap A)
      → P (key, a)
      → All P m
      → All P (put key a m)
  put-All P key a [] p ps = (p, tt)
  put-All P key a ((k, old) ∷ m) p ps = elim (Bool-cases (key =b= k)) [
    | inl same ↦ rw same (p, ps.1)
    | inr other ↦ elim (Bool-cases (key <b k)) [
      | inl before ↦ rw (other, before) (p, ps)
      | inr behind ↦ rw (other, behind) (ps.0, put-All P key a m p ps.1)
    ]
  ]

  All-above :
      (key k : List ℕ) (m : TextMap A)
      → (key <b k) ≡ true
      → All (λ (e : List ℕ × A). (k <b e.0) ≡ true) m
      → All (λ (e : List ℕ × A). (key <b e.0) ≡ true) m
  All-above key k [] less ps = tt
  All-above key k (e ∷ m) less ps = (<b_trans key k e.0 less ps.0, All-above key k m less ps.1)

  pub put-IsSorted : (key : List ℕ) (a : A) (m : TextMap A) → IsSorted m → IsSorted (put key a m)
  put-IsSorted key a [] u = (tt, tt)
  put-IsSorted key a ((k, old) ∷ m) u = elim (Bool-cases (key =b= k)) [
    | inl same ↦ rw same (
      subst (λ t. All (λ (e : List ℕ × A). (t <b e.0) ≡ true) m) (sym (=b=_eq key k same)) u.0,
      u.1,
    )
    | inr other ↦ elim (Bool-cases (key <b k)) [
      | inl before ↦ rw (other, before) ((before, All-above key k m before u.0), u)
      | inr behind ↦
          rw (other, behind)
            (
              put-All (λ e. (k <b e.0) ≡ true) key a m (<b_total key k other behind) u.0,
              put-IsSorted key a m u.1,
            )
    ]
  ]

  pub erase-All :
      (P : List ℕ × A → Type 0) (key : List ℕ) (m : TextMap A) → All P m → All P (erase key m)
  erase-All P key [] ps = tt
  erase-All P key ((k, a) ∷ m) ps = elim (Bool-cases (key =b= k)) [
    | inl same ↦ rw same (erase-All P key m ps.1)
    | inr other ↦ rw other (ps.0, erase-All P key m ps.1)
  ]

  pub erase-IsSorted : (key : List ℕ) (m : TextMap A) → IsSorted m → IsSorted (erase key m)
  erase-IsSorted key [] u = tt
  erase-IsSorted key ((k, a) ∷ m) u = elim (Bool-cases (key =b= k)) [
    | inl same ↦ rw same (erase-IsSorted key m u.1)
    | inr other ↦ rw other (erase-All (λ e. (k <b e.0) ≡ true) key m u.0, erase-IsSorted key m u.1)
  ]

  find-above :
      (k : List ℕ) (m : TextMap A) → All (λ (e : List ℕ × A). (k <b e.0) ≡ true) m → find k m ≡ none
  find-above k [] ps = refl
  find-above k ((key, a) ∷ m) ps = rw (<b_other k key ps.0) (find-above k m ps.1)

  pub IsSorted-Unique : (m : TextMap A) → IsSorted m → Unique m
  IsSorted-Unique [] u = tt
  IsSorted-Unique ((k, a) ∷ m) u = (find-above k m u.0, IsSorted-Unique m u.1)
