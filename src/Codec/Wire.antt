-- ===== src/Codec/Wire.antt =====
-- What a serializer writes, a decoder reads back: the relation and its rules for sequences.
pub mod Words
pub mod Texts
pub mod Blobs
use bridge_sessions.Base.{
  ℕ, ◌+◌, ◌≤◌, ◌<◌, ◌≡◌, refl, sym, ap, subst, ◌∙◌, List, [], ◌++◌, append-nil, append_assoc, arith,
  length, length-append, le→leb, Bool, true, false, inl, inr, Bool-cases,
}
use bridge_sessions.Codec.Result.{Error, ok, err}
use bridge_sessions.Codec.Serializer.{Put, ◌>>◌, put_nothing, put_check, put_if}
use bridge_sessions.Codec.Decoder.{Get, ◌>>=◌, pure, get_if, get_check}

-- Application, to write the fields of a message one after another.
infixr 2 ◌⨾◌
abbrev pub ◌⨾◌ : {A B : Type 0} → (A → B) → A → B
f ⨾ a = f a

-- `g` reads `a` from what `p` writes, and leaves what follows.
pub record Wire {A : Type 0} (p : Put) (g : Get A) (a : A) : Type 0 where
  pub reads : (bs rest : List ℕ) → p ≡ ok bs → g (bs ++ rest) ≡ ok (a, rest)

-- The same where nothing follows.
pub record Ends {A : Type 0} (p : Put) (g : Get A) (a : A) : Type 0 where
  pub reads : (bs : List ℕ) → p ≡ ok bs → g bs ≡ ok (a, [])

pub ok-injective {ℓ} : {A : Type ℓ} {a b : A} → ok a ≡ ok b → a ≡ b
ok-injective e = cc

-- What a successful sequence has written.
pub >>-eq-ok :
    (p q : Put) (bs : List ℕ)
    → (p >> q) ≡ ok bs
    → (a : List ℕ) × (b : List ℕ) × (p ≡ ok a) × (q ≡ ok b) × (bs ≡ a ++ b)
unfolding ◌>>◌
>>-eq-ok (ok a) (ok b) bs e = (a, b, refl, refl, sym (ok-injective e))
>>-eq-ok (ok a) (err x) bs e = cc
>>-eq-ok (err x) q bs e = cc

-- A bind whose first part has read.
pub >>=-ok :
    {A B : Type 0} (g : Get A) (f : A → Get B) (s t : List ℕ) (a : A)
    → g s ≡ ok (a, t)
    → (g >>= f) s ≡ f a t
unfolding ◌>>=◌
>>=-ok g f s t a e = rw e

module _ {A : Type 0} (g : Get A) (a : A) where
  pub wire_of_ok : (b : List ℕ) → ((rest : List ℕ) → g (b ++ rest) ≡ ok (a, rest)) → Wire (ok b) g a
  wire_of_ok b h = record {
    reads = λ bs rest e. subst (λ c. g (c ++ rest) ≡ ok (a, rest)) (ok-injective e) (h rest);
  }

  pub Ends-of_ok : (b : List ℕ) → g b ≡ ok (a, []) → Ends (ok b) g a
  Ends-of_ok b h = record { reads = λ bs e. subst (λ c. g c ≡ ok (a, [])) (ok-injective e) h }

-- One read after another, and the last read of a message; `f` is what the decoder does next.
module _ {A B : Type 0} {p : Put} {g : Get A} {a : A} where
  pub next :
      {q : Put} (f : A → Get B) {b : B} → Wire p g a → Wire q (f a) b → Wire (p >> q) (g >>= f) b
  next {q} f {b} v w = record {
    reads = λ bs rest e.
        let (x, y, ep, eq, es) = >>-eq-ok p q bs e in
        rw (es, append_assoc)
          (>>=-ok g f (x ++ (y ++ rest)) (y ++ rest) a (v.reads x (y ++ rest) ep)
            ∙ w.reads y rest eq);
  }

  pub next_end :
      {q : Put} (f : A → Get B) {b : B} → Wire p g a → Ends q (f a) b → Ends (p >> q) (g >>= f) b
  next_end {q} f {b} v w = record {
    reads = λ bs e.
        let (x, y, ep, eq, es) = >>-eq-ok p q bs e in
        rw es (>>=-ok g f (x ++ y) y a (v.reads x y ep) ∙ w.reads y eq);
  }

  pub last : (f : A → B) → Wire p g a → Wire p (g >>= λ x. pure (f x)) (f a)
  unfolding pure
  last f v = record {
    reads = λ bs rest e. >>=-ok g (λ x. pure (f x)) (bs ++ rest) rest a (v.reads bs rest e);
  }

  pub last_end : (f : A → B) → Ends p g a → Ends p (g >>= λ x. pure (f x)) (f a)
  unfolding pure
  last_end f v = record { reads = λ bs e. >>=-ok g (λ x. pure (f x)) bs [] a (v.reads bs e) }

-- A write that throws reads back as anything.
pub wire_of_err : {A : Type 0} {e : Error} {g : Get A} {a : A} → Wire (err e) g a
wire_of_err = record { reads = λ bs rest h. cc }

-- A reader that works whatever follows works at the end.
pub ends : {A : Type 0} {p : Put} {g : Get A} {a : A} → Wire p g a → Ends p g a
ends {p} {g} {a} v = record { reads = λ bs e. rw append-nil at (v.reads bs [] e) }

-- `p` writes `n` bytes or more.
pub record AtLeast (n : ℕ) (p : Put) : Type 0 where
  pub room : (bs : List ℕ) → p ≡ ok bs → n ≤ length bs

pub AtLeast-first : {n : ℕ} {p : Put} (q : Put) → AtLeast n p → AtLeast n (p >> q)
AtLeast-first {n} {p} q v = record {
  room = λ bs e.
      let (x, y, ep, eq, es) = >>-eq-ok p q bs e in
      omega (arith, v.room x ep, ap length es, length-append x y);
}

-- An optional field that is there.
pub wire_if :
    {A : Type 0} {p : Put} {g : Get A} {a : A} {need : ℕ} (absent : A)
    → AtLeast need p
    → Wire p g a
    → Wire p (get_if need g absent) a
unfolding get_if
wire_if {need = need} absent v w = record {
  reads = λ bs rest e.
      rw (le→leb need (length (bs ++ rest)) (omega (arith, v.room bs e, length-append bs rest)))
        (w.reads bs rest e);
}

-- An optional field that is left out at the end of the payload.
pub Ends-absent :
    {A : Type 0} (need : ℕ) (g : Get A) (absent : A)
    → 0 < need
    → Ends put_nothing (get_if need g absent) absent
unfolding get_if
Ends-absent need g absent h = Ends-of_ok _ absent [] (ground arith)

pub nothing->> : (q : Put) → (put_nothing >> q) ≡ q
unfolding ◌>>◌
nothing->> (ok b) = refl
nothing->> (err e) = refl

err->> : (e : Error) (q : Put) → (err e >> q) ≡ err e
unfolding ◌>>◌
err->> e q = refl

-- A check that throws before the rest is written; past it, the tested condition is false.
pub wire_check :
    {A : Type 0} {q : Put} {g : Get A} {a : A} (over : Bool) (e : Error)
    → (over ≡ false → Wire q g a)
    → Wire (put_check over e >> q) g a
unfolding put_check
wire_check {q} true e h = rw (err->> e q) wire_of_err
wire_check {q} false e h = rw (nothing->> q) (h refl)

-- A read whose value is checked, where what was written passes the check.
pub last_checked :
    {A B : Type 0} {p : Put} {g : Get A} {a : A} (over : A → Bool) (e : Error) (f : A → B)
    → ((bs : List ℕ) → p ≡ ok bs → over a ≡ false)
    → Wire p g a
    → Wire p (g >>= λ x. get_check (over x) e >>= λ _. pure (f x)) (f a)
unfolding get_check pure ◌>>=◌
last_checked {p} {g} {a} over e f passes w = record {
  reads = λ bs rest h. ground (arith, w.reads bs rest h, passes bs h);
}

-- An optional field that is left out, with more such fields behind it.
pub next_absent :
    {A B : Type 0} (need : ℕ) (g : Get A) (absent : A) (f : A → Get B) {b : B}
    → 0 < need
    → Ends put_nothing (f absent) b
    → Ends put_nothing (get_if need g absent >>= f) b
next_absent need g absent f {b} h v = record {
  reads = λ bs e.
      let first = (Ends-absent need g absent h).reads bs e in
      >>=-ok (get_if need g absent) f bs [] absent first ∙ v.reads [] refl;
}

-- An optional field whose default is its value, sent or not.
pub Ends-optional :
    {A : Type 0} (sent : Bool) {p : Put} {g : Get A} {a absent : A} {need : ℕ}
    → 0 < need
    → AtLeast need p
    → Wire p g a
    → (sent ≡ false → a ≡ absent)
    → Ends (put_if sent p) (get_if need g absent) a
unfolding put_if
Ends-optional true h room w same = ends (wire_if _ room w)
Ends-optional false {g = g} {absent = d} {need = need} h room w same =
    rw (same refl) (Ends-absent need g d h)

pub AtLeast-both : {m n : ℕ} {p q : Put} → AtLeast m p → AtLeast n q → AtLeast (m + n) (p >> q)
AtLeast-both {m} {n} {p} {q} v w = record {
  room = λ bs e.
      let (x, y, ep, eq, es) = >>-eq-ok p q bs e in
      omega (arith, v.room x ep, w.room y eq, ap length es, length-append x y);
}
