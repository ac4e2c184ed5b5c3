-- ===== src/Codec/Wire/Blobs.antt =====
-- Byte runs behind a 32-bit length, checks after a read, and runs of items up to the end.
use bridge_sessions.Base.{
  ℕ, zero, suc, ◌%◌, ◌^◌, ◌≤◌, ◌<◌, ◌≡◌, refl, subst, ◌∙◌, Bool, false, List, [], ◌∷◌, ◌++◌, arith,
  ltb, length, length-append, All,
}
use bridge_sessions.Codec.Result.{Error, ok}
use bridge_sessions.Codec.Serializer.{Put, put_blob, put_each}
use bridge_sessions.Codec.Decoder.{
  Get, ◌>>=◌, pure, get_check, get_blob, get_many_fuel, get_many, get_upto,
}
use bridge_sessions.Codec.Wire.{Wire, Ends, AtLeast, >>-eq-ok, >>=-ok, next, ok-injective}
use bridge_sessions.Codec.Wire.Words.{wire_u32be}
use bridge_sessions.Codec.Wire.Texts.{wire_bytes}

-- A check after a read that does not throw.
get_check-false : {A : Type 0} (e : Error) (k : Get A) → (get_check false e >>= λ _. k) ≡ k
unfolding get_check ◌>>=◌
get_check-false e k = refl

pub wire_passed :
    {A : Type 0} {p : Put} {k : Get A} {a : A} (over : Bool) (e : Error)
    → over ≡ false
    → Wire p k a
    → Wire p (get_check over e >>= λ _. k) a
wire_passed {p} {k} {a} over e f w = rw (f, get_check-false e k) w

pub wire_blob :
    (cap : ℕ) (e : Error) (d : List ℕ)
    → cap < 2 ^ 32
    → length d ≤ cap
    → Wire (put_blob d) (get_blob cap e) d
unfolding put_blob get_blob
wire_blob cap e d hc hd =
    let small : length d % 2 ^ 32 ≡ length d = omega arith in
    rw small (
      next _ (wire_u32be (omega arith))
        (wire_passed (ltb cap (length d)) e (ground arith) (wire_bytes d)))

-- One round of the loop over the input, on an item whose bytes are `a`.
get_many_fuel_step :
    {A : Type 0} (g : Get A) (x : A) (xs : List A) (fuel : ℕ) (a b : List ℕ)
    → 1 ≤ length a
    → length (a ++ b) ≤ fuel
    → g (a ++ b) ≡ ok (x, b)
    → ((f : ℕ) → length b ≤ f → get_many_fuel f g b ≡ ok (xs, []))
    → get_many_fuel fuel g (a ++ b) ≡ ok (x ∷ xs, [])
unfolding get_many_fuel pure
get_many_fuel_step g x xs fuel [] b some_byte enough read rest = absurd (omega arith)
get_many_fuel_step g x xs zero (c ∷ a) b some_byte enough read rest = absurd (omega arith)
get_many_fuel_step g x xs (suc fuel) (c ∷ a) b some_byte enough read rest =
    >>=-ok g _ (c ∷ (a ++ b)) b x read
    ∙ >>=-ok (get_many_fuel fuel g) _ b [] xs (rest fuel (omega (arith, length-append a b)))

-- A written list of items is read back by the loop, with a round of fuel for each byte.
get_many_fuel-put_each :
    {A : Type 0} (put : A → Put) (g : Get A) (xs : List A)
    → ((a : A) → AtLeast 1 (put a))
    → All (λ a. Wire (put a) g a) xs
    → (fuel : ℕ) (bs : List ℕ) → put_each put xs ≡ ok bs
    → length bs ≤ fuel
    → get_many_fuel fuel g bs ≡ ok (xs, [])
unfolding put_each
get_many_fuel-put_each put g [] room w zero bs e h =
    rw (← ok-injective e) (unfold get_many_fuel in refl)
get_many_fuel-put_each put g [] room w (suc fuel) bs e h =
    rw (← ok-injective e) (unfold get_many_fuel in refl)
get_many_fuel-put_each put g (x ∷ xs) room (w, ws) fuel bs e h =
    let (a, b, ea, eb, split) = >>-eq-ok (put x) (put_each put xs) bs e in
    let enough : length (a ++ b) ≤ fuel = subst (λ l. length l ≤ fuel) split h in
    rw split (
      get_many_fuel_step g x xs fuel a b ((room x).room a ea) enough (w.reads a b ea)
        λ f hf. get_many_fuel-put_each put g xs room ws f b eb hf)

pub Ends-many :
    {A : Type 0} (put : A → Put) (g : Get A) (xs : List A)
    → ((a : A) → AtLeast 1 (put a))
    → All (λ a. Wire (put a) g a) xs
    → Ends (put_each put xs) (get_many g) xs
unfolding get_many
Ends-many put g xs room w = record {
  reads = λ bs e. get_many_fuel-put_each put g xs room w (length bs) bs e (omega arith);
}

-- The same for the loop that stops after `n` items.
get_upto_step :
    {A : Type 0} (g : Get A) (x : A) (xs : List A) (n : ℕ) (a b : List ℕ)
    → 1 ≤ length a
    → g (a ++ b) ≡ ok (x, b)
    → get_upto n g b ≡ ok (xs, [])
    → get_upto (suc n) g (a ++ b) ≡ ok (x ∷ xs, [])
unfolding get_upto pure
get_upto_step g x xs n [] b some_byte read rest = absurd (omega arith)
get_upto_step g x xs n (c ∷ a) b some_byte read rest =
    >>=-ok g _ (c ∷ (a ++ b)) b x read ∙ >>=-ok (get_upto n g) _ b [] xs rest

get_upto-put_each :
    {A : Type 0} (put : A → Put) (g : Get A) (n : ℕ) (xs : List A)
    → ((a : A) → AtLeast 1 (put a))
    → All (λ a. Wire (put a) g a) xs
    → (bs : List ℕ) → put_each put xs ≡ ok bs
    → length xs ≤ n
    → get_upto n g bs ≡ ok (xs, [])
unfolding put_each
get_upto-put_each put g zero [] room w bs e h = rw (← ok-injective e) (unfold get_upto in refl)
get_upto-put_each put g (suc n) [] room w bs e h = rw (← ok-injective e) (unfold get_upto in refl)
get_upto-put_each put g zero (x ∷ xs) room (w, ws) bs e h = absurd (omega arith)
get_upto-put_each put g (suc n) (x ∷ xs) room (w, ws) bs e h =
    let (a, b, ea, eb, split) = >>-eq-ok (put x) (put_each put xs) bs e in
    rw split (
      get_upto_step g x xs n a b ((room x).room a ea) (w.reads a b ea)
        (get_upto-put_each put g n xs room ws b eb (omega arith)))

pub Ends-upto :
    {A : Type 0} (put : A → Put) (g : Get A) (n : ℕ) (xs : List A)
    → ((a : A) → AtLeast 1 (put a))
    → All (λ a. Wire (put a) g a) xs
    → length xs ≤ n
    → Ends (put_each put xs) (get_upto n g) xs
Ends-upto put g n xs room w few = record {
  reads = λ bs e. get_upto-put_each put g n xs room w bs e few;
}

-- A last read with a test behind it that finds nothing left.
pub then_nothing :
    {A B : Type 0} {p : Put} {g : Get A} {a : A} (f : A → Get B) {b : B}
    → Ends p g a
    → f a [] ≡ ok (b, [])
    → Ends p (g >>= f) b
then_nothing {g = g} {a = a} f v e = record {
  reads = λ bs h. >>=-ok g f bs [] a (v.reads bs h) ∙ e;
}
