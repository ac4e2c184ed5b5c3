-- ===== src/Codec/Decoder.antt =====
-- `struct Decoder`: reads that advance over the bytes `[p, end)` that are left, or throw.
use bridge_sessions.Base.{
  ℕ, zero, suc, ◌*◌, ◌%◌, ◌^◌, Bool, not, List, [], ◌∷◌, bit_or, ltb, leb, ◌==◌, length, take, drop,
  if◌then◌else◌,
}
use bridge_sessions.Base.Signed.{ℤ, of_u32, of_u16}
use bridge_sessions.Codec.Result.{Result, Error, ok, err, frame_truncated, stuck}

abbrev pub Get : Type 0 → Type 0
Get A = List ℕ → Result (A × List ℕ)

continue : {A B : Type 0} → Result (A × List ℕ) → (A → Get B) → Result (B × List ℕ)
continue (ok (a, s)) f = f a s
continue (err e) f = err e

infixl 5 ◌>>=◌
unfoldable pub ◌>>=◌ : {A B : Type 0} → Get A → (A → Get B) → Get B
unfolding continue
◌>>=◌ g f s = continue (g s) f

unfoldable pub pure : {A : Type 0} → A → Get A
pure a s = ok (a, s)

unfoldable pub throw : {A : Type 0} → Error → Get A
throw e s = err e

unfoldable pub get_u8 : Get ℕ
get_u8 [] = err frame_truncated
get_u8 (b ∷ s) = ok (b, s)

-- `read_u16`
unfoldable pub read_u16 : ℕ → ℕ → ℕ
read_u16 a b = bit_or (a * 2 ^ 8) b

unfoldable pub get_u16 : Get ℕ
get_u16 (a ∷ b ∷ s) = ok (read_u16 a b, s)
get_u16 _ = err frame_truncated

-- `read_u32be`, and the body of `Decoder::u32be`
unfoldable pub read_u32be : ℕ → ℕ → ℕ → ℕ → ℕ
read_u32be a b c d = bit_or (bit_or (bit_or (a * 2 ^ 24) (b * 2 ^ 16)) (c * 2 ^ 8)) d

unfoldable pub get_u32be : Get ℕ
get_u32be (a ∷ b ∷ c ∷ d ∷ s) = ok (read_u32be a b c d, s)
get_u32be _ = err frame_truncated

-- `v = (v << 8) | p[i]` over the bytes, on a `uint64_t`.
unfoldable pub fold_u64 : ℕ → List ℕ → ℕ
fold_u64 v [] = v
fold_u64 v (b ∷ bs) = fold_u64 (bit_or (v * 2 ^ 8 % 2 ^ 64) b) bs

unfoldable pub get_u64be : Get ℕ
get_u64be s = if leb 8 (length s) then ok (fold_u64 0 (take 8 s), drop 8 s) else err frame_truncated

-- `str_size` and `bytes_size`
unfoldable pub get_str_size : ℕ → Get (List ℕ)
get_str_size n s =
    if n == 0
    then ok ([], s)
    else if leb n (length s)
    then ok (take n s, drop n s)
    else err frame_truncated

-- `str_size(d.end - d.p)`: all that is left
unfoldable pub get_rest : Get (List ℕ)
get_rest s = get_str_size (length s) s

unfoldable pub get_str_prefixed : Get (List ℕ)
get_str_prefixed = do n ← get_u8; get_str_size n

unfoldable pub get_str_prefixed_u16 : Get (List ℕ)
get_str_prefixed_u16 = do n ← get_u16; get_str_size n

-- `d.u8() != 0`
unfoldable pub get_flag : Get Bool
get_flag = do b ← get_u8; pure (not (b == 0))

-- `(hi << 32) | lo` of two `u32be` reads
unfoldable pub get_u64_halves : Get ℕ
get_u64_halves = do hi ← get_u32be; lo ← get_u32be; pure (bit_or (hi * 2 ^ 32 % 2 ^ 64) lo)

unfoldable pub get_i32 : Get ℤ
get_i32 = do w ← get_u32be; pure (of_u32 w)

unfoldable pub get_i16 : Get ℤ
get_i16 = do w ← get_u16; pure (of_u16 w)

-- `d.ok(need) ? g : absent`
unfoldable pub get_if : {A : Type 0} → ℕ → Get A → A → Get A
get_if need g absent s = if leb need (length s) then g s else ok (absent, s)

-- `while (d.ok(1)) { items.push_back(g) }`, on fuel; a round that reads nothing would not end.
unfoldable pub get_many_fuel : {A : Type 0} → ℕ → Get A → Get (List A)
get_many_fuel fuel g [] = ok ([], [])
get_many_fuel zero g (b ∷ s) = err stuck
get_many_fuel (suc fuel) g (b ∷ s) =
    (do a ← g; rest ← get_many_fuel fuel g; pure (a ∷ rest)) (b ∷ s)

-- Each round takes a byte at least, so one round for each byte is enough.
unfoldable pub get_many : {A : Type 0} → Get A → Get (List A)
unfolding get_many_fuel
get_many g s = get_many_fuel (length s) g s

-- `if (over) throw e;`
unfoldable pub get_check : Bool → Error → Get (Unit {0})
get_check over e s = if over then err e else ok (tt, s)

-- `n = d.u32be(); if (n > cap) throw e; d.bytes_size(n)`
unfoldable pub get_blob : ℕ → Error → Get (List ℕ)
get_blob cap e = do n ← get_u32be; _ ← get_check (ltb cap n) e; get_str_size n

-- `while (d.ok(1) && items.size() < n) { items.push_back(g) }`
unfoldable pub get_upto : {A : Type 0} → ℕ → Get A → Get (List A)
get_upto zero g s = ok ([], s)
get_upto (suc n) g [] = ok ([], [])
get_upto (suc n) g (b ∷ s) = (do a ← g; rest ← get_upto n g; pure (a ∷ rest)) (b ∷ s)

-- `if (d.ok(1)) throw e;`
unfoldable pub get_end : Error → Get (Unit {0})
get_end e [] = ok (tt, [])
get_end e (b ∷ s) = err e
