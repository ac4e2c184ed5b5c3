-- ===== src/Codec/Serializer.antt =====
-- `struct Serializer` and `write_u16`. What a call appends to `out` is a list of bytes; a call that
-- throws is an error. Calls in sequence are joined by `>>`.
use bridge_sessions.Base.{
  ℕ, zero, suc, ◌*◌, ◌/◌, ◌%◌, ◌^◌, Bool, true, false, List, [], ◌∷◌, ◌++◌, ltb, length,
  if◌then◌else◌,
}
use bridge_sessions.Base.Signed.{ℤ, to_u32, to_u16}
use bridge_sessions.Codec.Result.{Result, Error, ok, err, prefixed_over_255, prefixed_over_65535}

abbrev pub Put : Type 0
Put = Result (List ℕ)

append_put : List ℕ → Put → Put
append_put a (ok b) = ok (a ++ b)
append_put a (err e) = err e

infixl 5 ◌>>◌
unfoldable pub ◌>>◌ : Put → Put → Put
unfolding append_put
ok a >> q = append_put a q
err e >> q = err e

-- An empty body.
abbrev pub put_nothing : Put
put_nothing = ok []

unfoldable pub put_bytes : List ℕ → Put
put_bytes b = ok b

unfoldable pub put_u8 : ℕ → Put
put_u8 v = ok (v ∷ [])

-- `static_cast<uint8_t>(v >> (i * 8))` for `i` from `n - 1` down to 0.
unfoldable pub be_bytes : ℕ → ℕ → List ℕ
be_bytes zero v = []
be_bytes (suc i) v = (v / 2 ^ (i * 8) % 256) ∷ be_bytes i v

unfoldable pub put_u16 : ℕ → Put
unfolding be_bytes
put_u16 v = ok (be_bytes 2 v)

unfoldable pub put_u32be : ℕ → Put
unfolding be_bytes
put_u32be v = ok (be_bytes 4 v)

unfoldable pub put_u64be : ℕ → Put
unfolding be_bytes
put_u64be v = ok (be_bytes 8 v)

unfoldable pub put_str : List ℕ → Put
put_str s = ok s

unfoldable pub put_str_prefixed : List ℕ → Put
put_str_prefixed s =
    if ltb 255 (length s) then err prefixed_over_255 else (do put_u8 (length s % 256); put_str s)

unfoldable pub put_str_prefixed_u16 : List ℕ → Put
put_str_prefixed_u16 s =
    if ltb 65535 (length s)
    then err prefixed_over_65535
    else (do put_u16 (length s % 2 ^ 16); put_str s)

-- `s.u8(flag ? 1 : 0)`
unfoldable pub put_flag : Bool → Put
put_flag b = put_u8 (if b then 1 else 0)

-- `s.u32be(static_cast<uint32_t>(v >> 32)); s.u32be(static_cast<uint32_t>(v & 0xFFFFFFFF));`
unfoldable pub put_u64_halves : ℕ → Put
put_u64_halves v = do put_u32be (v / 2 ^ 32 % 2 ^ 32); put_u32be (v % 2 ^ 32)

-- `s.u32be(static_cast<uint32_t>(v))` of an `int32_t`, and the same with 16 bits.
unfoldable pub put_i32 : ℤ → Put
put_i32 v = put_u32be (to_u32 v)

unfoldable pub put_i16 : ℤ → Put
put_i16 v = put_u16 (to_u16 v)

-- `if (over) throw e;`
unfoldable pub put_check : Bool → Error → Put
put_check over e = if over then err e else ok []

-- `s.u32be(static_cast<uint32_t>(d.size())); if (!d.empty()) s.bytes(d);`
unfoldable pub put_blob : List ℕ → Put
put_blob d = do put_u32be (length d % 2 ^ 32); put_bytes d

-- `for (auto& x : xs) put(x);`
unfoldable pub put_each : {A : Type 0} → (A → Put) → List A → Put
put_each put [] = put_nothing
put_each put (x ∷ xs) = do put x; put_each put xs

-- `if (b) …`
unfoldable pub put_if : Bool → Put → Put
put_if b p = if b then p else put_nothing

-- `s.empty()`
unfoldable pub is_empty : List ℕ → Bool
is_empty [] = true
is_empty (x ∷ xs) = false
