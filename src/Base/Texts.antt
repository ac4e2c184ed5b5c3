-- ===== src/Base/Texts.antt =====
-- Texts as the bytes that the code sends and compares.
use Prim.Native.Nat.{ℕ}
use Prim.Native.Char.{code}
use Prim.Native.String.{String}
use mathlib.Core.Bool.{Bool, true, false, ◌&&◌, ◌||◌}
use mathlib.Core.List.{List, [], ◌∷◌}
use mathlib.Core.Path.{◌≡◌, refl}
use native.Mathlib.Omega.{arith}
use bridge_sessions.Base.Tests.{ltb, leb, ◌==◌}

abbrev pub codes : String → List ℕ
codes String.[] = []
codes (String.◌∷◌ c s) = code c ∷ codes s

-- `==` of two texts.
infix 50 ◌=b=◌
abbrev pub ◌=b=◌ : List ℕ → List ℕ → Bool
[] =b= [] = true
[] =b= (b ∷ bs) = false
(a ∷ r) =b= [] = false
(a ∷ r) =b= (b ∷ bs) = (a == b) && (r =b= bs)

pub =b=_eq : (a b : List ℕ) → (a =b= b) ≡ true → a ≡ b
=b=_eq [] [] h = refl
=b=_eq [] (b ∷ bs) h = ground arith
=b=_eq (a ∷ r) [] h = ground arith
=b=_eq (a ∷ r) (b ∷ bs) h = ground (arith, =b=_eq r bs)

-- `<` of two texts: the bytes in lexicographic order.
infix 50 ◌<b◌
abbrev pub ◌<b◌ : List ℕ → List ℕ → Bool
s <b [] = false
[] <b (d ∷ t) = true
(c ∷ s) <b (d ∷ t) = ltb c d || ((c == d) && (s <b t))

-- `text.rfind(prefix, 0) == 0`
abbrev pub starts_with : List ℕ → List ℕ → Bool
starts_with [] text = true
starts_with (c ∷ prefix) [] = false
starts_with (c ∷ prefix) (b ∷ text) = (c == b) && starts_with prefix text

-- `text.find(part) != npos`
abbrev pub contains : List ℕ → List ℕ → Bool
contains part [] = starts_with part []
contains part (b ∷ text) = starts_with part (b ∷ text) || contains part text

-- `text.size() >= end.size()`, and the last bytes of `text` are `end`.
abbrev pub ends_with : List ℕ → List ℕ → Bool
ends_with end [] = [] =b= end
ends_with end (b ∷ text) = ((b ∷ text) =b= end) || ends_with end text

-- `is_alnum` in the C locale
abbrev pub is_alnum : ℕ → Bool
is_alnum c = (leb b'0' c && leb c b'9') || (leb b'A' c && leb c b'Z') || (leb b'a' c && leb c b'z')
