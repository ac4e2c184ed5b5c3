-- ===== src/Version/Parse.antt =====
-- `version_has_cap`, `version_core` and `parse_version_tag`.
use bridge_sessions.Base.{
  ℕ, zero, suc, ◌+◌, ◌*◌, ◌-◌, Bool, false, not, ◌&&◌, ◌||◌, Option, none, some, List, [], ◌∷◌,
  ◌=b=◌, length, ltb, leb, ◌==◌, if◌then◌else◌,
}

-- The text before the first `+`, and the one behind it, if there is a `+`.
abbrev pub before_plus : List ℕ → List ℕ
before_plus [] = []
before_plus (c ∷ s) = if c == b'+' then [] else c ∷ before_plus s

abbrev pub behind_plus : List ℕ → Option (List ℕ)
behind_plus [] = none
behind_plus (c ∷ s) = if c == b'+' then some s else behind_plus s

abbrev pub has_tag : ℕ → List ℕ → List ℕ → Bool
has_tag zero rest cap = false
has_tag (suc fuel) [] cap = false
has_tag (suc fuel) (c ∷ rest) cap =
    (before_plus (c ∷ rest) =b= cap)
    || elim (behind_plus (c ∷ rest)) [ none ↦ false | some next ↦ has_tag fuel next cap ]

unfoldable pub version_has_cap : List ℕ → List ℕ → Bool
version_has_cap version cap = elim (behind_plus version) [
  | none ↦ false
  | some rest ↦ not (cap =b= []) && has_tag (suc (length rest)) rest cap
]

unfoldable pub version_core : List ℕ → List ℕ
version_core v = before_plus v

pub record VersionParts : Type 0 where
  pub year : ℕ
  pub month : ℕ
  pub day : ℕ
  pub rest : List ℕ

abbrev pub is_digit : ℕ → Bool
is_digit c = leb b'0' c && leb c b'9'

-- At most `most` digits: their value, how many they are, and the text behind them.
pub record Digits : Type 0 where
  pub value : ℕ
  pub count : ℕ
  pub behind : List ℕ

abbrev pub read_digits : ℕ → ℕ → ℕ → List ℕ → Digits
read_digits zero value count s = record { value = value; count = count; behind = s }
read_digits (suc most) value count [] = record { value = value; count = count; behind = [] }
read_digits (suc most) value count (c ∷ s) =
    if is_digit c
    then read_digits most (value * 10 + (c - b'0')) (suc count) s
    else record { value = value; count = count; behind = c ∷ s }

-- The text behind a `.`, which has to be there.
abbrev pub behind_dot : List ℕ → Option (List ℕ)
behind_dot [] = none
behind_dot (c ∷ s) = if c == b'.' then some s else none

abbrev pub finish_tag : ℕ → ℕ → Digits → Option VersionParts
finish_tag year month day =
    if (day.count == 0) || ltb month 1 || ltb 12 month || ltb day.value 1 || ltb 31 day.value
    then none
    else some (record { year = year; month = month; day = day.value; rest = day.behind })

abbrev pub read_month : ℕ → List ℕ → Option VersionParts
read_month year s =
    let month = read_digits 2 0 0 s in
    if month.count == 0 then none else elim (behind_dot month.behind) [
      | none ↦ none
      | some t ↦ finish_tag year month.value (read_digits 2 0 0 t)
    ]

-- `none` is a `VersionParts` whose `ok` is false.
unfoldable pub parse_version_tag : List ℕ → Option VersionParts
parse_version_tag raw =
    let year = read_digits 4 0 0 (version_core raw) in
    if (year.count == 0) || (year.count == 3) then none else elim (behind_dot year.behind) [
      | none ↦ none
      | some t ↦ read_month (if year.count == 2 then year.value + 2000 else year.value) t
    ]
