-- ===== src/Names.antt =====
-- Names that reach a shell or a file system: the checks at the top of bs-codec.h.
use bridge_sessions.Base.{
  ap, ◌∙◌, ==_iff, ℕ, ◌≤◌, ◌<◌, ◌≡◌, ◌≢◌, refl, sym, subst, =b=_eq, inl, inr, Bool, true, false,
  not, ◌&&◌, ◌||◌, Bool-cases, List, [], ◌∷◌, All, ◌++◌, map, ◌++◌, codes, ◌=b=◌, arith, length,
  ltb, leb, ◌==◌, if◌then◌else◌,
}

-- Letters, digits, `.`, `-` and `_`.
abbrev pub is_tag_char : ℕ → Bool
is_tag_char c =
    (leb b'a' c && leb c b'z')
    || (leb b'A' c && leb c b'Z')
    || (leb b'0' c && leb c b'9')
    || (c == b'.')
    || (c == b'-')
    || (c == b'_')

abbrev pub all_tag_chars : List ℕ → Bool
all_tag_chars [] = true
all_tag_chars (c ∷ s) = is_tag_char c && all_tag_chars s

unfoldable pub bs_upgrade_tag_valid : List ℕ → Bool
bs_upgrade_tag_valid tag = (tag =b= codes "latest") || (not (tag =b= []) && all_tag_chars tag)

abbrev pub without_v : List ℕ → List ℕ
without_v [] = []
without_v (c ∷ []) = c ∷ []
without_v (c ∷ d ∷ s) = if c == b'v' then d ∷ s else c ∷ d ∷ s

unfoldable pub bs_upgrade_tag_normalize : List ℕ → List ℕ
bs_upgrade_tag_normalize tag = if not (tag =b= codes "latest") then without_v tag else tag

unfoldable pub bs_peer_name_shell_safe : List ℕ → Bool
bs_peer_name_shell_safe name = not ((name =b= []) || ltb 128 (length name)) && all_tag_chars name

-- What a shell gives a meaning to, quoted or not, and what separates the parts of a path, a host or an
-- assignment.
abbrev pub shell_special : List ℕ
shell_special = codes "|&;<>()$`\\\"' *?[]#~=%!{}^/,:@+"

-- A printable byte of ASCII without a meaning to a shell.
abbrev pub IsPlain : ℕ → Type 0
IsPlain c = All (λ m. c ≢ m) shell_special × (33 ≤ c) × (c < 127)

and-inv : (a b : Bool) → (a && b) ≡ true → (a ≡ true) × (b ≡ true)
and-inv true b e = (refl, e)
and-inv false b e = ground arith

not_both : (b : Bool) → b ≡ true → not b ≡ true → ⊥
not_both true e n = ground arith
not_both false e n = ground arith

-- No byte of the list is let through.
abbrev none_let : List ℕ → Bool
none_let [] = true
none_let (m ∷ ms) = not (is_tag_char m) && none_let ms

apart_from : (c : ℕ) (ms : List ℕ) → is_tag_char c ≡ true → none_let ms ≡ true → All (λ m. c ≢ m) ms
apart_from c [] e kept = tt
apart_from c (m ∷ ms) e kept =
    let both = and-inv (not (is_tag_char m)) (none_let ms) kept in
    (λ z. not_both (is_tag_char m) (sym (ap is_tag_char z) ∙ e) both.0, apart_from c ms e both.1)

is_tag_char-IsPlain : (c : ℕ) → is_tag_char c ≡ true → IsPlain c
is_tag_char-IsPlain c e = (apart_from c shell_special e refl, ground arith, ground arith)

all_tag_chars-inv :
    (c : ℕ) (s : List ℕ)
    → all_tag_chars (c ∷ s) ≡ true
    → (is_tag_char c ≡ true) × (all_tag_chars s ≡ true)
all_tag_chars-inv c s e = and-inv (is_tag_char c) (all_tag_chars s) e

all_tag_chars-IsPlain : (s : List ℕ) → all_tag_chars s ≡ true → All IsPlain s
all_tag_chars-IsPlain [] e = tt
all_tag_chars-IsPlain (c ∷ s) e =
    let both = all_tag_chars-inv c s e in
    (is_tag_char-IsPlain c both.0, all_tag_chars-IsPlain s both.1)

latest-all_tag_chars : (tag : List ℕ) → bs_upgrade_tag_valid tag ≡ true → all_tag_chars tag ≡ true
unfolding bs_upgrade_tag_valid
latest-all_tag_chars tag e = elim (Bool-cases (tag =b= codes "latest")) [
  | inl same ↦ subst (λ x. all_tag_chars x ≡ true) (sym (=b=_eq tag (codes "latest") same)) refl
  | inr other ↦ ground arith
]

valid-IsPlain : (tag : List ℕ) → bs_upgrade_tag_valid tag ≡ true → All IsPlain tag
valid-IsPlain tag e = all_tag_chars-IsPlain tag (latest-all_tag_chars tag e)

valid_chars :
    (c : ℕ) (s : List ℕ) → all_tag_chars (c ∷ s) ≡ true → bs_upgrade_tag_valid (c ∷ s) ≡ true
unfolding bs_upgrade_tag_valid
valid_chars c s e = elim (Bool-cases ((c ∷ s) =b= codes "latest")) [
  | inl same ↦ ground arith
  | inr other ↦ ground arith
]

without_v-valid :
    (tag : List ℕ) → bs_upgrade_tag_valid tag ≡ true → bs_upgrade_tag_valid (without_v tag) ≡ true
without_v-valid [] e = e
without_v-valid (c ∷ []) e = e
without_v-valid (c ∷ d ∷ s) e = elim (Bool-cases (c == b'v')) [
  | inl same ↦
      rw same (valid_chars d s (all_tag_chars-inv c (d ∷ s) (latest-all_tag_chars (c ∷ d ∷ s) e)).1)
  | inr other ↦ rw other e
]

-- A tag and the tag without its `v`, if there is more behind it.
pub data IsNormal : List ℕ → List ℕ → Type 0 where
  cut : (c : ℕ) (s : List ℕ) → IsNormal (b'v' ∷ c ∷ s) (c ∷ s)
  kept : (tag : List ℕ) → ((c : ℕ) (s : List ℕ) → tag ≢ b'v' ∷ c ∷ s) → IsNormal tag tag

without_v-IsNormal : (tag : List ℕ) → IsNormal tag (without_v tag)
without_v-IsNormal [] = kept [] (λ c s e. cc)
without_v-IsNormal (c ∷ []) = kept (c ∷ []) (λ d s e. cc)
without_v-IsNormal (c ∷ d ∷ s) = elim (Bool-cases (c == b'v')) [
  | inl same ↦ rw same (
      subst (λ x. IsNormal (x ∷ d ∷ s) (d ∷ s)) (sym (omega (arith, (==_iff c b'v').0 same)))
        (cut d s))
  | inr other ↦ rw other (kept (c ∷ d ∷ s) (λ e t z. let same : c ≡ b'v' = cc in ground arith))
]

abbrev starts_v : List ℕ → Bool
starts_v [] = false
starts_v (c ∷ s) = c == b'v'

latest-IsNormal : (tag : List ℕ) → tag ≡ codes "latest" → IsNormal tag tag
latest-IsNormal tag same =
    subst (λ t. IsNormal t t) (sym same)
      (kept (codes "latest") (λ c s e. let none : false ≡ true = ap starts_v e in ground arith))

-- A tag that passes the check still passes it without its `v`, which is cut off just when there is one
-- with more behind it, and holds only printable characters that have no meaning to a shell.
pub bs_upgrade_tag_normalize-valid :
    (tag : List ℕ)
    → bs_upgrade_tag_valid tag ≡ true
    → IsNormal tag (bs_upgrade_tag_normalize tag)
      × (bs_upgrade_tag_valid (bs_upgrade_tag_normalize tag) ≡ true)
      × All IsPlain (bs_upgrade_tag_normalize tag)
unfolding bs_upgrade_tag_normalize
bs_upgrade_tag_normalize-valid tag e = elim (Bool-cases (tag =b= codes "latest")) [
  | inr other ↦ rw other (
    without_v-IsNormal tag,
    without_v-valid tag e,
    valid-IsPlain (without_v tag) (without_v-valid tag e),
  )
  | inl same ↦
      rw same (latest-IsNormal tag (=b=_eq tag (codes "latest") same), e, valid-IsPlain tag e)
]

-- A peer's name that passes the check has 1 to 128 bytes, and holds only printable
-- characters that have no meaning to a shell.
pub bs_peer_name_shell_safe-IsPlain :
    (name : List ℕ)
    → bs_peer_name_shell_safe name ≡ true
    → (1 ≤ length name) × (length name ≤ 128) × All IsPlain name
unfolding bs_peer_name_shell_safe
bs_peer_name_shell_safe-IsPlain [] e = ground arith
bs_peer_name_shell_safe-IsPlain (c ∷ s) e =
    let both = and-inv (not (ltb 128 (length (c ∷ s)))) (all_tag_chars (c ∷ s)) e in
    (omega arith, ground arith, all_tag_chars-IsPlain (c ∷ s) both.1)

-- `transfer_path_basename`: backslashes count as slashes.
abbrev pub to_slash : ℕ → ℕ
to_slash c = if c == b'\\' then b'/' else c

abbrev pub has_slash : List ℕ → Bool
has_slash [] = false
has_slash (c ∷ s) = (c == b'/') || has_slash s

abbrev pub behind_last_slash : List ℕ → List ℕ
behind_last_slash [] = []
behind_last_slash (c ∷ s) =
    let rest = behind_last_slash s in if has_slash s then rest else (if c == b'/' then s else c ∷ s)

unfoldable pub transfer_path_basename : List ℕ → List ℕ
transfer_path_basename path = behind_last_slash (map to_slash path)

behind_last_slash-none : (s : List ℕ) → has_slash (behind_last_slash s) ≡ false
behind_last_slash-none [] = refl
behind_last_slash-none (c ∷ s) = ground (arith, behind_last_slash-none s)

has_slash-none : (s : List ℕ) → has_slash s ≡ false → All (λ c. c ≢ b'/') s
has_slash-none [] e = tt
has_slash-none (c ∷ s) e = (λ z. ground arith, has_slash-none s (ground arith))

-- A text that ends in a slash, or none at all.
pub data IsFolder : List ℕ → Type 0 where
  nothing : IsFolder []
  ends : (s : List ℕ) → IsFolder (s ++ (b'/' ∷ []))

IsFolder-cons : (c : ℕ) (s : List ℕ) → IsFolder s → s ≢ [] → IsFolder (c ∷ s)
IsFolder-cons c [] nothing ne = absurd (ne refl)
IsFolder-cons c s (ends t) ne = ends (c ∷ t)

record IsCut (s : List ℕ) : Type 0 where
  folder : List ℕ
  whole : s ≡ folder ++ behind_last_slash s
  slash : IsFolder folder

folder_of_slash :
    (s folder : List ℕ) → has_slash s ≡ true → s ≡ folder ++ behind_last_slash s → folder ≢ []
folder_of_slash s [] more whole z =
    let kept : has_slash s ≡ false = ap has_slash whole ∙ behind_last_slash-none s in ground arith
folder_of_slash s (c ∷ folder) more whole z = cc

behind_last_slash-IsCut : (s : List ℕ) → IsCut s
behind_last_slash-IsCut [] = record { folder = []; whole = refl; slash = nothing }
behind_last_slash-IsCut (c ∷ s) =
    let ih = behind_last_slash-IsCut s in
    elim (Bool-cases (has_slash s)) [
      | inl more ↦ record {
        folder = c ∷ ih.folder;
        whole = rw more (ap (λ t. c ∷ t) ih.whole);
        slash = IsFolder-cons c ih.folder ih.slash (folder_of_slash s ih.folder more ih.whole);
      }
      | inr last ↦ elim (Bool-cases (c == b'/')) [
        | inl here ↦ record {
          folder = b'/' ∷ [];
          whole = rw last (rw here (ap (λ x. x ∷ s) (omega (arith, (==_iff c b'/').0 here))));
          slash = ends [];
        }
        | inr none ↦ record { folder = []; whole = rw last (rw none refl); slash = nothing }
      ]
    ]

-- Neither kind of slash.
abbrev pub IsPart : List ℕ → Type 0
IsPart s = All (λ c. (c ≢ b'/') × (c ≢ b'\\')) s

to_slash-backslash : (c : ℕ) → to_slash c ≢ b'\\'
to_slash-backslash c z = elim (Bool-cases (c == b'\\')) [
  | inl back ↦ ground arith
  | inr other ↦ ground arith
]

no_backslash : (path : List ℕ) → All (λ c. c ≢ b'\\') (map to_slash path)
no_backslash [] = tt
no_backslash (c ∷ path) = (to_slash-backslash c, no_backslash path)

behind_last_slash-All : (P : ℕ → Type 0) (s : List ℕ) → All P s → All P (behind_last_slash s)
behind_last_slash-All P [] h = tt
behind_last_slash-All P (c ∷ s) h = elim (Bool-cases (has_slash s)) [
  | inl more ↦ rw more (behind_last_slash-All P s h.1)
  | inr last ↦ elim (Bool-cases (c == b'/')) [
    | inl here ↦ rw (last, here) h.1
    | inr none ↦ rw (last, none) h
  ]
]

both_slashes : (s : List ℕ) → All (λ c. c ≢ b'/') s → All (λ c. c ≢ b'\\') s → IsPart s
both_slashes [] f b = tt
both_slashes (c ∷ s) f b = ((f.0, b.0), both_slashes s f.1 b.1)

-- A path, with `/` for each backslash, is a folder's part, which is empty or ends in a slash, and then
-- what `transfer_path_basename` leaves, which holds no slash and no backslash.
pub transfer_path_basename-IsFolder :
    (path : List ℕ)
    → (folder : List ℕ) × (map to_slash path ≡ folder ++ transfer_path_basename path)
      × IsFolder folder
      × IsPart (transfer_path_basename path)
unfolding transfer_path_basename
transfer_path_basename-IsFolder path =
    let cut = behind_last_slash-IsCut (map to_slash path) in
    (
      cut.folder,
      cut.whole,
      cut.slash,
      both_slashes (transfer_path_basename path)
          (has_slash-none (transfer_path_basename path)
            (behind_last_slash-none (map to_slash path)))
          (behind_last_slash-All _ (map to_slash path) (no_backslash path)),
    )
