-- ===== src/Version/Order.antt =====
-- `version_is_older`.
use bridge_sessions.Base.{
  ℕ, ◌≡◌, refl, sym, ◌∙◌, Bool, true, false, not, ◌&&◌, ◌||◌, Option, none, some, List, [], ◌∷◌,
  ◌=b=◌, ◌<b◌, arith, ltb, ◌==◌, if◌then◌else◌,
}
use bridge_sessions.Version.Parse.{VersionParts, version_core, parse_version_tag}

-- Two calendar versions: year, month, day, then the text behind them.
abbrev pub parts_older : VersionParts → VersionParts → Bool
parts_older r l =
    if not (r.year == l.year)
    then ltb r.year l.year
    else (if not (r.month == l.month)
        then ltb r.month l.month
        else (if not (r.day == l.day)
            then ltb r.day l.day
            else not (r.rest =b= l.rest) && (r.rest <b l.rest)))

-- Two texts of which one is no calendar version.
abbrev pub cores_older : List ℕ → List ℕ → Bool
cores_older rc lc = not ((rc =b= []) || (lc =b= []) || (rc =b= lc)) && (rc <b lc)

abbrev pub tags_older : Option VersionParts → Option VersionParts → List ℕ → List ℕ → Bool
tags_older (some r) (some l) rc lc = parts_older r l
tags_older (some r) none rc lc = cores_older rc lc
tags_older none l rc lc = cores_older rc lc

unfoldable pub version_is_older : List ℕ → List ℕ → Bool
version_is_older remote local =
    tags_older (parse_version_tag remote) (parse_version_tag local) (version_core remote)
      (version_core local)

<b_asym : (s t : List ℕ) → (s <b t) ≡ true → (t <b s) ≡ false
<b_asym [] [] e = refl
<b_asym [] (d ∷ t) e = refl
<b_asym (c ∷ s) [] e = ground arith
<b_asym (c ∷ s) (d ∷ t) e = ground (arith, <b_asym s t)

<b_trans : (s t u : List ℕ) → (s <b t) ≡ true → (t <b u) ≡ true → (s <b u) ≡ true
<b_trans s t [] e f = ground arith
<b_trans s [] (x ∷ u) e f = ground arith
<b_trans [] (d ∷ t) (x ∷ u) e f = refl
<b_trans (c ∷ s) (d ∷ t) (x ∷ u) e f = ground (arith, <b_trans s t u)

<b_ne : (s t : List ℕ) → (s <b t) ≡ true → (s =b= t) ≡ false
<b_ne s [] e = ground arith
<b_ne [] (d ∷ t) e = refl
<b_ne (c ∷ s) (d ∷ t) e = ground (arith, <b_ne s t)

parts_older_asym : (r l : VersionParts) → parts_older r l ≡ true → parts_older l r ≡ false
parts_older_asym r l e = ground (arith, <b_asym r.rest l.rest)

parts_older_trans :
    (a b c : VersionParts)
    → parts_older a b ≡ true
    → parts_older b c ≡ true
    → parts_older a c ≡ true
parts_older_trans a b c e f = ground (arith, <b_trans a.rest b.rest c.rest, <b_ne a.rest c.rest)

cores_older_asym : (s t : List ℕ) → cores_older s t ≡ true → cores_older t s ≡ false
cores_older_asym s t e = ground (arith, <b_asym s t)

tags_older_asym :
    (r l : Option VersionParts) (rc lc : List ℕ)
    → tags_older r l rc lc ≡ true
    → tags_older l r lc rc ≡ false
tags_older_asym (some r) (some l) rc lc e = parts_older_asym r l e
tags_older_asym (some r) none rc lc e = cores_older_asym rc lc e
tags_older_asym none (some l) rc lc e = cores_older_asym rc lc e
tags_older_asym none none rc lc e = cores_older_asym rc lc e

-- Of two versions at most one is older than the other, whether or not they are calendar versions.
pub version_is_older_asym :
    (remote local : List ℕ)
    → version_is_older remote local ≡ true
    → version_is_older local remote ≡ false
unfolding version_is_older
version_is_older_asym remote local e =
    tags_older_asym (parse_version_tag remote) (parse_version_tag local) (version_core remote)
      (version_core local) e

version_is_older-parts :
    (a b : List ℕ) (pa pb : VersionParts)
    → parse_version_tag a ≡ some pa
    → parse_version_tag b ≡ some pb
    → version_is_older a b ≡ parts_older pa pb
unfolding version_is_older
version_is_older-parts a b pa pb ea eb = rw ea (rw eb refl)

-- Between calendar versions "older" is transitive.
pub version_is_older_trans :
    (a b c : List ℕ) (pa pb pc : VersionParts)
    → parse_version_tag a ≡ some pa
    → parse_version_tag b ≡ some pb
    → parse_version_tag c ≡ some pc
    → version_is_older a b ≡ true
    → version_is_older b c ≡ true
    → version_is_older a c ≡ true
version_is_older_trans a b c pa pb pc ea eb ec e f =
    version_is_older-parts a c pa pc ea ec
    ∙ parts_older_trans pa pb pc (sym (version_is_older-parts a b pa pb ea eb) ∙ e)
        (sym (version_is_older-parts b c pb pc eb ec) ∙ f)
