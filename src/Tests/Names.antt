-- ===== src/Tests/Names.antt =====
-- Version strings and names.
use bridge_sessions.Base.{
  map, ◌++◌, ℕ, ◌≤◌, ◌≡◌, refl, true, false, some, List, [], All, codes, length,
}
use bridge_sessions.Version.Parse.{VersionParts, parse_version_tag, version_core}
use bridge_sessions.Version.Order.{version_is_older, version_is_older_asym, version_is_older_trans}
use bridge_sessions.Names.{
  IsNormal, IsPlain, IsPart, bs_upgrade_tag_valid, bs_upgrade_tag_normalize,
  bs_upgrade_tag_normalize-valid, bs_peer_name_shell_safe, bs_peer_name_shell_safe-IsPlain,
  transfer_path_basename, transfer_path_basename-IsFolder, IsFolder, to_slash,
}

abbrev august : List ℕ
august = codes "2026.08.24-beta7"

abbrev september : List ℕ
september = codes "26.09.18+frm2"

abbrev later : List ℕ
later = codes "26.09.19-beta6"

abbrev parts : ℕ → ℕ → List ℕ → VersionParts
parts month day rest = record { year = 2026; month = month; day = day; rest = rest }

parse-august : parse_version_tag august ≡ some (parts 8 24 (codes "-beta7"))
unfolding parse_version_tag version_core
parse-august = refl

parse-september : parse_version_tag september ≡ some (parts 9 18 [])
unfolding parse_version_tag version_core
parse-september = refl

parse-later : parse_version_tag later ≡ some (parts 9 19 (codes "-beta6"))
unfolding parse_version_tag version_core
parse-later = refl

august_older : version_is_older august september ≡ true
unfolding version_is_older parse_version_tag version_core
august_older = refl

september_older : version_is_older september later ≡ true
unfolding version_is_older parse_version_tag version_core
september_older = refl

version_is_older_trans_example : version_is_older august later ≡ true
version_is_older_trans_example =
    version_is_older_trans august september later (parts 8 24 (codes "-beta7")) (parts 9 18 [])
      (parts 9 19 (codes "-beta6")) parse-august parse-september parse-later august_older
      september_older

version_is_older_asym_example : version_is_older september august ≡ false
version_is_older_asym_example = version_is_older_asym august september august_older

tag_valid : bs_upgrade_tag_valid (codes "v26.09.19-beta5") ≡ true
unfolding bs_upgrade_tag_valid
tag_valid = refl

bs_upgrade_tag_normalize-valid_example :
    IsNormal (codes "v26.09.19-beta5") (bs_upgrade_tag_normalize (codes "v26.09.19-beta5"))
    × (bs_upgrade_tag_valid (bs_upgrade_tag_normalize (codes "v26.09.19-beta5")) ≡ true)
    × All IsPlain (bs_upgrade_tag_normalize (codes "v26.09.19-beta5"))
bs_upgrade_tag_normalize-valid_example =
    bs_upgrade_tag_normalize-valid (codes "v26.09.19-beta5") tag_valid

name_safe : bs_peer_name_shell_safe (codes "lab-1") ≡ true
unfolding bs_peer_name_shell_safe
name_safe = refl

bs_peer_name_shell_safe-IsPlain_example :
    (1 ≤ length (codes "lab-1")) × (length (codes "lab-1") ≤ 128) × All IsPlain (codes "lab-1")
bs_peer_name_shell_safe-IsPlain_example = bs_peer_name_shell_safe-IsPlain (codes "lab-1") name_safe

transfer_path_basename-IsFolder_example :
    (folder : List ℕ) × (map to_slash (codes "a\\b.txt")
      ≡ folder ++ transfer_path_basename (codes "a\\b.txt"))
    × IsFolder folder
    × IsPart (transfer_path_basename (codes "a\\b.txt"))
transfer_path_basename-IsFolder_example = transfer_path_basename-IsFolder (codes "a\\b.txt")
