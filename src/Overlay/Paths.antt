-- ===== src/Overlay/Paths.antt =====
-- Path tests of internal/overlayfs: `fs.ValidPath` as the overlay uses it, and `hasGitComponent`.
-- A path is its bytes.
use blogflow.Base.{
  ℕ, zero, suc, Bool, true, false, ◌&&◌, ◌||◌, not, [], ◌∷◌, ltb, leb, if◌then◌else◌, nat_eq,
  list_eq, ◌==◌, any, all, map, Option, none, some,
}
use blogflow.Base.Text.{Text, codes, is_empty, split, to_lower_ascii}

abbrev in_range : ℕ → ℕ → ℕ → Bool
in_range lo hi c = leb lo c && leb c hi

-- The table of leading bytes: how many bytes follow, and the range of the next one.
lead : ℕ → Option (ℕ × ℕ × ℕ)
lead c =
    if ltb c 0x80
    then some (0, 0, 0)
    else if in_range 0xc2 0xdf c
    then some (1, 0x80, 0xbf)
    else if c == 0xe0
    then some (2, 0xa0, 0xbf)
    else if c == 0xed
    then some (2, 0x80, 0x9f)
    else if in_range 0xe1 0xef c
    then some (2, 0x80, 0xbf)
    else if c == 0xf0
    then some (3, 0x90, 0xbf)
    else if in_range 0xf1 0xf3 c
    then some (3, 0x80, 0xbf)
    else if c == 0xf4
    then some (3, 0x80, 0x8f)
    else none

-- `need` bytes are still to come, the next one in the given range.
utf8_from : ℕ → ℕ → ℕ → Text → Bool
utf8_from zero lo hi [] = true
utf8_from (suc need) lo hi [] = false
utf8_from (suc need) lo hi (c ∷ s) = in_range lo hi c && utf8_from need 0x80 0xbf s
utf8_from zero lo hi (c ∷ s) = elim (lead c) [
  | none ↦ false
  | some (need, lo', hi') ↦ utf8_from need lo' hi' s
]

-- `utf8.ValidString`
utf8_valid : Text → Bool
unfolding utf8_from lead
utf8_valid s = utf8_from 0 0 0 s

pub valid_element : Text → Bool
valid_element e = not (is_empty e) && not (e == codes ".") && not (e == codes "..")

-- `fs.ValidPath`: the root ".", or elements between slashes, none of them "", "." or "..".
unfoldable pub valid_path : Text → Bool
unfolding utf8_valid valid_element
valid_path name = utf8_valid name && (name == codes "." || all valid_element (split name b'/'))

-- `strings.EqualFold(s, ".git")`. No code point outside ASCII folds to one of these letters.
unfoldable pub is_git : Text → Bool
is_git s = map to_lower_ascii s == codes ".git"

unfoldable pub has_git_component : Text → Bool
unfolding is_git
has_git_component name = any is_git (split name b'/')
