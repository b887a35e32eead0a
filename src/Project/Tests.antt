-- ===== src/Project/Tests.antt =====
-- `Detect` from a directory of a small tree, and the witness.
use pmmcp.Prelude.{◌≡◌, refl, Bool, ◌||◌, Option, none, some, arith}
use pmmcp.Prelude.Runes.{Runes, codes, eq_runes, has_prefix, contains}
use pmmcp.Path.{is_abs, words, clean, dir, dir_part, join, walk, push_word, split, slashed}
use pmmcp.Project.{has_marker, walk_up, key, detect}
use pmmcp.Project.Nearest.{root_of, detect-nearest}

-- /w/pmmcp.yaml and /w/app/.git
abbrev tree : Runes → Bool
tree p = eq_runes p (codes "/w/pmmcp.yaml") || eq_runes p (codes "/w/app/.git")

abbrev no_links : Runes → Option Runes
no_links p = none

abbrev inside : Runes
inside = codes "/w/app/src"

detects_config : detect tree no_links 5 inside ≡ some (codes "/w", codes "/w")
unfolding detect walk_up has_marker key clean dir dir_part join words walk push_word split slashed
    is_abs has_prefix contains eq_runes codes
detects_config = refl

detect-nearest_example :
    detect tree no_links 4 inside
    ≡ some (root_of tree no_links inside, key tree no_links (root_of tree no_links inside))
unfolding words walk push_word split is_abs has_prefix eq_runes codes
detect-nearest_example = detect-nearest tree no_links inside 4 refl (omega arith)
