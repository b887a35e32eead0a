-- ===== src/Project.antt =====
-- internal/project/project.go: the root of the project that a directory belongs to. `lstat` tells
-- whether a path is there and `eval_symlinks` resolves the links of one; the context of a call is
-- taken to stay open.
mod Nearest
mod Tests
use pmmcp.Prelude.{
  ℕ, zero, suc, Bool, true, false, Option, none, some, List, [], ◌∷◌, if◌then◌else◌,
}
use pmmcp.Prelude.Runes.{Runes, codes, eq_runes, is_empty}
use pmmcp.Path.{clean, join, dir}

abbrev pub config_markers : List Runes
config_markers = codes "pmmcp.yaml" ∷ codes "pmmcp.yml" ∷ []

abbrev pub vcs_markers : List Runes
vcs_markers = codes ".git" ∷ []

module _ (lstat : Runes → Bool) (eval_symlinks : Runes → Option Runes) where
  unfoldable pub has_marker : Runes → List Runes → Bool
  has_marker dir [] = false
  has_marker dir (name ∷ names) = if lstat (join dir name) then true else has_marker dir names

  -- `walkUp`: the directory that was found, if any; none when the fuel is out.
  unfoldable pub walk_up : ℕ → Runes → List Runes → Option (Option Runes)
  walk_up zero at markers = none
  walk_up (suc fuel) at markers =
      let parent = dir at in
      let rest = walk_up fuel parent markers in
      if has_marker at markers
      then some (some at)
      else if eq_runes parent at
      then some none
      else rest

  -- `Key` of a rooted path.
  unfoldable pub key : Runes → Runes
  key root = elim (eval_symlinks (clean root)) [
    | none ↦ clean root
    | some resolved ↦ if is_empty resolved then clean root else clean resolved
  ]

  -- `Detect` from a rooted directory: the root and its key.
  unfoldable pub detect : ℕ → Runes → Option (Runes × Runes)
  detect fuel cwd = elim (walk_up fuel (clean cwd) config_markers) [
    | none ↦ none
    | some (some d) ↦ some (d, key d)
    | some none ↦ elim (walk_up fuel (clean cwd) vcs_markers) [
      | none ↦ none
      | some (some d) ↦ some (d, key d)
      | some none ↦ some (clean cwd, key (clean cwd))
    ]
  ]
