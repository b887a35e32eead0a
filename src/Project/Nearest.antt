-- ===== src/Project/Nearest.antt =====
-- The walks of `Detect` (project.go of internal/project) end, and find the nearest marked directory.
use pmmcp.Prelude.{
  ℕ, zero, suc, ◌<◌, ◌≡◌, refl, sym, ap, ◌∙◌, inl, inr, Bool, true, Option, none, some, List, [],
  ◌∷◌, arith, if◌then◌else◌, Bool-cases, Option-cases, length, length-append,
}
use pmmcp.Prelude.Runes.{Runes, eq_runes, eq_runes_iff}
use pmmcp.Path.{is_abs, words, absolute, clean, dir}
use pmmcp.Path.Words.{all_plain, all_plain-reverse, reverse-cons, words-plain, clean_abs}
use pmmcp.Path.Parent.{dir_of, dir-dir_of, dir-root, dir_of-shrinks}
use pmmcp.Project.{config_markers, vcs_markers, has_marker, walk_up, key, detect}
use mathlib.Core.List.{reverse, reverse-reverse}

-- The first directory that passes a test, of one given by its elements, the deepest first, and those
-- above it.
abbrev pub nearest : (Runes → Bool) → List Runes → Option Runes
nearest p [] = if p (dir_of []) then some (dir_of []) else none
nearest p (u ∷ us) =
    let rest = nearest p us in if p (dir_of (u ∷ us)) then some (dir_of (u ∷ us)) else rest

length-reverse : (xs : List Runes) → length (reverse xs) ≡ length xs
length-reverse [] = refl
length-reverse (x ∷ xs) =
    omega
      (arith, ap length (reverse-cons x xs), length-append (reverse xs) (x ∷ []), length-reverse xs)

module _ (lstat : Runes → Bool) (eval_symlinks : Runes → Option Runes) where
  walk_up-nearest :
      (us : List Runes) (fuel : ℕ) (markers : List Runes)
      → all_plain us ≡ true
      → length us < fuel
      → walk_up lstat eval_symlinks fuel (dir_of us) markers
        ≡ some (nearest (λ d. has_marker lstat eval_symlinks d markers) us)
  unfolding walk_up all_plain
  walk_up-nearest us zero markers h f = absurd (omega arith)
  walk_up-nearest [] (suc fuel) markers h f =
      let top : eq_runes (dir (dir_of [])) (dir_of []) ≡ true =
        (eq_runes_iff (dir (dir_of [])) (dir_of [])).1 dir-root in
      elim (Bool-cases (has_marker lstat eval_symlinks (dir_of []) markers)) [
        | inl y ↦ rw y refl
        | inr n ↦ rw (n, top) refl
      ]
  walk_up-nearest (u ∷ us) (suc fuel) markers h f =
      let at = dir_of (u ∷ us) in
      let rest = walk_up-nearest us fuel markers (ground arith) (omega arith) in
      elim (Bool-cases (has_marker lstat eval_symlinks at markers)) [
        | inl y ↦ rw y refl
        | inr n ↦ rw (n, dir-dir_of u us h, dir_of-shrinks u us h) rest
      ]

  -- The nearest directory at or above one with a config marker; without one, the nearest with a VCS
  -- marker; and the directory itself when there is none.
  abbrev pub root_of : Runes → Runes
  root_of cwd = first (found config_markers) (first (found vcs_markers) (clean cwd))
    where
      first : Option Runes → Runes → Runes
      first (some d) other = d
      first none other = other

      found : List Runes → Option Runes
      found markers = nearest (λ d. has_marker lstat eval_symlinks d markers) (reverse (words cwd))

  -- `Detect` from a rooted directory, with fuel for one more step than the directory has elements,
  -- returns a root and its key. The root is the nearest directory at or above it with a config marker,
  -- whatever VCS markers are below that; without one, the nearest with a VCS marker; and the directory
  -- itself when there is none.
  pub detect-nearest :
      (cwd : Runes) (fuel : ℕ)
      → is_abs cwd ≡ true
      → length (words cwd) < fuel
      → detect lstat eval_symlinks fuel cwd
        ≡ some (root_of cwd, key lstat eval_symlinks (root_of cwd))
  unfolding detect
  detect-nearest cwd fuel h f =
      let up = reverse (words cwd) in
      let at : clean cwd ≡ dir_of up =
        clean_abs cwd h ∙ ap absolute (sym (reverse-reverse (words cwd))) in
      let plain : all_plain up ≡ true = all_plain-reverse (words cwd) ∙ words-plain cwd h in
      let short : length up < fuel = omega (arith, length-reverse (words cwd), f) in
      let walked : (markers : List Runes)
          → walk_up lstat eval_symlinks fuel (clean cwd) markers
            ≡ some (nearest (λ d. has_marker lstat eval_symlinks d markers) up) =
        λ markers.
          (λ i. walk_up lstat eval_symlinks fuel (at i) markers)
          ∙ walk_up-nearest up fuel markers plain short in
      let config = nearest (λ d. has_marker lstat eval_symlinks d config_markers) up in
      let vcs = nearest (λ d. has_marker lstat eval_symlinks d vcs_markers) up in
      elim (Option-cases config) [
        | inr (d, c) ↦ rw (detect, walked config_markers, c) refl
        | inl c ↦ elim (Option-cases vcs) [
          | inr (d, v) ↦ rw (detect, walked config_markers, c, walked vcs_markers, v) refl
          | inl v ↦ rw (detect, walked config_markers, c, walked vcs_markers, v) refl
        ]
      ]
