-- ===== src/Secret/Resolve.antt =====
-- internal/secret/uri.go: the file that the path of a reference to a file stands for. Project roots
-- are rooted paths; `eval_symlinks` resolves the links of a path that is there.
use pmmcp.Prelude.{Bool, not, ◌&&◌, Option, none, some, List, [], ◌∷◌, ◌++◌, if◌then◌else◌}
use pmmcp.Prelude.Runes.{Runes, codes, eq_runes, has_prefix, is_empty, trim_space}
use pmmcp.Prelude.Result.{Result, ok, err}
use pmmcp.Path.{is_abs, words, clean, join}
use pmmcp.Path.Parent.{dir_of}
use mathlib.Core.List.{reverse}

pub data PathError : Type 0 where
  empty_path relative_needs_root needs_root outside_root : PathError

-- `ResolveOptions` without the keyring.
pub record PathOptions : Type 0 where
  pub project_root : Runes
  pub allow_file_outside_project : Bool

module _ (eval_symlinks : Runes → Option Runes) where
  -- `evalExisting` of the rooted path with the given elements, the deepest first: its parent has all
  -- but the first of them.
  unfoldable pub eval_elements : List Runes → Runes
  eval_elements [] = elim (eval_symlinks (dir_of [])) [ some r ↦ r | none ↦ dir_of [] ]
  eval_elements (u ∷ us) =
      let parent = eval_elements us in
      elim (eval_symlinks (dir_of (u ∷ us))) [ some r ↦ r | none ↦ join parent u ]

  unfoldable pub eval_existing : Runes → Runes
  eval_existing p = eval_elements (reverse (words p))

  unfoldable pub resolved_root : PathOptions → Runes
  resolved_root o = elim (eval_symlinks (clean o.project_root)) [
    | some r ↦ r
    | none ↦ clean o.project_root
  ]

  abbrev pub placed : PathOptions → Runes → Runes
  placed o p = clean (if is_abs p then p else join o.project_root p)

  unfoldable pub resolve_path : Runes → PathOptions → Result PathError Runes
  resolve_path raw o =
      let p = trim_space raw in
      let cand = eval_existing (placed o p) in
      let root = resolved_root o in
      if is_empty p
      then err empty_path
      else if not (is_abs p) && is_empty o.project_root
      then err relative_needs_root
      else if o.allow_file_outside_project
      then ok (placed o p)
      else if is_empty o.project_root
      then err needs_root
      else if not (eq_runes cand root) && not (has_prefix cand (root ++ codes "/"))
      then err outside_root
      else ok (placed o p)
