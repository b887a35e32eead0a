-- ===== src/Secret/Inside.antt =====
-- Which files a reference to a secret can stand for (uri.go of internal/secret).
use pmmcp.Prelude.{
  ◌≡◌, refl, sym, ap, ◌∙◌, ◌≢◌, ◌↔◌, inl, inr, true, false, ◌||◌, Option, none, some, List, [], ◌∷◌,
  ◌++◌, arith, Bool-cases, Option-cases,
}
use pmmcp.Prelude.Runes.{Runes, codes, eq_runes, eq_runes_iff, has_prefix, is_empty, trim_space}
use pmmcp.Prelude.Result.{ok}
use pmmcp.Path.{is_abs, words, split, walk, push_word, slashed, absolute, clean, join}
use pmmcp.Path.Words.{words-plain, clean_abs, clean-clean, is_abs-clean, is_abs-full, is_abs-append}
use pmmcp.Path.Parent.{dir_of}
use pmmcp.Path.Under.{StartsWith}
use pmmcp.Sandbox.Contained.{below-StartsWith, StartsWith-below}
use pmmcp.Secret.Resolve.{
  PathOptions, eval_elements, eval_existing, resolved_root, placed, resolve_path,
}
use mathlib.Core.List.{reverse, append-nil}

-- What the resolver of links returns is a clean rooted path.
abbrev pub IsClean : Runes → Type 0
IsClean s = (is_abs s ≡ true) × (clean s ≡ s)

abbrev pub CleanLinks : (Runes → Option Runes) → Type 0
CleanLinks eval_symlinks = (s r : Runes) → eval_symlinks s ≡ some r → IsClean r

IsClean-absolute : (s : Runes) → IsClean s → s ≡ absolute (words s)
IsClean-absolute s (rooted, same) = sym same ∙ clean_abs s rooted

absolute-slashed : (qs : List Runes) → qs ≢ [] → absolute qs ≡ slashed qs
absolute-slashed [] h = absurd (h refl)
absolute-slashed (q ∷ qs) h = refl

-- The test of two clean rooted paths, the second not the top directory.
inside_iff :
    (cand root : Runes)
    → IsClean cand
    → IsClean root
    → words root ≢ []
    → ((eq_runes cand root || has_prefix cand (root ++ codes "/")) ≡ true)
      ↔ StartsWith (words cand) (words root)
inside_iff cand root c r below =
    let ps = words cand in
    let qs = words root in
    let cand_is = IsClean-absolute cand c in
    let root_is = IsClean-absolute root r in
    let prefix_is : has_prefix cand (root ++ codes "/")
        ≡ has_prefix (absolute ps) (slashed qs ++ codes "/") =
      λ i. has_prefix (cand_is i) ((root_is ∙ absolute-slashed qs below) i ++ codes "/") in
    (
      (λ h. elim (Bool-cases (eq_runes cand root)) [
        | inl same ↦ ([], ap words ((eq_runes_iff cand root).0 same) ∙ sym (append-nil qs))
        | inr other ↦
            below-StartsWith ps qs (words-plain cand c.0) (words-plain root r.0)
              (sym prefix_is ∙ ground (arith, h, other))
      ]),
      (λ w. elim (StartsWith-below ps qs w) [
        | inl same ↦
            ground (arith, (eq_runes_iff cand root).1 (cand_is ∙ ap absolute same ∙ sym root_is))
        | inr found ↦ ground (arith, prefix_is ∙ found)
      ]),
    )

IsClean-clean : (s : Runes) → is_abs s ≡ true → IsClean (clean s)
IsClean-clean s h = (is_abs-clean s h, clean-clean s h)

IsClean-join : (dir name : Runes) → is_abs dir ≡ true → IsClean (join dir name)
IsClean-join dir name h = elim (Bool-cases (is_empty name)) [
  | inl y ↦ unfold join in rw (is_abs-full dir h, y) (IsClean-clean dir h)
  | inr n ↦
      unfold join in
      rw (is_abs-full dir h, n)
        (IsClean-clean (dir ++ b'/' ∷ name) (is_abs-append dir (b'/' ∷ name) h))
]

module _ (eval_symlinks : Runes → Option Runes) (links : CleanLinks eval_symlinks) where
  -- A path with its links resolved, or what stands for it if it is not there, is clean and rooted.
  or_else :
      (s other : Runes)
      → IsClean other
      → IsClean (elim (eval_symlinks s) [ some r ↦ r | none ↦ other ])
  or_else s other h = elim (Option-cases (eval_symlinks s)) [
    | inl e ↦ rw e h
    | inr (r, e) ↦ rw e (links s r e)
  ]

  top-IsClean : IsClean (dir_of [])
  top-IsClean = unfold is_abs has_prefix codes clean words walk push_word split in (refl, refl)

  eval_elements-IsClean : (us : List Runes) → IsClean (eval_elements eval_symlinks us)
  unfolding eval_elements
  eval_elements-IsClean [] = or_else (dir_of []) (dir_of []) top-IsClean
  eval_elements-IsClean (u ∷ us) =
      or_else (dir_of (u ∷ us)) (join (eval_elements eval_symlinks us) u)
        (IsClean-join (eval_elements eval_symlinks us) u (eval_elements-IsClean us).0)

  -- A path that is not blank, under a rooted project root that is not the top directory when its links
  -- are resolved, and without leave for files outside the project, is accepted exactly when its
  -- elements, with its links and its current and parent directories resolved, begin with those of the
  -- project root with its links resolved. It takes that the resolver of links returns clean rooted
  -- paths.
  pub resolve_path_iff :
      (raw : Runes) (o : PathOptions)
      → is_empty (trim_space raw) ≡ false
      → o.allow_file_outside_project ≡ false
      → is_abs o.project_root ≡ true
      → words (resolved_root eval_symlinks o) ≢ []
      → let path = placed eval_symlinks o (trim_space raw) in
        (resolve_path eval_symlinks raw o ≡ ok path)
        ↔ StartsWith
            (words (eval_existing eval_symlinks path))
            (words (resolved_root eval_symlinks o))
  unfolding resolve_path eval_existing resolved_root
  resolve_path_iff raw o full strict rooted below =
      let p = trim_space raw in
      let cand = eval_existing eval_symlinks (placed eval_symlinks o p) in
      let root = resolved_root eval_symlinks o in
      let root_is =
        or_else (clean o.project_root) (clean o.project_root)
          (IsClean-clean o.project_root rooted) in
      let test =
        inside_iff cand root (eval_elements-IsClean (reverse (words (placed eval_symlinks o p))))
          root_is below in
      let given = is_abs-full o.project_root rooted in
      (
        (λ h. test.0 (ground (arith, h, full, strict, given))),
        (λ w. ground (arith, test.1 w, full, strict, given)),
      )
