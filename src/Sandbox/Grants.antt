-- ===== src/Sandbox/Grants.antt =====
-- What a policy (internal/sandbox/policy.go) grants: writes below its roots, and reads of no SSH key.
use pmmcp.Prelude.{
  String, ◌≡◌, refl, sym, ap, ◌∙◌, ◌≢◌, ◌↔◌, inl, inr, true, false, List, [], ◌∷◌, ◌++◌, arith,
  str_eq, eq_iff, ◌==◌, if◌then◌else◌, Bool-cases, All,
}
use pmmcp.Prelude.Runes.{
  Runes, codes, has_prefix, has_suffix_iff, has_part, has_part-append, is_empty, trim_space,
}
use pmmcp.Path.{is_abs, words, slashed, absolute, clean}
use pmmcp.Path.Words.{words-clean, is_abs-full, is_abs-clean, clean_abs}
use pmmcp.Path.Under.{slashed-append}
use pmmcp.Sandbox.{
  Policy, is_valid, normalize_path, slashy, is_ssh_style_path, is_under, allows_read,
  is_restrictive, is_writable, allows_write,
}
use pmmcp.Path.Under.{StartsWith}
use pmmcp.Sandbox.Contained.{is_under_iff}
use mathlib.Core.List.{map-append}
use mathlib.Core.Path.{subst}

normalize_path_abs :
    (s : Runes) → is_abs (trim_space s) ≡ true → normalize_path s ≡ clean (trim_space s)
unfolding normalize_path
normalize_path_abs s h = rw (is_abs-full (trim_space s) h) refl

root-full : (r : Runes) → is_abs (trim_space r) ≡ true → is_empty r ≡ false
unfolding trim_space is_abs has_prefix codes
root-full [] h = absurd (ground (arith, h))
root-full (c ∷ r) h = refl

-- A root that is a directory above the path or the path itself, with its place in the list.
abbrev pub Above : Runes → List Runes → Type 0
Above path roots =
    (before : List Runes) × (root : Runes) × (after : List Runes) × (roots ≡ before ++ root ∷ after)
    × StartsWith (words path) (words (trim_space root))

module _ (path : Runes) (rooted : is_abs path ≡ true) where
  under_root :
      (root : Runes)
      → is_abs (trim_space root) ≡ true
      → (is_under (clean path) (normalize_path root) ≡ true)
        ↔ StartsWith (words path) (words (trim_space root))
  under_root root h =
      rw
        (
          normalize_path_abs root h,
          sym (words-clean path rooted),
          sym (words-clean (trim_space root) h),
        )
        (is_under_iff (clean path) (clean (trim_space root)) (is_abs-clean path rooted)
          (is_abs-clean (trim_space root) h))

  is_writable-Above :
      (roots : List Runes)
      → All (λ r. is_abs (trim_space r) ≡ true) roots
      → is_writable (clean path) roots ≡ true
      → Above path roots
  unfolding is_writable
  is_writable-Above [] h w = absurd (ground (arith, w))
  is_writable-Above (root ∷ roots) (r, h) w =
      elim (Bool-cases (is_under (clean path) (normalize_path root))) [
        | inl under ↦ ([], root, roots, refl, (under_root root r).0 under)
        | inr outside ↦
            let (before, other, after, e, below) =
              is_writable-Above roots h (ground (arith, w, outside)) in
            (root ∷ before, other, after, ap (λ l. root ∷ l) e, below)
      ]

  Above-is_writable :
      (before : List Runes) (root : Runes) (after : List Runes)
      → All (λ r. is_abs (trim_space r) ≡ true) (before ++ root ∷ after)
      → StartsWith (words path) (words (trim_space root))
      → is_writable (clean path) (before ++ root ∷ after) ≡ true
  unfolding is_writable
  Above-is_writable [] root after (r, h) w =
      ground (arith, root-full root r, (under_root root r).1 w)
  Above-is_writable (b ∷ before) root after (r, h) w =
      ground (arith, Above-is_writable before root after h w)

-- A policy other than the one that is off lets a rooted path be written exactly when its profile is
-- known, the cleaned path may be read, and a writable root is the path or a directory above it: the
-- path's elements, with the current and parent directories in it resolved, begin with the root's. It
-- takes that the writable roots are rooted paths.
pub allows_write_iff :
    (p : Policy) (path : Runes)
    → str_eq p.profile "off" ≡ false
    → is_abs (trim_space path) ≡ true
    → All (λ r. is_abs (trim_space r) ≡ true) p.writable_roots
    → (allows_write p path ≡ true) ↔ (
        (is_valid p.profile ≡ true)
        × (allows_read p (clean (trim_space path)) ≡ true)
        × Above (trim_space path) p.writable_roots)
unfolding allows_write
allows_write_iff p path on rooted roots =
    let s = trim_space path in
    let norm = normalize_path_abs path rooted in
    let full = is_abs-full (clean s) (is_abs-clean s rooted) in
    rw (norm, full, on)
      (
        (λ h. (
          ground (arith, h),
          ground (arith, h),
          is_writable-Above s rooted p.writable_roots roots (ground (arith, h)),
        )),
        (λ (valid, readable, above).
            let (before, root, after, e, below) = above in
            let writable : is_writable (clean s) p.writable_roots ≡ true =
              (λ i. is_writable (clean s) (e i))
              ∙ Above-is_writable s rooted before root after
                  (subst (All (λ r. is_abs (trim_space r) ≡ true)) e roots) below in
            ground (arith, valid, readable, writable)),
      )

slashy-append : (s t : Runes) → slashy (s ++ t) ≡ slashy s ++ slashy t
unfolding slashy
slashy-append s t = map-append (λ c. if c == b'\\' then b'/' else c) s t

slashed-is_ssh_style :
    (before after : List Runes)
    → is_ssh_style_path (slashed (before ++ codes ".ssh" ∷ after)) ≡ true
unfolding is_ssh_style_path slashy slashed codes
slashed-is_ssh_style before [] =
    let e =
      ap slashy (slashed-append before (codes ".ssh" ∷ []))
      ∙ slashy-append (slashed before) (slashed (codes ".ssh" ∷ [])) in
    let found =
      (has_suffix_iff (slashy (slashed (before ++ codes ".ssh" ∷ []))) (codes "/.ssh")).1
        (slashy (slashed before), e) in
    ground (arith, found)
slashed-is_ssh_style before (a ∷ after) =
    let e =
      ap slashy (slashed-append before (codes ".ssh" ∷ a ∷ after))
      ∙ slashy-append (slashed before) (slashed (codes ".ssh" ∷ a ∷ after)) in
    let found : has_part (slashy (slashed (before ++ codes ".ssh" ∷ a ∷ after))) (codes "/.ssh/")
        ≡ true =
      (λ i. has_part (e i) (codes "/.ssh/"))
      ∙ has_part-append (slashy (slashed before)) (codes "/.ssh/") (slashy (a ++ slashed after)) in
    ground (arith, found)

absolute-slashed :
    (before : List Runes) (p : Runes) (after : List Runes)
    → absolute (before ++ p ∷ after) ≡ slashed (before ++ p ∷ after)
absolute-slashed [] p after = refl
absolute-slashed (b ∷ before) p after = refl

restrictive-on : (s : String) → is_restrictive s ≡ true → str_eq s "off" ≡ false
restrictive-on s h = elim (Bool-cases (str_eq s "strict")) [
  | inl y ↦ rw ((eq_iff s "strict").0 y) refl
  | inr n ↦ rw ((eq_iff s "standard").0 (ground (arith, h, n))) refl
]

-- Under the strict and the standard profile no rooted path may be read whose elements, with the
-- current and parent directories in it resolved, have `.ssh` among them.
pub allows_read-no_ssh :
    (p : Policy) (path : Runes)
    → is_restrictive p.profile ≡ true
    → is_abs (trim_space path) ≡ true
    → allows_read p path ≡ true
    → (before after : List Runes) → words (trim_space path) ≢ before ++ codes ".ssh" ∷ after
unfolding allows_read
allows_read-no_ssh p path strict rooted allowed before after e =
    let written : normalize_path path ≡ slashed (before ++ codes ".ssh" ∷ after) =
      normalize_path_abs path rooted
      ∙ clean_abs (trim_space path) rooted
      ∙ ap absolute e
      ∙ absolute-slashed before (codes ".ssh") after in
    let found : is_ssh_style_path (normalize_path path) ≡ true =
      ap is_ssh_style_path written ∙ slashed-is_ssh_style before after in
    ground (arith, allowed, strict, found, restrictive-on p.profile strict)
