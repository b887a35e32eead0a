-- ===== src/Sandbox/Contained.antt =====
-- What a policy (internal/sandbox/policy.go) lets through, in terms of the elements of the paths.
use pmmcp.Prelude.{
  ℕ, ◌≡◌, refl, sym, ap, ◌∙◌, ◌↔◌, ◌⊎◌, inl, inr, Bool, true, false, ◌||◌, List, [], ◌∷◌, ◌++◌,
  arith, ◌==◌, if◌then◌else◌, Bool-cases, length, length-append,
}
use pmmcp.Prelude.Runes.{
  Runes, codes, eq_runes, eq_runes_iff, has_prefix, has_suffix, has_suffix_iff, contains, is_empty,
}
use pmmcp.Path.{is_abs, words, slashed, absolute}
use pmmcp.Path.Words.{
  is_name, is_plain, all_plain, words-plain, words-absolute, clean_abs, is_abs-full,
}
use pmmcp.Path.Under.{StartsWith, prefix-Extends, Extends-prefix}
use pmmcp.Sandbox.{root_prefix, is_under}
use mathlib.Core.List.{append-nil}

unfoldable ends_slash : Runes → Bool
ends_slash [] = false
ends_slash (c ∷ s) = let rest = ends_slash s in if is_empty s then c == b'/' else rest

ends_slash-append : (r : Runes) → ends_slash (r ++ codes "/") ≡ true
unfolding ends_slash codes
ends_slash-append [] = refl
ends_slash-append (c ∷ []) = refl
ends_slash-append (c ∷ d ∷ r) = ends_slash-append (d ∷ r)

ends_slash-name :
    (q s : Runes)
    → is_name q ≡ true
    → is_empty q ≡ false
    → ends_slash s ≡ false
    → ends_slash (q ++ s) ≡ false
unfolding ends_slash is_name contains
ends_slash-name [] s n e h = absurd (ground (arith, e))
ends_slash-name (c ∷ []) s n e h = ground arith
ends_slash-name (c ∷ d ∷ q) s n e h = ends_slash-name (d ∷ q) s (ground arith) refl h

ends_slash-cons : (c : ℕ) (s : Runes) → is_empty s ≡ false → ends_slash (c ∷ s) ≡ ends_slash s
unfolding ends_slash
ends_slash-cons c [] h = absurd (ground (arith, h))
ends_slash-cons c (d ∷ s) h = refl

is_empty-append : (q s : Runes) → is_empty q ≡ false → is_empty (q ++ s) ≡ false
is_empty-append [] s h = absurd (ground (arith, h))
is_empty-append (c ∷ q) s h = refl

ends_slash-slashed : (qs : List Runes) → all_plain qs ≡ true → ends_slash (slashed qs) ≡ false
unfolding slashed all_plain is_plain
ends_slash-slashed [] h = unfold ends_slash in refl
ends_slash-slashed (q ∷ qs) h =
    let full : is_empty q ≡ false = ground arith in
    ends_slash-cons b'/' (q ++ slashed qs) (is_empty-append q (slashed qs) full)
    ∙ ends_slash-name q (slashed qs) (ground arith) full (ends_slash-slashed qs (ground arith))

no_suffix : (s : Runes) → ends_slash s ≡ false → has_suffix s (codes "/") ≡ false
no_suffix s h = elim (Bool-cases (has_suffix s (codes "/"))) [
  | inr n ↦ n
  | inl y ↦
      let (r, e) = (has_suffix_iff s (codes "/")).0 y in
      absurd (ground (arith, h, ap ends_slash e, ends_slash-append r))
]

root_prefix-absolute :
    (qs : List Runes) → all_plain qs ≡ true → root_prefix (absolute qs) ≡ slashed qs ++ codes "/"
unfolding root_prefix
root_prefix-absolute [] h = unfold has_suffix codes eq_runes slashed in refl
root_prefix-absolute (q ∷ qs) h =
    rw (no_suffix (slashed (q ∷ qs)) (ends_slash-slashed (q ∷ qs) h)) refl

pub absolute-injective :
    (ps qs : List Runes)
    → all_plain ps ≡ true
    → all_plain qs ≡ true
    → absolute ps ≡ absolute qs
    → ps ≡ qs
absolute-injective ps qs hp hq e = sym (words-absolute ps hp) ∙ ap words e ∙ words-absolute qs hq

pub below-StartsWith :
    (ps qs : List Runes)
    → all_plain ps ≡ true
    → all_plain qs ≡ true
    → has_prefix (absolute ps) (slashed qs ++ codes "/") ≡ true
    → StartsWith ps qs
below-StartsWith (p ∷ ps) qs hp hq h =
    let (e, es, same) = prefix-Extends (p ∷ ps) qs hp hq h in (e ∷ es, same)
below-StartsWith [] [] hp hq h = ([], refl)
below-StartsWith [] ((c ∷ q) ∷ qs) hp hq h =
    absurd (unfold slashed codes has_prefix in ground (arith, h))
below-StartsWith [] ([] ∷ qs) hp hq h = absurd (unfold all_plain is_plain in ground (arith, hq))

pub StartsWith-below :
    (ps qs : List Runes)
    → StartsWith ps qs
    → (ps ≡ qs) ⊎ (has_prefix (absolute ps) (slashed qs ++ codes "/") ≡ true)
StartsWith-below ps qs ([], same) = inl (same ∙ append-nil qs)
StartsWith-below [] qs (e ∷ es, same) =
    absurd (omega (arith, ap length same, length-append qs (e ∷ es)))
StartsWith-below (p ∷ ps) qs (e ∷ es, same) = inr (Extends-prefix (p ∷ ps) qs (e, es, same))

is_under_abs :
    (path root : Runes)
    → is_abs path ≡ true
    → is_abs root ≡ true
    → is_under path root ≡ (
        eq_runes (absolute (words path)) (absolute (words root))
        || has_prefix (absolute (words path)) (slashed (words root) ++ codes "/"))
unfolding is_under
is_under_abs path root hp hr =
    rw
      (
        is_abs-full path hp,
        is_abs-full root hr,
        clean_abs path hp,
        clean_abs root hr,
        root_prefix-absolute (words root) (words-plain root hr),
      )
      refl

-- A rooted path is under a rooted directory exactly when its elements, after the current and parent
-- directories in it are resolved, begin with the directory's: the test on the texts is not fooled by
-- a directory whose name only begins with the other's.
pub is_under_iff :
    (path root : Runes)
    → is_abs path ≡ true
    → is_abs root ≡ true
    → (is_under path root ≡ true) ↔ StartsWith (words path) (words root)
is_under_iff path root hp hr =
    let ps = words path in
    let qs = words root in
    let plain_path = words-plain path hp in
    let plain_root = words-plain root hr in
    let same_iff = eq_runes_iff (absolute ps) (absolute qs) in
    let meant = is_under_abs path root hp hr in
    (
      (λ h. elim (Bool-cases (eq_runes (absolute ps) (absolute qs))) [
        | inl same ↦ (
          [],
          absolute-injective ps qs plain_path plain_root (same_iff.0 same) ∙ sym (append-nil qs),
        )
        | inr other ↦ below-StartsWith ps qs plain_path plain_root (ground (arith, h, meant, other))
      ]),
      (λ w. elim (StartsWith-below ps qs w) [
        | inl same ↦ ground (arith, meant, same_iff.1 (ap absolute same))
        | inr below ↦ ground (arith, meant, below)
      ]),
    )
