-- ===== src/Path/Words.antt =====
-- The elements of a path (Path.antt): those of a rooted path are plain names, and a list of plain
-- names is read back from the path that is written with it.
use pmmcp.Prelude.{
  ℕ, ◌≡◌, refl, sym, ap, ◌∙◌, inl, inr, Bool, true, false, not, ◌&&◌, ◌||◌, List, [], ◌∷◌, ◌++◌,
  arith, ◌==◌, Bool-cases,
}
use pmmcp.Prelude.Runes.{Runes, codes, eq_runes, is_empty, contains, has_prefix}
use pmmcp.Path.{cons_head, split, push_word, walk, is_abs, words, slashed, absolute, clean}
use mathlib.Core.List.{reverse, reverse_aux, reverse-append, reverse-reverse}

-- No separator.
unfoldable pub is_name : Runes → Bool
is_name p = not (contains b'/' p)

-- A name that stands for itself.
unfoldable pub is_plain : Runes → Bool
is_plain p = is_name p && not (is_empty p || (eq_runes p (codes ".") || eq_runes p (codes "..")))

unfoldable pub all_names : List Runes → Bool
all_names [] = true
all_names (p ∷ ps) = is_name p && all_names ps

unfoldable pub all_plain : List Runes → Bool
all_plain [] = true
all_plain (p ∷ ps) = is_plain p && all_plain ps

all_plain-append : (ps qs : List Runes) → all_plain (ps ++ qs) ≡ (all_plain ps && all_plain qs)
unfolding all_plain
all_plain-append [] qs = refl
all_plain-append (p ∷ ps) qs = ground (arith, all_plain-append ps qs)

pub reverse-cons : (p : Runes) (ps : List Runes) → reverse (p ∷ ps) ≡ reverse ps ++ p ∷ []
reverse-cons p ps = reverse-append (p ∷ []) ps

pub all_plain-reverse : (ps : List Runes) → all_plain (reverse ps) ≡ all_plain ps
unfolding all_plain
all_plain-reverse [] = refl
all_plain-reverse (p ∷ ps) = ground (
  arith,
  ap all_plain (reverse-cons p ps),
  all_plain-append (reverse ps) (p ∷ []),
  all_plain-reverse ps,
)

cons_head-all_names :
    (c : ℕ) (ws : List Runes)
    → (c == b'/') ≡ false
    → all_names ws ≡ true
    → all_names (cons_head c ws) ≡ true
unfolding all_names is_name contains
cons_head-all_names c [] other h = ground (arith, other)
cons_head-all_names c (w ∷ ws) other h = ground (arith, other)

split-all_names : (s : Runes) → all_names (split s) ≡ true
unfolding split all_names is_name contains
split-all_names [] = refl
split-all_names (c ∷ cs) = elim (Bool-cases (c == b'/')) [
  | inl sep ↦ rw sep (ground (arith, split-all_names cs))
  | inr other ↦ rw other (cons_head-all_names c (split cs) other (split-all_names cs))
]

push_word-plain :
    (stack : List Runes) (p : Runes)
    → all_plain stack ≡ true
    → is_name p ≡ true
    → all_plain (push_word true stack p) ≡ true
unfolding push_word all_plain is_plain
push_word-plain [] p h n = ground arith
push_word-plain (top ∷ stack) p h n = ground arith

pub walk-plain :
    (ps stack : List Runes)
    → all_plain stack ≡ true
    → all_names ps ≡ true
    → all_plain (walk true stack ps) ≡ true
unfolding walk all_names
walk-plain [] stack h n = h
walk-plain (p ∷ ps) stack h n =
    walk-plain ps (push_word true stack p) (push_word-plain stack p h (ground arith)) (ground arith)

pub words-plain : (s : Runes) → is_abs s ≡ true → all_plain (words s) ≡ true
unfolding words
words-plain s h = rw h (
    all_plain-reverse (walk true [] (split s))
    ∙ walk-plain (split s) [] (unfold all_plain in refl) (split-all_names s))

walk_plain :
    (ps stack : List Runes) → all_plain ps ≡ true → walk true stack ps ≡ reverse_aux ps stack
unfolding walk all_plain is_plain push_word
walk_plain [] stack h = refl
walk_plain (p ∷ ps) stack h =
    let kept : push_word true stack p ≡ p ∷ stack = ground arith in
    (λ i. walk true (kept i) ps) ∙ walk_plain ps (p ∷ stack) (ground arith)

pub split-name :
    (q x : Runes) (ps : List Runes) → is_name q ≡ true → split x ≡ [] ∷ ps → split (q ++ x) ≡ q ∷ ps
unfolding is_name contains split
split-name [] x ps n h = h
split-name (c ∷ q) x ps n h =
    let other : (c == b'/') ≡ false = ground arith in
    let rest = split-name q x ps (ground arith) h in rw (other, rest) refl

split-slashed : (ps : List Runes) → all_plain ps ≡ true → split (slashed ps) ≡ [] ∷ ps
unfolding split slashed all_plain is_plain
split-slashed [] h = refl
split-slashed (p ∷ ps) h =
    ap (λ r. [] ∷ r) (split-name p (slashed ps) ps (ground arith) (split-slashed ps (ground arith)))

pub words-absolute : (ps : List Runes) → all_plain ps ≡ true → words (absolute ps) ≡ ps
unfolding words walk push_word slashed split codes is_abs has_prefix
words-absolute [] h = refl
words-absolute (p ∷ ps) h =
    (λ i. reverse (walk true [] (split-slashed (p ∷ ps) h i)))
    ∙ (λ i. reverse (walk_plain (p ∷ ps) [] h i))
    ∙ reverse-reverse (p ∷ ps)

pub is_abs-absolute : (ps : List Runes) → is_abs (absolute ps) ≡ true
unfolding is_abs has_prefix slashed codes
is_abs-absolute [] = refl
is_abs-absolute (p ∷ ps) = refl

pub clean_abs : (s : Runes) → is_abs s ≡ true → clean s ≡ absolute (words s)
unfolding clean
clean_abs s h = rw h refl

-- Cleaning a rooted path again changes nothing, and does not change its elements.
pub words-clean : (s : Runes) → is_abs s ≡ true → words (clean s) ≡ words s
words-clean s h = rw (clean_abs s h) (words-absolute (words s) (words-plain s h))

pub clean-clean : (s : Runes) → is_abs s ≡ true → clean (clean s) ≡ clean s
clean-clean s h =
    let again : is_abs (clean s) ≡ true = rw (clean_abs s h) (is_abs-absolute (words s)) in
    clean_abs (clean s) again ∙ ap absolute (words-clean s h) ∙ sym (clean_abs s h)

pub is_abs-full : (s : Runes) → is_abs s ≡ true → is_empty s ≡ false
unfolding is_abs has_prefix codes
is_abs-full [] h = absurd (ground (arith, h))
is_abs-full (c ∷ s) h = refl

pub is_abs-clean : (s : Runes) → is_abs s ≡ true → is_abs (clean s) ≡ true
is_abs-clean s h = rw (clean_abs s h) (is_abs-absolute (words s))

pub is_abs-append : (s t : Runes) → is_abs s ≡ true → is_abs (s ++ t) ≡ true
unfolding is_abs has_prefix codes
is_abs-append [] t h = absurd (ground (arith, h))
is_abs-append (c ∷ s) t h = ground (arith, h)
