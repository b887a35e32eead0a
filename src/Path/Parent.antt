-- ===== src/Path/Parent.antt =====
-- The parent of a rooted path (Path.antt).
use pmmcp.Prelude.{
  ◌≡◌, refl, sym, ap, ◌∙◌, inl, inr, true, false, List, [], ◌∷◌, ◌++◌, arith, Bool-cases, length,
}
use pmmcp.Prelude.Runes.{Runes, codes, eq_runes, eq_runes_iff, has_prefix, contains}
use pmmcp.Path.{split, push_word, walk, is_abs, words, slashed, absolute, clean, dir_part, dir}
use pmmcp.Path.Words.{
  is_name, is_plain, all_plain, all_plain-reverse, reverse-cons, split-name, words-absolute,
  clean_abs,
}
use pmmcp.Path.Under.{slashed-append}
use mathlib.Core.List.{reverse, reverse_aux, reverse-reverse, append-nil, append_assoc}

dir_part-name : (q : Runes) → is_name q ≡ true → dir_part q ≡ []
unfolding is_name dir_part
dir_part-name [] n = refl
dir_part-name (c ∷ q) n = ground arith

contains-middle : (s q : Runes) → contains b'/' (s ++ b'/' ∷ q) ≡ true
unfolding contains
contains-middle [] q = refl
contains-middle (c ∷ s) q = ground (arith, contains-middle s q)

dir_part-append : (s q : Runes) → is_name q ≡ true → dir_part (s ++ b'/' ∷ q) ≡ s ++ b'/' ∷ []
unfolding dir_part
dir_part-append [] q n = rw (contains-middle [] q, dir_part-name q n) refl
dir_part-append (c ∷ s) q n = rw (contains-middle (c ∷ s) q, dir_part-append s q n) refl

split-closed :
    (ps : List Runes) → all_plain ps ≡ true → split (slashed ps ++ codes "/") ≡ [] ∷ (ps ++ [] ∷ [])
unfolding split slashed codes all_plain is_plain
split-closed [] h = refl
split-closed (p ∷ ps) h =
    (λ i. [] ∷ split (append_assoc p (slashed ps) (codes "/") i))
    ∙ ap (λ r. [] ∷ r)
        (split-name p (slashed ps ++ codes "/") (ps ++ [] ∷ []) (ground arith)
          (split-closed ps (ground arith)))

walk-closed :
    (ps stack : List Runes)
    → all_plain ps ≡ true
    → walk true stack (ps ++ [] ∷ []) ≡ reverse_aux ps stack
unfolding walk all_plain is_plain push_word
walk-closed [] stack h = refl
walk-closed (p ∷ ps) stack h =
    let kept : push_word true stack p ≡ p ∷ stack = ground arith in
    (λ i. walk true (kept i) (ps ++ [] ∷ [])) ∙ walk-closed ps (p ∷ stack) (ground arith)

clean-closed :
    (ps : List Runes) → all_plain ps ≡ true → clean (slashed ps ++ codes "/") ≡ absolute ps
unfolding words walk push_word
clean-closed ps h =
    let rooted : is_abs (slashed ps ++ codes "/") ≡ true = begins ps in
    clean_abs (slashed ps ++ codes "/") rooted
    ∙ ap absolute (
        (λ i. reverse (walk (rooted i) [] (split-closed ps h i)))
        ∙ (λ i. reverse (walk-closed ps [] h i))
        ∙ reverse-reverse ps)
  where
    begins : (qs : List Runes) → is_abs (slashed qs ++ codes "/") ≡ true
    begins [] = unfold is_abs slashed has_prefix codes in refl
    begins (q ∷ qs) = unfold is_abs slashed has_prefix codes in refl

-- A directory by its elements, the deepest first.
abbrev pub dir_of : List Runes → Runes
dir_of us = absolute (reverse us)

absolute-snoc : (ps : List Runes) (p : Runes) → absolute (ps ++ p ∷ []) ≡ slashed ps ++ b'/' ∷ p
absolute-snoc ps p =
    whole ps
    ∙ slashed-append ps (p ∷ [])
    ∙ (unfold slashed in λ i. slashed ps ++ b'/' ∷ append-nil p i)
  where
    whole : (qs : List Runes) → absolute (qs ++ p ∷ []) ≡ slashed (qs ++ p ∷ [])
    whole [] = refl
    whole (q ∷ qs) = refl

pub dir-dir_of :
    (u : Runes) (us : List Runes) → all_plain (u ∷ us) ≡ true → dir (dir_of (u ∷ us)) ≡ dir_of us
unfolding dir all_plain is_plain codes
dir-dir_of u us h =
    let plain : all_plain (reverse us) ≡ true = all_plain-reverse us ∙ ground arith in
    (λ i. clean (dir_part (absolute (reverse-cons u us i))))
    ∙ (λ i. clean (dir_part (absolute-snoc (reverse us) u i)))
    ∙ (λ i. clean (dir_part-append (slashed (reverse us)) u (ground arith) i))
    ∙ clean-closed (reverse us) plain

pub dir-root : dir (dir_of []) ≡ dir_of []
unfolding dir dir_part contains codes clean is_abs has_prefix words walk push_word split
dir-root = refl

-- A directory is not its parent, but for the root.
pub dir_of-shrinks :
    (u : Runes) (us : List Runes)
    → all_plain (u ∷ us) ≡ true
    → eq_runes (dir_of us) (dir_of (u ∷ us)) ≡ false
dir_of-shrinks u us h = elim (Bool-cases (eq_runes (dir_of us) (dir_of (u ∷ us)))) [
  | inr n ↦ n
  | inl y ↦
      let same = (eq_runes_iff (dir_of us) (dir_of (u ∷ us))).0 y in
      let listed =
        sym (
          words-absolute (reverse us)
            (all_plain-reverse us ∙ (unfold all_plain in ground (arith, h))))
        ∙ ap words same
        ∙ words-absolute (reverse (u ∷ us)) (all_plain-reverse (u ∷ us) ∙ h) in
      let longer = sym (reverse-reverse us) ∙ ap reverse listed ∙ reverse-reverse (u ∷ us) in
      absurd (omega (arith, ap length longer))
]
