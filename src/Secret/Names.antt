-- ===== src/Secret/Names.antt =====
-- Cutting and trimming of texts (Prelude/Runes.antt) that stand in a reference to a secret.
use pmmcp.Prelude.{
  ℕ, ◌≡◌, refl, ap, ◌∙◌, ◌⊎◌, inl, inr, Bool, true, false, not, ◌||◌, none, some, [], ◌∷◌, ◌++◌,
  arith, ◌==◌, Bool-cases, Option-cases, length, drop,
}
use pmmcp.Prelude.Runes.{
  Runes, has_prefix, has_prefix_iff, contains, is_space, trim_left, trim_space, trim_prefix,
}
use pmmcp.Secret.{cut, split_scheme}
use mathlib.Core.List.{reverse, reverse-append, reverse-reverse}

-- The first character is there and is no space.
unfoldable pub starts_clean : Runes → Bool
starts_clean [] = false
starts_clean (x ∷ s) = not (is_space x)

unfoldable pub ends_clean : Runes → Bool
ends_clean s = starts_clean (reverse s)

trim_left-clean : (s : Runes) → starts_clean s ≡ true → trim_left s ≡ s
unfolding starts_clean trim_left
trim_left-clean [] h = refl
trim_left-clean (x ∷ s) h = ground arith

pub trim_space-clean : (s : Runes) → starts_clean s ≡ true → ends_clean s ≡ true → trim_space s ≡ s
unfolding trim_space ends_clean
trim_space-clean s h t =
    (λ i. reverse (trim_left (reverse (trim_left-clean s h i))))
    ∙ (λ i. reverse (trim_left-clean (reverse s) t i))
    ∙ reverse-reverse s

starts_clean-append : (s t : Runes) → starts_clean s ≡ true → starts_clean (s ++ t) ≡ true
unfolding starts_clean
starts_clean-append [] t h = absurd (ground (arith, h))
starts_clean-append (x ∷ s) t h = h

pub ends_clean-append : (s t : Runes) → ends_clean t ≡ true → ends_clean (s ++ t) ≡ true
unfolding ends_clean
ends_clean-append s t h =
    (λ i. starts_clean (reverse-append s t i)) ∙ starts_clean-append (reverse t) (reverse s) h

pub contains-append : (c : ℕ) (s t : Runes) → contains c (s ++ t) ≡ (contains c s || contains c t)
unfolding contains
contains-append c [] t = refl
contains-append c (x ∷ s) t = ground (arith, contains-append c s t)

pub cut-absent : (c : ℕ) (s : Runes) → contains c s ≡ false → cut c s ≡ none
unfolding contains cut
cut-absent c [] h = refl
cut-absent c (x ∷ s) h = rw (cut-absent c s (ground arith)) (ground arith)

pub cut-append : (c : ℕ) (s t : Runes) → contains c s ≡ false → cut c (s ++ c ∷ t) ≡ some (s, t)
unfolding contains cut
cut-append c [] t h = ground arith
cut-append c (x ∷ s) t h =
    let other : (x == c) ≡ false = ground arith in rw (other, cut-append c s t (ground arith)) refl

-- What is cut off is behind a text without the character.
cut-behind :
    (c d : ℕ) (s t : Runes)
    → (d == c) ≡ false
    → contains c s ≡ false
    → (cut c (s ++ d ∷ t) ≡ none)
      ⊎ ((before : Runes) × (after : Runes) × (cut c (s ++ d ∷ t) ≡ some (s ++ d ∷ before, after)))
unfolding contains cut
cut-behind c d [] t h n = elim (Option-cases (cut c t)) [
  | inl e ↦ inl (rw (h, e) refl)
  | inr ((before, after), e) ↦ inr (before, after, rw (h, e) refl)
]
cut-behind c d (x ∷ s) t h n =
    let other : (x == c) ≡ false = ground arith in
    elim (cut-behind c d s t h (ground arith)) [
      | inl e ↦ inl (rw (other, e) refl)
      | inr (before, after, e) ↦ inr (before, after, rw (other, e) refl)
    ]

pub contains-middle : (d : ℕ) (s t : Runes) → contains d (s ++ d ∷ t) ≡ true
unfolding contains
contains-middle d s t = ground (arith, contains-append d s (d ∷ t))

-- Both forms are split at their separator, whatever is in the path.
pub split_scheme-append :
    (sep : ℕ) (scheme path : Runes)
    → (sep ≡ b':') ⊎ (sep ≡ b'/')
    → contains b':' scheme ≡ false
    → contains b'/' scheme ≡ false
    → split_scheme (scheme ++ sep ∷ path) ≡ some (scheme, path)
unfolding split_scheme
split_scheme-append sep scheme path (inl colon) nc ns =
    (λ i. split_scheme (scheme ++ colon i ∷ path))
    ∙ rw (split_scheme, cut-append b':' scheme path nc, ns) refl
split_scheme-append sep scheme path (inr slash) nc ns =
    let there = cut-append b'/' scheme path ns in
    (λ i. split_scheme (scheme ++ slash i ∷ path))
    ∙ elim (cut-behind b':' b'/' scheme path refl nc) [
      | inl e ↦ rw (split_scheme, e) there
      | inr (before, after, e) ↦ rw (split_scheme, e, contains-middle b'/' scheme before) there
    ]

-- A text that is gone from does not begin with one that contains something else.
pub trim_prefix-absent :
    (c : ℕ) (s t : Runes) → contains c s ≡ false → contains c t ≡ true → trim_prefix s t ≡ s
unfolding trim_prefix
trim_prefix-absent c s t n h = elim (Bool-cases (has_prefix s t)) [
  | inr other ↦ rw other refl
  | inl y ↦
      let (r, e) = (has_prefix_iff s t).0 y in
      absurd (ground (arith, n, h, ap (contains c) e, contains-append c t r))
]

drop-prefix : (t s : Runes) → drop (length t) (t ++ s) ≡ s
drop-prefix [] s = refl
drop-prefix (x ∷ t) s = drop-prefix t s

pub trim_prefix-append : (t s : Runes) → trim_prefix (t ++ s) t ≡ s
unfolding trim_prefix
trim_prefix-append t s = rw ((has_prefix_iff (t ++ s) t).1 (s, refl)) (drop-prefix t s)
