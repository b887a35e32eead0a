-- ===== src/Path/Under.antt =====
-- Paths below a directory (Path.antt): one rooted path begins with another and a separator when the
-- elements of the one begin with those of the other.
use pmmcp.Prelude.{◌≡◌, refl, sym, ◌∙◌, true, List, [], ◌∷◌, ◌++◌, arith}
use pmmcp.Prelude.Runes.{Runes, codes, has_prefix, has_prefix_iff, contains}
use mathlib.Core.List.{append_assoc}
use pmmcp.Path.{slashed}
use pmmcp.Path.Words.{is_name, is_plain, all_plain}

-- What follows a name: nothing, or a separator.
abbrev pub Ends : Runes → Type 0
Ends [] = Unit
Ends (c ∷ s) = c ≡ b'/'

pub Ends-slashed : (ps : List Runes) → Ends (slashed ps)
unfolding slashed
Ends-slashed [] = tt
Ends-slashed (p ∷ ps) = refl

-- Names before separators are compared whole.
pub name-has_prefix :
    (c d x y : Runes)
    → is_name c ≡ true
    → is_name d ≡ true
    → Ends x
    → has_prefix (c ++ x) (d ++ b'/' ∷ y) ≡ true
    → (c ≡ d) × (has_prefix x (b'/' ∷ y) ≡ true)
unfolding is_name contains has_prefix
name-has_prefix [] [] x y nc nd e h = (refl, h)
name-has_prefix [] (v ∷ d) [] y nc nd e h = absurd (ground (arith, h))
name-has_prefix [] (v ∷ d) (u ∷ x) y nc nd e h = absurd (ground (arith, e, h))
name-has_prefix (u ∷ c) [] x y nc nd e h = absurd (ground (arith, h))
name-has_prefix (u ∷ c) (v ∷ d) x y nc nd e h =
    let same : u ≡ v = ground arith in
    let (p, q) = name-has_prefix c d x y (ground arith) (ground arith) e (ground arith) in
    ((λ i. same i ∷ p i), q)

-- The elements of `ps` are those of `qs` with at least one behind them.
abbrev pub Extends : List Runes → List Runes → Type 0
Extends ps qs = (e : Runes) × (es : List Runes) × (ps ≡ qs ++ e ∷ es)

-- With a separator behind it, what is written of a list of elements begins with a separator.
separated : (qs : List Runes) → (y : Runes) × (slashed qs ++ codes "/" ≡ b'/' ∷ y)
unfolding slashed codes
separated [] = ([], refl)
separated (q ∷ qs) = ((q ++ slashed qs) ++ codes "/", refl)

pub prefix-Extends :
    (ps qs : List Runes)
    → all_plain ps ≡ true
    → all_plain qs ≡ true
    → has_prefix (slashed ps) (slashed qs ++ codes "/") ≡ true
    → Extends ps qs
unfolding slashed has_prefix codes all_plain is_plain
prefix-Extends [] [] hp hq h = absurd (ground (arith, h))
prefix-Extends (p ∷ ps) [] hp hq h = (p, ps, refl)
prefix-Extends [] (q ∷ qs) hp hq h = absurd (ground (arith, h))
prefix-Extends (p ∷ ps) (q ∷ qs) hp hq h =
    let (y, begins) = separated qs in
    let grouped = append_assoc q (slashed qs) (codes "/") ∙ (λ i. q ++ begins i) in
    let (same, below) =
      name-has_prefix p q (slashed ps) y (ground arith) (ground arith) (Ends-slashed ps)
        ((λ i. has_prefix (p ++ slashed ps) (sym grouped i)) ∙ h) in
    let (e, es, rest) =
      prefix-Extends ps qs (ground arith) (ground arith)
        ((λ i. has_prefix (slashed ps) (begins i)) ∙ below) in
    (e, es, λ i. same i ∷ rest i)

pub slashed-append : (ps qs : List Runes) → slashed (ps ++ qs) ≡ slashed ps ++ slashed qs
unfolding slashed
slashed-append [] qs = refl
slashed-append (p ∷ ps) qs =
    (λ i. b'/' ∷ (p ++ slashed-append ps qs i))
    ∙ (λ i. b'/' ∷ sym (append_assoc p (slashed ps) (slashed qs)) i)

pub Extends-prefix :
    (ps qs : List Runes) → Extends ps qs → has_prefix (slashed ps) (slashed qs ++ codes "/") ≡ true
unfolding slashed codes
Extends-prefix ps qs (e, es, same) = (has_prefix_iff (slashed ps) (slashed qs ++ codes "/")).1 (
  e ++ slashed es,
  (λ i. slashed (same i))
      ∙ slashed-append qs (e ∷ es)
      ∙ sym (append_assoc (slashed qs) (codes "/") (e ++ slashed es)),
)

-- The elements of `ps` begin with those of `qs`.
abbrev pub StartsWith : List Runes → List Runes → Type 0
StartsWith ps qs = (es : List Runes) × (ps ≡ qs ++ es)
