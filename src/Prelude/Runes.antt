-- ===== src/Prelude/Runes.antt =====
-- Go strings that are taken apart, as lists of code points: equality, prefixes, suffixes, and the
-- functions of package strings that the program uses on them.
use pmmcp.Prelude.{
  ℕ, zero, suc, ◌+◌, ◌-◌, String, ◌≡◌, refl, ap, ◌↔◌, Bool, true, false, ◌&&◌, ◌||◌, List, [], ◌∷◌,
  ◌++◌, arith, leb, ◌==◌, if◌then◌else◌, length, take, drop, length-append,
}
use Prim.Native.Char.{code}
use mathlib.Core.List.{reverse}
use mathlib.Core.Path.{subst}

abbrev pub Runes : Type 0
Runes = List ℕ

abbrev pub is_empty : Runes → Bool
is_empty [] = true
is_empty (x ∷ s) = false

-- The code points of a native text.
unfoldable pub codes : String → Runes
codes Prim.Native.String.[] = []
codes (Prim.Native.String.◌∷◌ c s) = code c ∷ codes s

unfoldable pub eq_runes : Runes → Runes → Bool
eq_runes [] [] = true
eq_runes [] (y ∷ ys) = false
eq_runes (x ∷ xs) [] = false
eq_runes (x ∷ xs) (y ∷ ys) = let rest = eq_runes xs ys in if x == y then rest else false

pub eq_runes_iff : (s t : Runes) → (eq_runes s t ≡ true) ↔ (s ≡ t)
unfolding eq_runes
eq_runes_iff [] [] = ((λ h. refl), (λ h. refl))
eq_runes_iff [] (y ∷ ys) = ((λ h. cc), (λ h. cc))
eq_runes_iff (x ∷ xs) [] = ((λ h. cc), (λ h. cc))
eq_runes_iff (x ∷ xs) (y ∷ ys) =
    ((λ h. ground (arith, eq_runes_iff xs ys)), (λ h. ground (arith, eq_runes_iff xs ys)))

unfoldable pub has_prefix : Runes → Runes → Bool
has_prefix s [] = true
has_prefix [] (y ∷ ys) = false
has_prefix (x ∷ xs) (y ∷ ys) = let rest = has_prefix xs ys in if x == y then rest else false

pub has_prefix_iff : (s t : Runes) → (has_prefix s t ≡ true) ↔ ((r : Runes) × (s ≡ t ++ r))
unfolding has_prefix
has_prefix_iff s [] = ((λ h. (s, refl)), (λ h. refl))
has_prefix_iff [] (y ∷ ys) = ((λ h. cc), (λ h. cc))
has_prefix_iff (x ∷ xs) (y ∷ ys) = (
  (λ h. let (r, e) = (has_prefix_iff xs ys).0 (ground arith) in (r, ground (arith, e))),
  (λ (r, e).
      let more : has_prefix xs ys ≡ true = (has_prefix_iff xs ys).1 (r, ground arith) in
      ground (arith, more)),
)

unfoldable pub has_suffix : Runes → Runes → Bool
has_suffix s t = leb (length t) (length s) && eq_runes (drop (length s - length t) s) t

unfoldable pub contains : ℕ → Runes → Bool
contains c [] = false
contains c (x ∷ xs) = if x == c then true else contains c xs

-- `unicode.IsSpace`.
unfoldable pub is_space : ℕ → Bool
is_space c =
    (leb 9 c && leb c 13)
    || (c == 32
        || (c == 0x85
            || (c == 0xA0
                || (c == 0x1680
                    || ((leb 0x2000 c && leb c 0x200A)
                        || (c == 0x2028
                            || (c == 0x2029 || (c == 0x202F || (c == 0x205F || c == 0x3000)))))))))

unfoldable pub trim_left : Runes → Runes
trim_left [] = []
trim_left (x ∷ xs) = if is_space x then trim_left xs else x ∷ xs

-- `strings.TrimSpace`.
unfoldable pub trim_space : Runes → Runes
unfolding trim_left
trim_space s = reverse (trim_left (reverse (trim_left s)))

take-drop : (n : ℕ) (s : Runes) → s ≡ take n s ++ drop n s
take-drop zero s = refl
take-drop (suc n) [] = refl
take-drop (suc n) (x ∷ s) = ap (λ r. x ∷ r) (take-drop n s)

drop-append : (r t : Runes) → drop (length r) (r ++ t) ≡ t
drop-append [] t = refl
drop-append (x ∷ r) t = drop-append r t

pub has_suffix_iff : (s t : Runes) → (has_suffix s t ≡ true) ↔ ((r : Runes) × (s ≡ r ++ t))
unfolding has_suffix
has_suffix_iff s t = (
  (λ h.
      let n = length s - length t in
      let same : drop n s ≡ t = (eq_runes_iff (drop n s) t).0 (ground arith) in
      (take n s, subst (λ z. s ≡ take n s ++ z) same (take-drop n s))),
  (λ (r, e).
      let rest : length s - length t ≡ length r = omega (arith, length-append r t, ap length e) in
      let same : drop (length s - length t) s ≡ t = rw (rest, e) (drop-append r t) in
      ground (
        arith,
        (eq_runes_iff (drop (length s - length t) s) t).1 same,
        length-append r t,
        ap length e,
      )),
)

-- `strings.Contains`.
unfoldable pub has_part : Runes → Runes → Bool
has_part [] t = is_empty t
has_part (x ∷ xs) t = has_prefix (x ∷ xs) t || has_part xs t

pub has_part-append : (a t b : Runes) → has_part (a ++ (t ++ b)) t ≡ true
unfolding has_part
has_part-append [] [] [] = refl
has_part-append [] [] (x ∷ b) = unfold has_prefix in refl
has_part-append [] (x ∷ t) b = ground (arith, (has_prefix_iff (x ∷ (t ++ b)) (x ∷ t)).1 (b, refl))
has_part-append (x ∷ a) t b = ground (arith, has_part-append a t b)

-- `strings.TrimPrefix`.
unfoldable pub trim_prefix : Runes → Runes → Runes
trim_prefix s t = if has_prefix s t then drop (length t) s else s

-- `unicode.ToLower`, with `wide` for a rune that is not ASCII.
unfoldable pub lower_rune : (ℕ → ℕ) → ℕ → ℕ
lower_rune wide c = if leb 0x80 c then wide c else if leb 0x41 c && leb c 0x5A then c + 32 else c
