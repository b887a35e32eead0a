-- ===== src/Prelude/Occurs.antt =====
-- How often a text occurs in a list, and what lists with related occurrences share.
use pmmcp.Prelude.{
  ℕ, suc, ◌+◌, ◌≤◌, ◌<◌, String, ◌≡◌, refl, Bool, List, [], ◌∷◌, ◌++◌, arith, str_eq, eq_iff, ltb,
  if◌then◌else◌, length,
}

unfoldable pub occ : String → List String → ℕ
occ a [] = 0
occ a (x ∷ xs) = let n = occ a xs in if str_eq a x then suc n else n

-- Membership as a test.
abbrev pub has : String → List String → Bool
has a xs = ltb 0 (occ a xs)

pub occ-append : (a : String) (xs ys : List String) → occ a (xs ++ ys) ≡ occ a xs + occ a ys
unfolding occ
occ-append a [] ys = omega arith
occ-append a (x ∷ xs) ys = ground (arith, occ-append a xs ys)

pub occ-one : (a x : String) → occ a (x ∷ []) ≡ (if str_eq a x then 1 else 0)
unfolding occ
occ-one a x = ground arith

remove : String → List String → List String
remove a [] = []
remove a (x ∷ xs) = if str_eq a x then xs else x ∷ remove a xs

occ-remove :
    (a b : String) (xs : List String)
    → 0 < occ a xs
    → occ b xs ≡ occ b (remove a xs) + (if str_eq b a then 1 else 0)
unfolding occ remove
occ-remove a b [] h = absurd (omega arith)
occ-remove a b (x ∷ xs) h = ground (arith, eq_iff a x, eq_iff b x, eq_iff b a, occ-remove a b xs)

length-remove :
    (a : String) (xs : List String) → 0 < occ a xs → length xs ≡ suc (length (remove a xs))
unfolding occ remove
length-remove a [] h = absurd (omega arith)
length-remove a (x ∷ xs) h = ground (arith, length-remove a xs)

pub occ_self : (x : String) (xs : List String) → occ x (x ∷ xs) ≡ suc (occ x xs)
unfolding occ
occ_self x xs = ground (arith, eq_iff x x)

occ-remove-le :
    (x : String) (xs ys : List String)
    → ((a : String) → occ a (x ∷ xs) ≤ occ a ys)
    → (a : String) → occ a xs ≤ occ a (remove x ys)
unfolding occ
occ-remove-le x xs ys h a = ground (arith, h a, occ-remove x a ys, h x, eq_iff a x, eq_iff x x)

-- A list whose entries all occur in another, as often at least, is no longer.
pub length-le_of_occ :
    (xs ys : List String) → ((a : String) → occ a xs ≤ occ a ys) → length xs ≤ length ys
length-le_of_occ [] ys h = omega arith
length-le_of_occ (x ∷ xs) ys h = omega (
  arith,
  length-remove x ys (omega (arith, h x, occ_self x xs)),
  length-le_of_occ xs (remove x ys) (occ-remove-le x xs ys h),
)

-- If it is as long too, the entries occur equally often.
pub occ-eq_of_length :
    (xs ys : List String)
    → ((a : String) → occ a xs ≤ occ a ys)
    → length ys ≤ length xs
    → (a : String) → occ a xs ≡ occ a ys
unfolding occ
occ-eq_of_length [] [] h l a = refl
occ-eq_of_length [] (y ∷ ys) h l a = absurd (omega arith)
occ-eq_of_length (x ∷ xs) ys h l a =
    let there : 0 < occ x ys = omega (arith, h x, occ_self x xs) in
    ground (
      arith,
      occ-remove x a ys there,
      occ-eq_of_length xs (remove x ys) (occ-remove-le x xs ys h)
          (omega (arith, length-remove x ys there)) a,
    )
