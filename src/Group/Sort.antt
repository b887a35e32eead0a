-- ===== src/Group/Sort.antt =====
-- `sortStable` of internal/group/group.go keeps every entry as often as it occurs.
use pmmcp.Prelude.{◌+◌, String, ◌≡◌, refl, ◌∙◌, Bool, List, [], ◌∷◌, arith}
use mathlib.Core.List.{reverse, reverse-cons}
use pmmcp.Prelude.Occurs.{occ, occ-append}
use pmmcp.Group.{move_left, sort_from, sort_stable}

occ-move_left :
    (lt : String → String → Bool) (a x : String) (ys : List String)
    → occ a (move_left lt x ys) ≡ occ a (x ∷ ys)
unfolding move_left occ
occ-move_left lt a x [] = refl
occ-move_left lt a x (y ∷ ys) = ground (arith, occ-move_left lt a x ys)

pub occ-reverse : (a : String) (xs : List String) → occ a (reverse xs) ≡ occ a xs
occ-reverse a [] = refl
occ-reverse a (x ∷ xs) =
    rw (reverse-cons x xs, occ-append a (reverse xs) (x ∷ []), occ-reverse a xs)
      (unfold occ in ground arith)

occ-sort_from :
    (lt : String → String → Bool) (a : String) (done xs : List String)
    → occ a (sort_from lt done xs) ≡ occ a done + occ a xs
unfolding sort_from
occ-sort_from lt a done [] = occ-reverse a done ∙ unfold occ in omega arith
occ-sort_from lt a done (x ∷ xs) =
    occ-sort_from lt a (move_left lt x done) xs
    ∙ rw (occ-move_left lt a x done) (unfold occ in ground arith)

-- The sort keeps every entry.
pub occ-sort_stable :
    (lt : String → String → Bool) (a : String) (xs : List String)
    → occ a (sort_stable lt xs) ≡ occ a xs
unfolding sort_stable
occ-sort_stable lt a xs = occ-sort_from lt a [] xs ∙ unfold occ in omega arith
