-- ===== src/Group/Dependencies.antt =====
-- Orders in which every entry stands behind all that it depends on.
use pmmcp.Prelude.{◌<◌, String, ◌≡◌, refl, List, [], ◌∷◌, ◌++◌}
use mathlib.Core.List.{append-nil}
use pmmcp.Prelude.Occurs.{occ}

-- Every entry of the second list is behind all that it depends on, which is in the first list or
-- before it.
abbrev pub DepsFirst : (String → List String) → List String → List String → Type 0
DepsFirst deps seen [] = Unit
DepsFirst deps seen (x ∷ xs) =
    ((d : String) → 0 < occ d (deps x) → 0 < occ d seen) × DepsFirst deps (seen ++ x ∷ []) xs

append_cons {ℓ} : {A : Type ℓ} (xs ys : List A) (x : A) → (xs ++ x ∷ []) ++ ys ≡ xs ++ x ∷ ys
append_cons [] ys x = refl
append_cons (y ∷ xs) ys x = rw (append_cons xs ys x)

pub DepsFirst-snoc :
    (deps : String → List String) (seen xs : List String) (x : String)
    → DepsFirst deps seen xs
    → ((d : String) → 0 < occ d (deps x) → 0 < occ d (seen ++ xs))
    → DepsFirst deps seen (xs ++ x ∷ [])
DepsFirst-snoc deps seen [] x h k = ((λ d p. rw append-nil at (k d p)), tt)
DepsFirst-snoc deps seen (y ∷ xs) x h k =
    (h.0, DepsFirst-snoc deps (seen ++ y ∷ []) xs x h.1 (λ d p. rw append_cons (k d p)))
