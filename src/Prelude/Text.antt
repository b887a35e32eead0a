-- ===== src/Prelude/Text.antt =====
-- Go strings that are only compared, as native texts: membership, and maps keyed by them.
use Prim.Native.String.{String}
use mathlib.Core.Path.{◌≡◌, refl}
use mathlib.Core.Bool.{Bool, true, false, ◌||◌}
use mathlib.Core.List.{List, [], ◌∷◌, ◌++◌}
use native.Mathlib.Omega.{arith}
use text.Mathlib.Text.{◌==◌}
use pmmcp.Prelude.Tests.{if◌then◌else◌}

-- A text is in a list.
unfoldable pub elem : String → List String → Bool
elem a [] = false
elem a (x ∷ xs) = if a == x then true else elem a xs

pub elem-append : (a : String) (xs ys : List String) → elem a (xs ++ ys) ≡ (elem a xs || elem a ys)
unfolding elem
elem-append a [] ys = refl
elem-append a (x ∷ xs) ys = ground (arith, elem-append a xs ys)

pub elem-append_left :
    (a : String) (xs ys : List String) → elem a xs ≡ true → elem a (xs ++ ys) ≡ true
elem-append_left a xs ys h = ground (arith, elem-append a xs ys)

-- A Go map as a function: a missing key reads as the value of `empty`.
abbrev pub GoMap {ℓ} : Type ℓ → Type ℓ
GoMap V = String → V

unfoldable pub put {ℓ} : {V : Type ℓ} → GoMap V → String → V → GoMap V
put m k v j = if j == k then v else m j
