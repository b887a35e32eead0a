-- ===== src/Group/Stop.antt =====
-- The stop order of a group, and the start order of a group that the registry holds.
use pmmcp.Prelude.{
  ℕ, suc, ◌<◌, String, ◌≡◌, refl, ◌∙◌, ◌⊎◌, inl, inr, Bool, Option, none, some, List, [], ◌∷◌, ◌++◌,
  arith, str_eq, eq_iff, if◌then◌else◌, Bool-cases, length, put,
}
use mathlib.Core.List.{reverse, reverse-cons, append-nil}
use pmmcp.Prelude.Result.{ok, Result-cases}
use pmmcp.Prelude.Occurs.{occ, occ-append, occ-one}
use pmmcp.Group.{Member, Group, no_tables, kahn, kahn_init, read_names, read_edges, start_order}
use pmmcp.Group.Sort.{occ-reverse}
use pmmcp.Group.Edges.{names_of, needs}
use pmmcp.Group.Dependencies.{DepsFirst}
use pmmcp.Group.Order.{IsVisit, Ranks, start_order_sound, ran, Ran-complete}
use pmmcp.Group.Registry.{Registry, assigned_id, create, get, registry_start_order, stop_order}

-- Every entry stands before all that it depends on.
abbrev pub DepsLast : (String → List String) → List String → Type 0
DepsLast deps [] = Unit
DepsLast deps (x ∷ xs) = ((d : String) → 0 < occ d (deps x) → 0 < occ d xs) × DepsLast deps xs

append_cons {ℓ} : {A : Type ℓ} (xs ys : List A) (x : A) → (xs ++ x ∷ []) ++ ys ≡ xs ++ x ∷ ys
append_cons [] ys x = refl
append_cons (y ∷ xs) ys x = rw (append_cons xs ys x)

DepsLast-reverse :
    (deps : String → List String) (seen s xs : List String)
    → ((d : String) → 0 < occ d seen → 0 < occ d s)
    → DepsLast deps s
    → DepsFirst deps seen xs
    → DepsLast deps (reverse xs ++ s)
DepsLast-reverse deps seen s [] sub last h = last
DepsLast-reverse deps seen s (x ∷ xs) sub last h =
    rw (reverse-cons x xs, append_cons (reverse xs) s x)
      (DepsLast-reverse deps (seen ++ x ∷ []) (x ∷ s) xs
        (λ d k.
          ground (arith, sub d, occ-append d seen (x ∷ []), occ-one d x, eq_iff d x, occ_cons d))
        ((λ d k. sub d (h.0 d k)), last) h.1)
  where
    occ_cons : (d : String) → occ d (x ∷ s) ≡ (if str_eq d x then suc (occ d s) else occ d s)
    occ_cons d = unfold occ in refl

-- The stop order of a registered group holds every member once, and every member stops before all
-- the members that it depends on.
pub stop_order_sound :
    (group_id : String) (visit : List String) (r : Registry) (g : Group) (out : List String)
    → r group_id ≡ some g
    → IsVisit visit g.members
    → stop_order group_id visit r ≡ ok out
    → ((a : String) → occ a out ≡ occ a (names_of g.members)) × DepsLast (needs g.members) out
unfolding stop_order
stop_order_sound group_id visit r g out e v h = elim (Result-cases (start_order visit g.members)) [
  | inr (x, fails) ↦ absurd (ground (arith, e, fails))
  | inl (order, made) ↦
      let same : reverse order ≡ out = ground (arith, e, made) in
      let (all, first) = start_order_sound visit g.members order v made in
      rw (← same) (
        λ a. occ-reverse a order ∙ all a,
        rw append-nil at (DepsLast-reverse (needs g.members) [] [] order (λ d k. k) tt first),
      )
]

idx : String → List String → ℕ
idx x [] = 0
idx x (y ∷ ys) = let n = idx x ys in if str_eq x y then 0 else suc n

DepsFirst-idx :
    (deps : String → List String) (seen xs : List String) (x d : String)
    → DepsFirst deps seen xs
    → 0 < occ x xs
    → 0 < occ d (deps x)
    → (0 < occ d seen) ⊎ (idx d xs < idx x xs)
unfolding idx occ
DepsFirst-idx deps seen [] x d h k e = absurd (omega arith)
DepsFirst-idx deps seen (y ∷ ys) x d h k e = ground (
  arith,
  eq_iff x y,
  eq_iff d y,
  h.0 d,
  DepsFirst-idx deps (seen ++ y ∷ []) ys x d h.1,
  occ-append d seen (y ∷ []),
  occ-one d y,
)

needs-name : (ms : List Member) (x d : String) → 0 < occ d (needs ms x) → 0 < occ x (names_of ms)
unfolding needs occ
needs-name [] x d h = h
needs-name (m ∷ ms) x d h = ground (arith, needs-name ms x d, eq_iff m.name x, eq_iff x m.name)

DepsFirst-Ranks :
    (ms : List Member) (out : List String)
    → ((a : String) → occ a out ≡ occ a (names_of ms))
    → DepsFirst (needs ms) [] out
    → Ranks (λ x. idx x out) ms
DepsFirst-Ranks ms out all first x d h =
    elim (DepsFirst-idx (needs ms) [] out x d first (omega (arith, all x, needs-name ms x d h)) h) [
      | inl k ↦ absurd (unfold occ in omega arith)
      | inr k ↦ k
    ]

-- Whether a start order exists does not depend on the order in which Go ranges over its map: a group
-- that passed the check of `Create` under one order has a start order under every other.
pub start_order-any_visit :
    (visit visit' : List String) (ms : List Member) (out : List String)
    → IsVisit visit ms
    → IsVisit visit' ms
    → start_order visit ms ≡ ok out
    → (out' : List String) × (start_order visit' ms ≡ ok out')
unfolding start_order
start_order-any_visit visit visit' [] out v v' h = ([], refl)
start_order-any_visit visit visit' (m ∷ ms) out v v' h =
    let (all, first) = start_order_sound visit (m ∷ ms) out v h in
    elim (Result-cases (read_names 0 (m ∷ ms) no_tables)) [
      | inr (e, fails) ↦ absurd (ground (arith, fails))
      | inl (t, names) ↦ elim (Result-cases (read_edges (m ∷ ms) t)) [
        | inr (e, fails) ↦ absurd (ground (arith, names, fails))
        | inl (t', edges) ↦
            let q = kahn (length (m ∷ ms)) t' (kahn_init t' visit') in
            let r = ran visit' (m ∷ ms) t t' v' names edges in
            let full =
              Ran-complete (m ∷ ms) t' q (λ x. idx x out) r
                (DepsFirst-Ranks (m ∷ ms) out all first) in
            (q.out, ground (arith, names, edges, full))
      ]
    ]

get-put :
    (j gid : String) (g : Group) (r : Registry)
    → get j (put r gid (some g)) ≡ (if str_eq j gid then ok g else get j r)
unfolding get put
get-put j gid g r = elim (Bool-cases (str_eq j gid)) [
  | inl e ↦ rw (e, get, put) refl
  | inr e ↦ rw (e, get, put) refl
]

-- A group that `Create` accepts is new to the registry, is found there afterwards under its
-- identifier, and has a start order under every order of visiting its members; all other
-- identifiers find what they found before.
pub create-startable :
    (is_group_id : String → Bool) (new_id : Option String) (visit : List String) (g g' : Group)
    (r r' : Registry)
    → IsVisit visit g.members
    → create is_group_id new_id visit g r ≡ ok (r', g')
    → (r g'.id ≡ none)
      × ((j : String) → get j r' ≡ (if str_eq j g'.id then ok g' else get j r))
      × ((visit' : List String)
          → IsVisit visit' g.members
          → (out : List String) × (registry_start_order g'.id visit' r' ≡ ok out))
unfolding create
create-startable is_group_id new_id visit g g' r r' v h =
    elim (Result-cases (assigned_id g is_group_id new_id)) [
      | inr (x, fails) ↦ absurd (ground (arith, fails))
      | inl (gid, named) ↦ elim (Result-cases (start_order visit g.members)) [
        | inr (x, fails) ↦ absurd (ground (arith, named, fails))
        | inl (order, made) ↦
            let same : record g { id = gid } ≡ g' = ground (arith, named, made) in
            let stored : put r gid (some (record g { id = gid })) ≡ r' =
              ground (arith, named, made) in
            let new : r gid ≡ none = ground (arith, named, made) in
            rw (← same, ← stored)
              (
                new,
                λ j. get-put j gid (record g { id = gid }) r,
                λ visit' v'.
                    let (out, found) =
                      start_order-any_visit visit visit' g.members order v v' made in
                    (out, unfold registry_start_order put in ground (arith, eq_iff gid gid, found)),
              )
      ]
    ]
