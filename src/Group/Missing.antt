-- ===== src/Group/Missing.antt =====
-- How many dependencies of a member have not started: what `indegree` of `startOrder` counts.
use pmmcp.Prelude.{
  ℕ, suc, ◌+◌, ◌<◌, String, ◌≡◌, inl, inr, List, [], ◌∷◌, ◌++◌, arith, eq_iff, ◌==◌, if◌then◌else◌,
  Bool-cases,
}
use pmmcp.Prelude.Occurs.{occ, occ-append, occ-one, occ_self}

-- How many of the entries ds are not in the list.
unfoldable pub missing : List String → List String → ℕ
missing out [] = 0
missing out (d ∷ ds) = let n = missing out ds in if occ d out == 0 then suc n else n

-- One more entry in the list is missing no longer.
pub missing-snoc :
    (out : List String) (n : String) (ds : List String)
    → occ n out ≡ 0
    → missing out ds ≡ missing (out ++ n ∷ []) ds + occ n ds
unfolding missing occ
missing-snoc out n [] h = omega arith
missing-snoc out n (d ∷ ds) h =
    ground (
      arith,
      missing-snoc out n ds h,
      occ-append d out (n ∷ []),
      occ-one d n,
      eq_iff d n,
      eq_iff n d,
    )

pub missing-zero :
    (out ds : List String) (d : String) → missing out ds ≡ 0 → 0 < occ d ds → 0 < occ d out
unfolding missing occ
missing-zero out [] d h k = absurd (omega arith)
missing-zero out (x ∷ ds) d h k = ground (arith, eq_iff d x, missing-zero out ds d)

-- If some are missing, one of them is.
pub missing-some :
    (out ds : List String) → 0 < missing out ds → (d : String) × (0 < occ d ds) × (occ d out ≡ 0)
unfolding missing occ
missing-some out [] h = absurd (omega arith)
missing-some out (x ∷ ds) h = elim (Bool-cases (occ x out == 0)) [
  | inl gone ↦ (x, omega (arith, occ_self x ds), ground arith)
  | inr there ↦ let (d, k, e) = missing-some out ds (ground (arith, there)) in (d, ground arith, e)
]
