-- ===== src/Event/Truncate.antt =====
-- The cut of a message to the payload cap.
use pmmcp.Prelude.{
  ℕ, zero, suc, ◌+◌, ◌≤◌, ◌<◌, ◌≡◌, refl, ap, ◌∙◌, ◌⊎◌, inl, inr, true, false, ◌++◌, arith, ◌==◌,
  Bool-cases, length, take, get_or, length-append, length-take,
}
use pmmcp.Prelude.Int.{pos}
use pmmcp.Event.{Bytes, trunc_marker, utf8_rune_start, rune_cut, truncate}

rune_cut-le : (s : Bytes) (n : ℕ) → rune_cut s n ≤ n
unfolding rune_cut
rune_cut-le s zero = omega arith
rune_cut-le s (suc n) = ground (arith, rune_cut-le s n)

-- The cut is at the start of the text or before the first byte of a rune.
rune_cut-start :
    (s : Bytes) (n : ℕ) → (rune_cut s n ≡ 0) ⊎ (utf8_rune_start (get_or s (rune_cut s n) 0) ≡ true)
unfolding rune_cut
rune_cut-start s zero = inl refl
rune_cut-start s (suc n) = elim (Bool-cases (utf8_rune_start (get_or s (suc n) 0))) [
  | inl start ↦ rw (start, rune_cut) (inr start)
  | inr inner ↦ rw (inner, rune_cut) (rune_cut-start s n)
]

-- No rune begins between the cut and the cap, so the cut loses at most the rune that the cap splits.
rune_cut-greatest :
    (s : Bytes) (n i : ℕ) → rune_cut s n < i → i ≤ n → utf8_rune_start (get_or s i 0) ≡ false
unfolding rune_cut
rune_cut-greatest s zero i h k = absurd (omega arith)
rune_cut-greatest s (suc n) i h k = elim (Bool-cases (utf8_rune_start (get_or s (suc n) 0))) [
  | inl start ↦ absurd (ground (arith, start))
  | inr inner ↦ elim (Bool-cases (i == suc n)) [
    | inl top ↦ let e : i ≡ suc n = ground arith in rw e inner
    | inr low ↦ rune_cut-greatest s n i (ground (arith, inner)) (ground arith)
  ]
]

-- A message within the cap is stored as it is. A longer one is stored as its longest prefix of at
-- most the cap that does not split a rune, with the marker behind it: the prefix ends at the start
-- of the text or just before the first byte of a rune, and no rune begins after it up to the cap.
pub truncate_lem :
    (s : Bytes) (m : ℕ)
    → 0 < m
    → (length s ≤ m → truncate s (pos m) ≡ s)
      × (m < length s
          → (cut : ℕ) × (truncate s (pos m) ≡ take cut s ++ trunc_marker)
            × (cut ≤ m)
            × (length (truncate s (pos m)) ≡ cut + 14)
            × ((cut ≡ 0) ⊎ (utf8_rune_start (get_or s cut 0) ≡ true))
            × ((i : ℕ) → cut < i → i ≤ m → utf8_rune_start (get_or s i 0) ≡ false))
unfolding truncate
truncate_lem s m h = (
  λ short. ground arith,
  λ long. (
    rune_cut s m,
    cut_to long,
    rune_cut-le s m,
    ap length (cut_to long)
        ∙ omega (
          arith,
          length-append (take (rune_cut s m) s) trunc_marker,
          length-take (rune_cut s m) s,
          rune_cut-le s m,
        ),
    rune_cut-start s m,
    rune_cut-greatest s m,
  ),
)
  where
    cut_to : m < length s → truncate s (pos m) ≡ take (rune_cut s m) s ++ trunc_marker
    cut_to long = unfold truncate in ground arith
