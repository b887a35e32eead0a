-- ===== src/Prelude/Newest.antt =====
-- The newest entries of a list that grows at its end.
use pmmcp.Prelude.{
  ℕ, zero, suc, ◌-◌, ◌≤◌, ◌<◌, ◌≡◌, refl, inl, inr, List, [], ◌∷◌, ◌++◌, arith, leb, Bool-cases,
  length, drop, length-append, length-drop,
}

-- The last entries of a list, at most n of them.
abbrev pub last_n {ℓ} : {A : Type ℓ} → ℕ → List A → List A
last_n n xs = drop (length xs - n) xs

module _ {ℓ} {A : Type ℓ} where
  pub drop-nil : (k : ℕ) → drop {A = A} k [] ≡ []
  drop-nil zero = refl
  drop-nil (suc k) = refl

  drop-append : (k : ℕ) (xs ys : List A) → k ≤ length xs → drop k (xs ++ ys) ≡ drop k xs ++ ys
  drop-append zero xs ys h = refl
  drop-append (suc k) [] ys h = absurd (omega arith)
  drop-append (suc k) (x ∷ xs) ys h = drop-append k xs ys (omega arith)

  drop-one : (k : ℕ) (xs : List A) → drop 1 (drop k xs) ≡ drop (suc k) xs
  drop-one zero xs = refl
  drop-one (suc k) [] = refl
  drop-one (suc k) (x ∷ xs) = drop-one k xs

  pub drop-zero : (k : ℕ) (xs : List A) → k ≡ 0 → drop k xs ≡ xs
  drop-zero k xs e = rw e

  -- The newest entries of a history that grows by one are found from the newest ones before.
  pub last_n-snoc :
      (n : ℕ) (xs : List A) (x : A)
      → 0 < n
      → last_n n (last_n n xs ++ x ∷ []) ≡ last_n n (xs ++ x ∷ [])
  last_n-snoc n xs x pos_n = elim (Bool-cases (leb n (length xs))) [
    | inr short ↦
        let none_lost : last_n n xs ≡ xs = drop-zero (length xs - n) xs (ground arith) in
        rw none_lost
    | inl full ↦
        let k = length xs - n in
        let e1 : length (drop k xs ++ x ∷ []) - n ≡ 1 =
          ground (arith, length-append (drop k xs) (x ∷ []), length-drop k xs) in
        let e2 : length (xs ++ x ∷ []) - n ≡ suc k = ground (arith, length-append xs (x ∷ [])) in
        rw (
          e1,
          e2,
          drop-append (suc k) xs (x ∷ []) (ground arith),
          drop-append 1 (drop k xs) (x ∷ []) (ground (arith, length-drop k xs)),
          drop-one k xs,
        )
  ]
