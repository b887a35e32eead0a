-- ===== src/Profile/Keys.antt =====
-- The key that joins a project and a name in internal/profile/profile.go tells both apart.
use pmmcp.Prelude.{ℕ, ◌≡◌, refl, ap, true, false, [], ◌∷◌, ◌++◌, arith}
use pmmcp.Prelude.Runes.{Runes, contains}
use pmmcp.Profile.{is_name_char, all_name_chars, is_valid_name, profile_key}

contains-split : (c : ℕ) (r s : Runes) → contains c (r ++ c ∷ s) ≡ true
unfolding contains
contains-split c [] s = ground arith
contains-split c (x ∷ r) s = ground (arith, contains-split c r s)

split_at_zero :
    (a b n m : Runes)
    → contains 0 n ≡ false
    → contains 0 m ≡ false
    → a ++ 0 ∷ n ≡ b ++ 0 ∷ m
    → (a ≡ b) × (n ≡ m)
split_at_zero [] [] n m hn hm e = (refl, cc)
split_at_zero [] (y ∷ b) n m hn hm e =
    let same : n ≡ b ++ 0 ∷ m = cc in
    absurd (ground (arith, contains-split 0 b m, ap (contains 0) same))
split_at_zero (x ∷ a) [] n m hn hm e =
    let same : a ++ 0 ∷ n ≡ m = cc in
    absurd (ground (arith, contains-split 0 a n, ap (contains 0) same))
split_at_zero (x ∷ a) (y ∷ b) n m hn hm e =
    let (p, q) = split_at_zero a b n m hn hm (cc) in
    let head : x ≡ y = cc in ((λ i. head i ∷ p i), q)

name_chars-zero : (n : Runes) → all_name_chars n ≡ true → contains 0 n ≡ false
unfolding all_name_chars is_name_char contains
name_chars-zero [] h = refl
name_chars-zero (c ∷ n) h = ground (arith, name_chars-zero n (ground arith))

valid_name-zero : (n : Runes) → is_valid_name n ≡ true → contains 0 n ≡ false
unfolding is_valid_name contains
valid_name-zero [] h = refl
valid_name-zero (c ∷ n) h = ground (arith, name_chars-zero n (ground arith))

-- Two pairs of a project and a valid name with the same key are the same pair.
pub profile_key-injective :
    (a b n m : Runes)
    → is_valid_name n ≡ true
    → is_valid_name m ≡ true
    → profile_key a n ≡ profile_key b m
    → (a ≡ b) × (n ≡ m)
unfolding profile_key
profile_key-injective a b n m hn hm e =
    split_at_zero a b n m (valid_name-zero n hn) (valid_name-zero m hm) e
