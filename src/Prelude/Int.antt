-- ===== src/Prelude/Int.antt =====
-- Go's `int`, `int64` and `time.Duration` as signed integers over the native numbers, under the
-- library's names, with the 64-bit wrap-around written out.
use pmmcp.Prelude.{ℕ, suc, ◌+◌, ◌-◌, ◌*◌, ◌%◌, ◌^◌, ◌<◌, ◌≡◌, Bool, arith, ltb, leb, if◌then◌else◌}

-- `negsuc n` is -(n + 1).
pub data ℤ : Type 0 where
  pos : ℕ → ℤ
  negsuc : ℕ → ℤ

abbrev pub pos_part : ℤ → ℕ
pos_part (pos n) = n
pos_part (negsuc n) = 0

abbrev pub neg_part : ℤ → ℕ
neg_part (pos n) = 0
neg_part (negsuc n) = suc n

abbrev pub ltb_ℤ : ℤ → ℤ → Bool
ltb_ℤ a b = ltb (pos_part a + neg_part b) (pos_part b + neg_part a)

abbrev pub leb_ℤ : ℤ → ℤ → Bool
leb_ℤ a b = leb (pos_part a + neg_part b) (pos_part b + neg_part a)

abbrev pub max_int64 : ℕ
max_int64 = 2 ^ 63 - 1

-- The signed value of the low 64 bits.
unfoldable pub int64 : ℕ → ℤ
int64 x = let r = x % 2 ^ 64 in if ltb r (2 ^ 63) then pos r else negsuc (2 ^ 64 - r - 1)

-- Sum and product of two 64-bit values; the multiple of 2^64 keeps the difference from stopping at 0.
unfoldable pub add64 : ℤ → ℤ → ℤ
add64 a b = int64 (pos_part a + pos_part b + 2 ^ 65 - (neg_part a + neg_part b))

unfoldable pub mul64 : ℤ → ℤ → ℤ
mul64 a b = int64 (
    pos_part a * pos_part b
    + neg_part a * neg_part b
    + 2 ^ 128
    - (pos_part a * neg_part b + neg_part a * pos_part b))

pub int64-small : (n : ℕ) → n < 2 ^ 63 → int64 n ≡ pos n
unfolding int64
int64-small n h = ground arith

pub add64-pos : (a b : ℕ) → a + b < 2 ^ 63 → add64 (pos a) (pos b) ≡ pos (a + b)
unfolding add64 int64
add64-pos a b h = ground arith

pub mul64-pos : (a b : ℕ) → a * b < 2 ^ 63 → mul64 (pos a) (pos b) ≡ pos (a * b)
unfolding mul64 int64
mul64-pos a b h = ground arith
