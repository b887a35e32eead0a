-- ===== src/Prelude/Time.antt =====
-- Go's `time.Time` as nanoseconds since the zero Time, which `IsZero` tells, and its differences.
use pmmcp.Prelude.{ℕ, ◌+◌, ◌-◌, Bool, leb, ◌==◌, if◌then◌else◌}
use pmmcp.Prelude.Int.{ℤ, pos, negsuc, pos_part, neg_part, max_int64}

abbrev pub Time : Type 0
Time = ℕ

-- `t.Sub(u)`, which saturates at the ends of a 64-bit Duration.
unfoldable pub time_sub : Time → Time → ℤ
time_sub t u =
    if leb u t
    then pos (if leb (t - u) max_int64 then t - u else max_int64)
    else negsuc (if leb (u - t - 1) max_int64 then u - t - 1 else max_int64)

-- `t.Add(d)`.
unfoldable pub time_add : Time → ℤ → Time
time_add t d = t + pos_part d - neg_part d

abbrev pub is_zero : Time → Bool
is_zero t = t == 0

abbrev pub second : ℤ
second = pos 1000000000
