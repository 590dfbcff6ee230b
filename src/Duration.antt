-- ===== src/Duration.antt =====
-- `time.Duration(n) * time.Second`, which the `PostLoad` methods of several configurations compute:
-- a multiplication of `int64`, in nanoseconds.
use nacelle.Prelude.{
  ℕ, suc, ◌-◌, ◌*◌, ◌≤◌, ◌≡◌, arith, ltb, if◌then◌else◌, ℤ, pos, negsuc, string_comparable,
  nat_comparable, int_comparable, bytes_comparable,
}
use Prim.Native.Nat.{◌%◌, ◌^◌}

-- The `int64` with the lower 64 bits of a number.
unfoldable pub int_64 : ℕ → ℤ
int_64 n = if ltb (n % 2 ^ 64) (2 ^ 63) then pos (n % 2 ^ 64) else negsuc (2 ^ 64 - 1 - n % 2 ^ 64)

unfoldable pub seconds : ℤ → ℤ
unfolding int_64
seconds (pos n) = int_64 (n * 1000000000)
seconds (negsuc n) = int_64 (2 ^ 64 - suc n * 1000000000 % 2 ^ 64)

-- The most seconds that do not overflow.
abbrev pub max_seconds : ℕ
max_seconds = 9223372036

pub seconds_lem : (n : ℕ) → n ≤ max_seconds → seconds (pos n) ≡ pos (n * 1000000000)
unfolding seconds
seconds_lem n h = ground arith
