-- ===== src/Go/Words.antt =====
-- Go's fixed-width integers: a uint64 counter and int64 values with their wrap-around.
use ringcache.Base.{ℕ, ◌+◌, ◌-◌, ◌%◌, ◌^◌, ltb, if◌then◌else◌}
use ringcache.Base.Int.{ℤ, pos, negsuc, ◌*ℤ◌}

-- `c++` on a uint64.
unfoldable pub inc64 : ℕ → ℕ
inc64 c = (c + 1) % 2 ^ 64

-- The int64 with the bit pattern `n`.
unfoldable pub of_bits : ℕ → ℤ
of_bits n = if ltb n (2 ^ 63) then pos n else negsuc (2 ^ 64 - n - 1)

-- The low 64 bits of an integer, read as an int64.
unfoldable pub wrap64 : ℤ → ℤ
unfolding of_bits
wrap64 (pos n) = of_bits (n % 2 ^ 64)
wrap64 (negsuc n) = of_bits (2 ^ 64 - 1 - n % 2 ^ 64)

-- `a * b` on int64.
unfoldable pub mul64 : ℤ → ℤ → ℤ
unfolding wrap64 ◌*ℤ◌
mul64 a b = wrap64 (a *ℤ b)
