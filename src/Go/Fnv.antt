-- ===== src/Go/Fnv.antt =====
-- `hash/fnv`: the 32-bit FNV-1a hash of a byte string.
use ringcache.Base.{ℕ, ◌*◌, ◌%◌, ◌^◌, ◌<◌, bit_xor, [], ◌∷◌, arith}
use ringcache.Go.Text.{Text}

sum_from : ℕ → Text → ℕ
sum_from h [] = h
sum_from h (c ∷ cs) = sum_from ((bit_xor h c * 16777619) % 2 ^ 32) cs

unfoldable pub sum32a : Text → ℕ
unfolding sum_from
sum32a s = sum_from 2166136261 s

sum_from-lt : (h : ℕ) (s : Text) → h < 2 ^ 32 → sum_from h s < 2 ^ 32
unfolding sum_from
sum_from-lt h [] lt = lt
sum_from-lt h (c ∷ cs) lt = sum_from-lt ((bit_xor h c * 16777619) % 2 ^ 32) cs (omega arith)

-- The hash is a 32-bit word.
sum32a-lt : (s : Text) → sum32a s < 2 ^ 32
unfolding sum32a
sum32a-lt s = sum_from-lt 2166136261 s (omega arith)
