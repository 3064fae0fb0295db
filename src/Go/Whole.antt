-- ===== src/Go/Whole.antt =====
-- Whole numbers satisfy the laws of ringcache.Go.Float.
use ringcache.Base.{ℕ, ◌+◌, ◌-◌, ◌*◌, ◌/◌, refl, true, arith, ltb, leb, ◌==◌, min}
use ringcache.Base.Int.{pos, pos_part}
use ringcache.Go.Float.{Float}

-- Whole numbers, which need no rounding but in a quotient.
abbrev pub whole : Float ℕ
whole = record {
  zero = 0;
  one = 1;
  thousand = 1000;
  of_nat = λ n. n;
  lt = ltb;
  le = leb;
  eq = λ a b. a == b;
  add = λ a b. a + b;
  sub = λ a b. a - b;
  mul = λ a b. a * b;
  div = λ a b. a / b;
  min = min;
  seconds = λ d. pos_part d / 1000000000;
  ceil = pos;
  finite = λ _. true;
  le_refl = λ a. ground arith;
  le_trans = λ a b c h k. ground arith;
  le_total = λ a b h. ground arith;
  lt-not-le = λ a b. ground arith;
  min_left = λ a b. ground arith;
  min_greatest = λ a b c h k. ground arith;
  add_above = λ a b f h. ground arith;
  mul_positive = λ a b f g h k. ground arith;
  sub_positive = λ a b f h g. ground arith;
  sub_below = λ a b f g h. ground arith;
  sub_apart = λ a b f g h. ground arith;
  finite_between = λ a b h k f. refl;
  finite_zero = refl;
  finite_one = refl;
  one_positive = refl;
  finite_seconds = λ d. refl;
}
