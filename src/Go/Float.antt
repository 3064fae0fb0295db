-- ===== src/Go/Float.antt =====
-- What the program uses of float64 arithmetic, as an interface: `F` stands for the values other
-- than NaN, and the laws are those of IEEE 754 with rounding. An operation whose result would be
-- NaN is bound by none of them, as the laws ask for finite operands there.
use ringcache.Base.{ℕ, ◌≡◌, Bool, true, false, not}
use ringcache.Base.Int.{ℤ}

pub record Float (F : Type 0) : Type 0 where
  pub zero : F
  pub one : F
  pub thousand : F
  -- A whole constant of the source.
  pub of_nat : ℕ → F
  pub lt : F → F → Bool
  pub le : F → F → Bool
  pub eq : F → F → Bool
  pub add : F → F → F
  pub sub : F → F → F
  pub mul : F → F → F
  pub div : F → F → F
  -- `math.Min`
  pub min : F → F → F
  -- `Duration.Seconds`
  pub seconds : ℤ → F
  -- `int64(math.Ceil(x))`
  pub ceil : F → ℤ
  pub finite : F → Bool
  pub le_refl : (a : F) → le a a ≡ true
  pub le_trans : (a b c : F) → le a b ≡ true → le b c ≡ true → le a c ≡ true
  pub le_total : (a b : F) → le a b ≡ false → le b a ≡ true
  pub lt-not-le : (a b : F) → lt a b ≡ not (le b a)
  pub min_left : (a b : F) → le (min a b) a ≡ true
  pub min_greatest : (a b c : F) → le c a ≡ true → le c b ≡ true → le c (min a b) ≡ true
  pub add_above : (a b : F) → finite a ≡ true → le zero b ≡ true → le a (add a b) ≡ true
  pub mul_positive :
      (a b : F)
      → finite a ≡ true
      → finite b ≡ true
      → le zero a ≡ true
      → le zero b ≡ true
      → le zero (mul a b) ≡ true
  pub sub_positive :
      (a b : F) → finite b ≡ true → le a b ≡ true → finite a ≡ true → le zero (sub b a) ≡ true
  pub sub_below :
      (a b : F) → finite b ≡ true → finite a ≡ true → le zero a ≡ true → le (sub b a) b ≡ true
  -- Gradual underflow: different numbers have a difference other than 0.
  pub sub_apart :
      (a b : F) → finite b ≡ true → finite a ≡ true → lt a b ≡ true → lt zero (sub b a) ≡ true
  pub finite_between :
      (a b : F) → le zero a ≡ true → le a b ≡ true → finite b ≡ true → finite a ≡ true
  pub finite_zero : finite zero ≡ true
  pub finite_one : finite one ≡ true
  pub one_positive : le zero one ≡ true
  pub finite_seconds : (d : ℤ) → finite (seconds d) ≡ true
