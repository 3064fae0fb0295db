-- ===== src/Go/Atoi.antt =====
-- `strconv.Atoi` on an int of 64 bits: a sign, then decimal digits, within the range.
use ringcache.Base.{
  ℕ, zero, suc, ◌^◌, ◌<◌, ◌≡◌, ◌≢◌, refl, Bool, true, false, ◌&&◌, [], ◌∷◌, Option, none, some,
  arith, ltb, leb, ◌==◌, if◌then◌else◌, All,
}
use ringcache.Base.Int.{ℤ, pos, negsuc}
use ringcache.Go.Text.{Text, IsDigit, itoa, value_from, value_from-itoa, itoa-digits, itoa-ne_nil}

unfoldable is_digit : ℕ → Bool
is_digit c = leb b'0' c && leb c b'9'

unfoldable all_digits : Text → Bool
unfolding is_digit
all_digits [] = true
all_digits (c ∷ cs) = is_digit c && all_digits cs

-- Decimal digits, one or more, as a number.
unfoldable digits : Text → Option ℕ
unfolding all_digits value_from
digits [] = none
digits (c ∷ cs) = if all_digits (c ∷ cs) then some (value_from 0 (c ∷ cs)) else none

abbrev of_sign : Bool → Option ℕ → Option ℤ
of_sign negative none = none
of_sign true (some zero) = some (pos 0)
of_sign true (some (suc n)) = if ltb n (2 ^ 63) then some (negsuc n) else none
of_sign false (some n) = if ltb n (2 ^ 63) then some (pos n) else none

-- `none` is an error: no digits, another byte, or out of range.
unfoldable pub atoi : Text → Option ℤ
unfolding digits
atoi [] = none
atoi (c ∷ cs) =
    if c == b'-'
    then of_sign true (digits cs)
    else if c == b'+'
    then of_sign false (digits cs)
    else of_sign false (digits (c ∷ cs))

all_digits-IsDigit : (t : Text) → All IsDigit t → all_digits t ≡ true
unfolding all_digits is_digit
all_digits-IsDigit [] h = refl
all_digits-IsDigit (c ∷ t) h = ground (arith, h.0, all_digits-IsDigit t h.1)

atoi_of_digits :
    (c : ℕ) (t : Text) (n : ℕ)
    → All IsDigit (c ∷ t)
    → value_from 0 (c ∷ t) ≡ n
    → n < 2 ^ 63
    → atoi (c ∷ t) ≡ some (pos n)
unfolding atoi digits
atoi_of_digits c t n h e small = rw (e, all_digits-IsDigit (c ∷ t) h) (ground (arith, h.0))

-- A number below 2^63 is read back from its decimal digits.
pub atoi-itoa : (n : ℕ) → n < 2 ^ 63 → atoi (itoa n) ≡ some (pos n)
atoi-itoa n small = of_text (itoa n) (itoa-ne_nil n) (itoa-digits n) (value_from-itoa n)
  where
    of_text : (t : Text) → t ≢ [] → All IsDigit t → value_from 0 t ≡ n → atoi t ≡ some (pos n)
    of_text [] some_digit h e = absurd (some_digit refl)
    of_text (c ∷ t) some_digit h e = atoi_of_digits c t n h e small
