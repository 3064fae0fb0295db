-- ===== src/Go/Text.antt =====
-- Go strings: sequences of bytes, compared byte by byte; `strconv.Itoa` on a non-negative int.
use mathlib.Core.HLevel.{hedberg}
use ringcache.Base.{
  ℕ, zero, suc, ◌+◌, ◌-◌, ◌*◌, ◌/◌, ◌%◌, ◌≤◌, ◌<◌, ◌≡◌, refl, ap, ap₂, sym, subst, Bool, true,
  false, List, [], ◌∷◌, ◌++◌, arith, ltb, ◌==◌, if◌then◌else◌, ℕ_discrete, All, All-append, ◌≢◌,
}
use ringcache.Go.Sort.{IsOrder}

-- The bytes of a string.
abbrev pub Text : Type 0
Text = List ℕ

cons-eq : {x y : ℕ} {xs ys : Text} → x ∷ xs ≡ y ∷ ys → (x ≡ y) × (xs ≡ ys)
cons-eq e = ground arith

nil-ne-cons : {y : ℕ} {ys : Text} → [] ≡ y ∷ ys → ⊥
nil-ne-cons e = cc

unfoldable pub text_dec : Discrete Text
unfolding ℕ_discrete cons-eq nil-ne-cons
text_dec [] [] = yes refl
text_dec [] (y ∷ ys) = no nil-ne-cons
text_dec (x ∷ xs) [] = no (λ e. nil-ne-cons (sym e))
text_dec (x ∷ xs) (y ∷ ys) =
    let rest = text_dec xs ys in
    elim (ℕ_discrete x y) [
      | no n ↦ no (λ e. n (cons-eq e).0)
      | yes p ↦ elim rest [ no n ↦ no (λ e. n (cons-eq e).1) | yes q ↦ yes (ap₂ ◌∷◌ p q) ]
    ]

pub Text-set : IsSet Text
Text-set = hedberg text_dec

-- `a < b` on strings.
unfoldable pub text_ltb : Text → Text → Bool
text_ltb [] [] = false
text_ltb [] (y ∷ ys) = true
text_ltb (x ∷ xs) [] = false
text_ltb (x ∷ xs) (y ∷ ys) = if x == y then text_ltb xs ys else ltb x y

text_asymm : (a b : Text) → text_ltb a b ≡ true → text_ltb b a ≡ false
unfolding text_ltb
text_asymm [] [] h = refl
text_asymm [] (y ∷ ys) h = refl
text_asymm (x ∷ xs) [] h = cc
text_asymm (x ∷ xs) (y ∷ ys) h = ground (arith, text_asymm xs ys)

text_trans : (a b c : Text) → text_ltb b a ≡ false → text_ltb c b ≡ false → text_ltb c a ≡ false
unfolding text_ltb
text_trans [] b [] h k = refl
text_trans [] [] (z ∷ zs) h k = refl
text_trans [] (y ∷ ys) (z ∷ zs) h k = refl
text_trans (x ∷ xs) [] c h k = cc
text_trans (x ∷ xs) (y ∷ ys) [] h k = cc
text_trans (x ∷ xs) (y ∷ ys) (z ∷ zs) h k = ground (arith, text_trans xs ys zs)

text_antisymm : (a b : Text) → text_ltb a b ≡ false → text_ltb b a ≡ false → a ≡ b
unfolding text_ltb
text_antisymm [] [] h k = refl
text_antisymm [] (y ∷ ys) h k = cc
text_antisymm (x ∷ xs) [] h k = cc
text_antisymm (x ∷ xs) (y ∷ ys) h k = ground (arith, text_antisymm xs ys)

pub text_ltb-IsOrder : IsOrder text_ltb
text_ltb-IsOrder = record { asymm = text_asymm; trans = text_trans; antisymm = text_antisymm }

-- The decimal digits of `n`. A number below `fuel` has its digits within the fuel.
itoa_fuel : ℕ → ℕ → Text
itoa_fuel zero n = []
itoa_fuel (suc fuel) n =
    let rest = itoa_fuel fuel (n / 10) in
    if ltb n 10 then (b'0' + n) ∷ [] else rest ++ (b'0' + n % 10) ∷ []

unfoldable pub itoa : ℕ → Text
unfolding itoa_fuel
itoa n = itoa_fuel (suc n) n

-- The number that decimal digits stand for.
unfoldable pub value_from : ℕ → Text → ℕ
value_from acc [] = acc
value_from acc (c ∷ cs) = value_from (10 * acc + (c - b'0')) cs

value_from-append :
    (acc : ℕ) (xs ys : Text) → value_from acc (xs ++ ys) ≡ value_from (value_from acc xs) ys
unfolding value_from
value_from-append acc [] ys = refl
value_from-append acc (c ∷ cs) ys = value_from-append (10 * acc + (c - b'0')) cs ys

value_from-itoa_fuel : (fuel n : ℕ) → n < fuel → value_from 0 (itoa_fuel fuel n) ≡ n
unfolding itoa_fuel value_from
value_from-itoa_fuel zero n h = elim h [ ]
value_from-itoa_fuel (suc fuel) n h = ground (
  arith,
  value_from-itoa_fuel fuel (n / 10),
  value_from-append 0 (itoa_fuel fuel (n / 10)) ((b'0' + n % 10) ∷ []),
)

pub itoa_injective : (m n : ℕ) → itoa m ≡ itoa n → m ≡ n
unfolding itoa
itoa_injective m n e = omega (
  arith,
  ap (value_from 0) e,
  value_from-itoa_fuel (suc m) m (omega arith),
  value_from-itoa_fuel (suc n) n (omega arith),
)

-- A byte from `0` to `9`.
abbrev pub IsDigit : ℕ → Type 0
IsDigit c = (b'0' ≤ c) × (c ≤ b'9')

itoa_fuel-digits : (fuel n : ℕ) → All IsDigit (itoa_fuel fuel n)
unfolding itoa_fuel
itoa_fuel-digits zero n = tt
itoa_fuel-digits (suc fuel) n = ground (
  arith,
  itoa_fuel-digits fuel (n / 10),
  All-append IsDigit (itoa_fuel fuel (n / 10)) ((b'0' + n % 10) ∷ []),
)

pub itoa-digits : (n : ℕ) → All IsDigit (itoa n)
unfolding itoa
itoa-digits n = itoa_fuel-digits (suc n) n

snoc-ne_nil : (xs : Text) (x : ℕ) → xs ++ x ∷ [] ≢ []
snoc-ne_nil [] x e = cc
snoc-ne_nil (y ∷ xs) x e = cc

pub itoa-ne_nil : (n : ℕ) → itoa n ≢ []
unfolding itoa itoa_fuel
itoa-ne_nil n e = ground (arith, snoc-ne_nil (itoa_fuel n (n / 10)) (b'0' + n % 10))

pub value_from-itoa : (n : ℕ) → value_from 0 (itoa n) ≡ n
unfolding itoa
value_from-itoa n = value_from-itoa_fuel (suc n) n (omega arith)

no_separator : (sep : ℕ) (b y : Text) → All (λ c. c ≢ sep) (b ++ sep ∷ y) → ⊥
no_separator sep [] y h = h.0 refl
no_separator sep (c ∷ b) y h = no_separator sep b y h.1

-- A byte that neither suffix holds splits a text in one way.
pub split_unique :
    (sep : ℕ) (a b x y : Text)
    → All (λ c. c ≢ sep) x
    → All (λ c. c ≢ sep) y
    → a ++ sep ∷ x ≡ b ++ sep ∷ y
    → (a ≡ b) × (x ≡ y)
split_unique sep [] [] x y hx hy e = (refl, (cons-eq e).1)
split_unique sep [] (c ∷ b) x y hx hy e =
    absurd (no_separator sep b y (subst (All (λ c. c ≢ sep)) (cons-eq e).1 hx))
split_unique sep (c ∷ a) [] x y hx hy e =
    absurd (no_separator sep a x (subst (All (λ c. c ≢ sep)) (sym (cons-eq e).1) hy))
split_unique sep (c ∷ a) (d ∷ b) x y hx hy e =
    let (same, rest) = split_unique sep a b x y hx hy (cons-eq e).1 in
    (ap₂ ◌∷◌ (cons-eq e).0 same, rest)
