-- ===== src/Base/Tests.antt =====
-- Boolean tests on the native numbers, the conditional and the case lemmas.
use Prim.Native.Nat.{ℕ, ◌≤◌, ◌<◌, compare, Ordering}
use mathlib.Core.Path.{◌≡◌, refl}
use mathlib.Core.Logic.{◌⊎◌, inl, inr}
use mathlib.Core.Bool.{Bool, true, false}
use mathlib.Core.Option.{Option, none, some}
use native.Mathlib.Omega.{arith}

abbrev pub ltb : ℕ → ℕ → Bool
ltb a b = elim (compare a b) [ Ordering.lt ↦ true | _ ↦ false ]

abbrev pub leb : ℕ → ℕ → Bool
leb a b = elim (compare a b) [ Ordering.gt ↦ false | _ ↦ true ]

infix 50 ◌==◌
abbrev pub ◌==◌ : ℕ → ℕ → Bool
a == b = elim (compare a b) [ Ordering.eq ↦ true | _ ↦ false ]

infix 1 if◌then◌else◌
abbrev pub if◌then◌else◌ {ℓ} : {A : Type ℓ} → Bool → A → A → A
if true then x else y = x
if false then x else y = y

ltb→lt : (a b : ℕ) → ltb a b ≡ true → a < b
ltb→lt a b h = ground arith

pub lt→ltb : (a b : ℕ) → a < b → ltb a b ≡ true
lt→ltb a b h = ground arith

le→ltb : (a b : ℕ) → b ≤ a → ltb a b ≡ false
le→ltb a b h = ground arith

leb→le : (a b : ℕ) → leb a b ≡ true → a ≤ b
leb→le a b h = ground arith

pub Bool-cases : (b : Bool) → (b ≡ true) ⊎ (b ≡ false)
Bool-cases true = inl refl
Bool-cases false = inr refl

pub Option-cases {ℓ} : {A : Type ℓ} (o : Option A) → (o ≡ none) ⊎ ((a : A) × (o ≡ some a))
Option-cases none = inl refl
Option-cases (some a) = inr (a, refl)

pub some_eq {ℓ} : {A : Type ℓ} {a b : A} → some a ≡ some b → a ≡ b
some_eq e = ground arith

-- A property of a value chosen by a decision or a test, from the two choices.
pub by_dec {ℓ κ} :
    {A : Type ℓ} {X : Type κ} (P : A → Type 0) {a b : A} (d : Dec X)
    → (X → P a)
    → (¬ X → P b)
    → P (elim d [ yes _ ↦ a | no _ ↦ b ])
by_dec P (yes x) f g = f x
by_dec P (no n) f g = g n

pub by_if {ℓ} :
    {A : Type ℓ} (P : A → Type 0) {a b : A} (t : Bool)
    → (t ≡ true → P a)
    → (t ≡ false → P b)
    → P (if t then a else b)
by_if P true f g = f refl
by_if P false f g = g refl

pub by_option {ℓ κ} :
    {A : Type ℓ} {X : Type κ} (P : A → Type 0) {f : X → A} {b : A} (o : Option X)
    → ((x : X) → o ≡ some x → P (f x))
    → (o ≡ none → P b)
    → P (elim o [ some x ↦ f x | none ↦ b ])
by_option P none g h = h refl
by_option P (some x) g h = g x refl
