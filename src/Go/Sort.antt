-- ===== src/Go/Sort.antt =====
-- `sort.Slice` and `sort.Strings`: sorting by a strict Boolean order. The orders in use tell all
-- unequal entries apart, so the result is the only sorted arrangement, whichever algorithm runs.
use mathlib.Core.List.{Perm, is_set}
use mathlib.Core.List.Permᴰ.{Permᴰ}
use mathlib.Core.Logic.{∥∥₁_elim}
use ringcache.Base.{
  suc, ◌≡◌, refl, ◌∙◌, ap, ap₂, Bool, true, false, List, [], ◌∷◌, arith, length, filter_by,
  if◌then◌else◌, All, All-filter_by, Bool-cases, inl, inr,
}

-- What `less` must be: a strict linear order, as Boolean tests.
pub record IsOrder {ℓ} {A : Type ℓ} (less : A → A → Bool) : Type ℓ where
  pub asymm : (a b : A) → less a b ≡ true → less b a ≡ false
  pub trans : (a b c : A) → less b a ≡ false → less c b ≡ false → less c a ≡ false
  pub antisymm : (a b : A) → less a b ≡ false → less b a ≡ false → a ≡ b

module _ {ℓ} {A : Type ℓ} (less : A → A → Bool) where
  unfoldable pub insert : A → List A → List A
  insert x [] = x ∷ []
  insert x (y ∷ ys) = if less y x then y ∷ insert x ys else x ∷ y ∷ ys

  unfoldable pub sort : List A → List A
  sort [] = []
  sort (x ∷ xs) = insert x (sort xs)

  -- Nothing in the list is less than `x`.
  abbrev pub NotAbove : A → List A → Type 0
  NotAbove x = All (λ y. less y x ≡ false)

  abbrev pub IsSorted : List A → Type 0
  IsSorted [] = Unit
  IsSorted (x ∷ xs) = NotAbove x xs × IsSorted xs

  length-insert : (x : A) (xs : List A) → length (insert x xs) ≡ suc (length xs)
  unfolding insert
  length-insert x [] = refl
  length-insert x (y ∷ ys) = ground (arith, length-insert x ys)

  pub length-sort : (xs : List A) → length (sort xs) ≡ length xs
  unfolding sort
  length-sort [] = refl
  length-sort (x ∷ xs) = length-insert x (sort xs) ∙ ap suc (length-sort xs)

  All-insert {κ} : (P : A → Type κ) (x : A) (xs : List A) → P x → All P xs → All P (insert x xs)
  unfolding insert
  All-insert P x [] h k = (h, tt)
  All-insert P x (y ∷ ys) h k = elim (Bool-cases (less y x)) [
    | inl e ↦ rw (e, insert) (k.0, All-insert P x ys h k.1)
    | inr e ↦ rw (e, insert) (h, k)
  ]

  pub All-sort {κ} : (P : A → Type κ) (xs : List A) → All P xs → All P (sort xs)
  unfolding sort
  All-sort P [] h = h
  All-sort P (x ∷ xs) h = All-insert P x (sort xs) h.0 (All-sort P xs h.1)

module _ {ℓ} {A : Type ℓ} {less : A → A → Bool} (o : IsOrder less) where
  NotAbove-trans :
      (x y : A) (ys : List A) → less y x ≡ false → NotAbove less y ys → NotAbove less x ys
  NotAbove-trans x y [] e h = tt
  NotAbove-trans x y (z ∷ zs) e h = (o.trans x y z e h.0, NotAbove-trans x y zs e h.1)

  insert-IsSorted : (x : A) (xs : List A) → IsSorted less xs → IsSorted less (insert less x xs)
  unfolding insert
  insert-IsSorted x [] h = (tt, tt)
  insert-IsSorted x (y ∷ ys) h = elim (Bool-cases (less y x)) [
    | inl e ↦
        rw (e, insert)
          (
            All-insert less (λ z. less z y ≡ false) x ys (o.asymm y x e) h.0,
            insert-IsSorted x ys h.1,
          )
    | inr e ↦ rw (e, insert) ((e, NotAbove-trans x y ys e h.0), h)
  ]

  pub sort-IsSorted : (xs : List A) → IsSorted less (sort less xs)
  unfolding sort
  sort-IsSorted [] = tt
  sort-IsSorted (x ∷ xs) = insert-IsSorted x (sort less xs) (sort-IsSorted xs)

  insert_comm :
      (x y : A) (zs : List A) → insert less x (insert less y zs) ≡ insert less y (insert less x zs)
  unfolding insert
  insert_comm x y [] = ground (arith, o.asymm x y, o.asymm y x, o.antisymm x y)
  insert_comm x y (z ∷ zs) = ground (
    arith,
    insert_comm x y zs,
    o.asymm x y,
    o.asymm y x,
    o.antisymm x y,
    o.trans x y z,
    o.trans y x z,
    o.asymm z x,
    o.asymm z y,
    o.trans z x y,
    o.trans z y x,
  )

  sort_permᴰ : {xs ys : List A} → Permᴰ xs ys → sort less xs ≡ sort less ys
  unfolding sort
  sort_permᴰ Permᴰ.nil = refl
  sort_permᴰ (Permᴰ.cons e d) = ap₂ (insert less) e (sort_permᴰ d)
  sort_permᴰ (Permᴰ.swap {a} {b} {l} e f) = rw (← e, ← f) (insert_comm a b (sort less l))
  sort_permᴰ (Permᴰ.trans d e) = sort_permᴰ d ∙ sort_permᴰ e

  insert_first : (x : A) (xs : List A) → NotAbove less x xs → insert less x xs ≡ x ∷ xs
  unfolding insert
  insert_first x [] h = refl
  insert_first x (y ∷ ys) h = ground arith

  -- Dropping entries before or after sorting is the same.
  filter_by-insert :
      (p : A → Bool) (x : A) (xs : List A)
      → IsSorted less xs
      → filter_by p (insert less x xs)
        ≡ (if p x then insert less x (filter_by p xs) else filter_by p xs)
  unfolding insert
  filter_by-insert p x [] h = ground arith
  filter_by-insert p x (y ∷ ys) h = ground (
    arith,
    filter_by-insert p x ys h.1,
    λ (e : less y x ≡ false).
        insert_first x (filter_by p ys)
          (All-filter_by (λ z. less z x ≡ false) p ys (NotAbove-trans x y ys e h.0)),
  )

  pub filter_by-sort :
      (p : A → Bool) (xs : List A) → filter_by p (sort less xs) ≡ sort less (filter_by p xs)
  unfolding sort
  filter_by-sort p [] = refl
  filter_by-sort p (x ∷ xs) =
      ground (arith, filter_by-insert p x (sort less xs) (sort-IsSorted xs), filter_by-sort p xs)

  -- The order of the input does not matter.
  pub sort_perm : IsSet A → {xs ys : List A} → Perm xs ys → sort less xs ≡ sort less ys
  sort_perm s p = ∥∥₁_elim p (is_set s _ _) sort_permᴰ
