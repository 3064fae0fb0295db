-- ===== src/Base/Maps.antt =====
-- Sets as lists and maps as association lists, over keys with a decidable equality.
use Prim.Native.Nat.{suc, ◌≤◌}
use mathlib.Core.Path.{◌≡◌, refl, sym, ◌∙◌, subst}
use mathlib.Core.Logic.{◌≢◌}
use mathlib.Core.Bool.{Bool, true, false, not, ◌&&◌, ◌||◌, false≢true}
use mathlib.Core.List.{List, [], ◌∷◌, ◌++◌, map}
use mathlib.Core.Option.{Option, none, some}
use native.Mathlib.Omega.{arith}
use ringcache.Base.Lists.{length, All}

module _ {ℓ} {K : Type ℓ} (dec : Discrete K) where
  unfoldable pub contains : K → List K → Bool
  contains k [] = false
  contains k (j ∷ js) = elim (dec j k) [ yes _ ↦ true | no _ ↦ contains k js ]

  unfoldable pub erase : K → List K → List K
  erase k [] = []
  erase k (j ∷ js) = elim (dec j k) [ yes _ ↦ erase k js | no _ ↦ j ∷ erase k js ]

  -- No key stands twice.
  abbrev pub Distinct : List K → Type 0
  Distinct [] = Unit
  Distinct (j ∷ js) = (contains j js ≡ false) × Distinct js

  pub contains-erase_self : (k : K) (js : List K) → contains k (erase k js) ≡ false
  unfolding contains erase
  contains-erase_self k [] = refl
  contains-erase_self k (j ∷ js) = ground (arith, contains-erase_self k js)

  pub contains-erase_ne : (k i : K) (js : List K) → i ≢ k → contains i (erase k js) ≡ contains i js
  unfolding contains erase
  contains-erase_ne k i [] h = refl
  contains-erase_ne k i (j ∷ js) h = ground (arith, contains-erase_ne k i js)

  pub contains_of_erase :
      (k i : K) (js : List K) → contains i js ≡ false → contains i (erase k js) ≡ false
  unfolding contains erase
  contains_of_erase k i [] h = refl
  contains_of_erase k i (j ∷ js) h = ground (arith, contains_of_erase k i js)

  pub erase-Distinct : (k : K) (js : List K) → Distinct js → Distinct (erase k js)
  unfolding erase
  erase-Distinct k [] h = h
  erase-Distinct k (j ∷ js) h = ground (arith, contains_of_erase k j js, erase-Distinct k js h.1)

  pub erase_absent : (k : K) (js : List K) → contains k js ≡ false → erase k js ≡ js
  unfolding contains erase
  erase_absent k [] h = refl
  erase_absent k (j ∷ js) h = ground (arith, erase_absent k js)

  length-erase-le : (k : K) (js : List K) → length (erase k js) ≤ length js
  unfolding erase
  length-erase-le k [] = omega arith
  length-erase-le k (j ∷ js) = ground (arith, length-erase-le k js)

  pub length-erase-lt :
      (k : K) (js : List K) → contains k js ≡ true → suc (length (erase k js)) ≤ length js
  unfolding contains erase
  length-erase-lt k [] h = cc
  length-erase-lt k (j ∷ js) h = ground (arith, length-erase-lt k js, length-erase-le k js)

  length-erase :
      (k : K) (js : List K)
      → Distinct js
      → contains k js ≡ true
      → suc (length (erase k js)) ≡ length js
  unfolding contains erase
  length-erase k [] d h = cc
  length-erase k (j ∷ js) d h = ground (arith, length-erase k js d.1, erase_absent k js)

  -- Distinct keys that all stand in another list are at most as many.
  length-le_of_subset :
      (ks js : List K)
      → Distinct ks
      → ((k : K) → contains k ks ≡ true → contains k js ≡ true)
      → length ks ≤ length js
  unfolding contains
  length-le_of_subset [] js d h = omega arith
  length-le_of_subset (k ∷ ks) js d h = omega (
    arith,
    length-erase-lt k js (h k (ground arith)),
    length-le_of_subset ks (erase k js) d.1 kept,
  )
    where
      kept : (i : K) → contains i ks ≡ true → contains i (erase k js) ≡ true
      kept i m = elim (dec k i) [
        | yes p ↦ absurd (false≢true (sym d.0 ∙ rw p m))
        | no n ↦ contains-erase_ne k i js (λ e. n (sym e)) ∙ h i (ground arith)
      ]

  pub length-eq_of_same :
      (ks js : List K)
      → Distinct ks
      → Distinct js
      → ((k : K) → contains k ks ≡ contains k js)
      → length ks ≡ length js
  length-eq_of_same ks js d e h = omega (
    arith,
    length-le_of_subset ks js d (λ k m. sym (h k) ∙ m),
    length-le_of_subset js ks e (λ k m. h k ∙ m),
  )

  pub contains-append :
      (k : K) (is js : List K) → contains k (is ++ js) ≡ (contains k is || contains k js)
  unfolding contains
  contains-append k [] js = refl
  contains-append k (i ∷ is) js = ground (arith, contains-append k is js)

  -- The first occurrences of the keys that `seen` does not hold.
  unfoldable pub fresh : List K → List K → List K
  fresh seen [] = []
  fresh seen (k ∷ ks) = elim (contains k seen) [
    | true ↦ fresh seen ks
    | false ↦ k ∷ fresh (k ∷ seen) ks
  ]

  pub contains-fresh :
      (k : K) (seen ks : List K)
      → contains k (fresh seen ks) ≡ (contains k ks && not (contains k seen))
  unfolding contains fresh
  contains-fresh k seen [] = refl
  contains-fresh k seen (j ∷ ks) =
      ground (arith, contains-fresh k seen ks, contains-fresh k (j ∷ seen) ks)

  pub fresh-Distinct : (seen ks : List K) → Distinct (fresh seen ks)
  unfolding contains fresh
  fresh-Distinct seen [] = tt
  fresh-Distinct seen (k ∷ ks) =
      ground (
        arith,
        fresh-Distinct seen ks,
        fresh-Distinct (k ∷ seen) ks,
        contains-fresh k (k ∷ seen) ks,
      )

  -- What holds of every entry holds of one that is there.
  pub All-contains {κ} :
      (P : K → Type κ) (k : K) (js : List K) → contains k js ≡ true → All P js → P k
  unfolding contains
  All-contains P k [] m h = absurd (false≢true m)
  All-contains P k (j ∷ js) m h = elim (dec j k) [
    | yes e ↦ subst P e h.0
    | no n ↦ All-contains P k js (ground arith) h.1
  ]

  pub All-of_contains {κ} :
      (P : K → Type κ) (js : List K) → ((k : K) → contains k js ≡ true → P k) → All P js
  unfolding contains
  All-of_contains P [] f = tt
  All-of_contains P (j ∷ js) f =
      (f j (ground arith), All-of_contains P js (λ k m. f k (ground arith)))

  SameBut : K → List K → List K → Type ℓ
  SameBut k is js = (i : K) → i ≢ k → contains i is ≡ contains i js

  SameBut-skip : (k : K) (is js : List K) → SameBut k is js → SameBut k is (k ∷ js)
  unfolding SameBut contains
  SameBut-skip k is js h i n = ground (arith, h i n, λ (e : k ≡ i). n (sym e))

  SameBut-cons : (k j : K) (is js : List K) → SameBut k is js → SameBut k (j ∷ is) (j ∷ js)
  unfolding SameBut contains
  SameBut-cons k j is js h i n = ground (arith, h i n)

  -- To drop a key before or after is the same, whether or not it counts as seen.
  fresh-erase_of_same :
      (k : K) (is js ks : List K) → SameBut k is js → fresh is (erase k ks) ≡ erase k (fresh js ks)
  unfolding erase fresh SameBut
  fresh-erase_of_same k is js [] h = refl
  fresh-erase_of_same k is js (j ∷ ks) h = elim (dec j k) [
    | yes p ↦ ground (
      arith,
      fresh-erase_of_same k is js ks h,
      fresh-erase_of_same k is (j ∷ js) ks (rw p (SameBut-skip k is js h)),
    )
    | no n ↦ ground (
      arith,
      h j n,
      fresh-erase_of_same k is js ks h,
      fresh-erase_of_same k (j ∷ is) (j ∷ js) ks (SameBut-cons k j is js h),
    )
  ]

  pub fresh-erase : (k : K) (ks : List K) → fresh [] (erase k ks) ≡ erase k (fresh [] ks)
  unfolding SameBut
  fresh-erase k ks = fresh-erase_of_same k [] [] ks (λ i n. refl)

  pub fresh-erase_seen : (k : K) (ks : List K) → fresh (k ∷ []) (erase k ks) ≡ erase k (fresh [] ks)
  unfolding SameBut contains
  fresh-erase_seen k ks =
      fresh-erase_of_same k (k ∷ []) [] ks (λ i n. ground (arith, λ (e : k ≡ i). n (sym e)))

abbrev pub is_some {ℓ} : {A : Type ℓ} → Option A → Bool
is_some none = false
is_some (some a) = true

abbrev pub keys {ℓ κ} : {K : Type ℓ} {V : Type κ} → List (K × V) → List K
keys = map (λ e. e.0)

-- Maps: a key stands once if `put` and `delete` alone build the map.
module _ {ℓ κ} {K : Type ℓ} {V : Type κ} (dec : Discrete K) where
  unfoldable pub lookup : K → List (K × V) → Option V
  lookup k [] = none
  lookup k ((j, v) ∷ m) = elim (dec j k) [ yes _ ↦ some v | no _ ↦ lookup k m ]

  unfoldable pub delete : K → List (K × V) → List (K × V)
  delete k [] = []
  delete k ((j, v) ∷ m) = elim (dec j k) [ yes _ ↦ delete k m | no _ ↦ (j, v) ∷ delete k m ]

  unfoldable pub put : K → V → List (K × V) → List (K × V)
  put k v m = (k, v) ∷ delete k m

  pub lookup-delete_self : (k : K) (m : List (K × V)) → lookup k (delete k m) ≡ none
  unfolding lookup delete
  lookup-delete_self k [] = refl
  lookup-delete_self k ((j, v) ∷ m) = ground (arith, lookup-delete_self k m)

  pub lookup-delete_ne : (k j : K) (m : List (K × V)) → k ≢ j → lookup j (delete k m) ≡ lookup j m
  unfolding lookup delete
  lookup-delete_ne k j [] h = refl
  lookup-delete_ne k j ((i, v) ∷ m) h = ground (arith, lookup-delete_ne k j m h)

  pub delete_absent : (k : K) (m : List (K × V)) → lookup k m ≡ none → delete k m ≡ m
  unfolding lookup delete
  delete_absent k [] h = refl
  delete_absent k ((j, v) ∷ m) h = ground (arith, delete_absent k m)

  pub delete_idem : (k : K) (m : List (K × V)) → delete k (delete k m) ≡ delete k m
  unfolding delete
  delete_idem k [] = refl
  delete_idem k ((j, v) ∷ m) = ground (arith, delete_idem k m)

  pub lookup-put_self : (k : K) (v : V) (m : List (K × V)) → lookup k (put k v m) ≡ some v
  unfolding lookup put
  lookup-put_self k v m = ground arith

  pub lookup-put_ne :
      (k j : K) (v : V) (m : List (K × V)) → k ≢ j → lookup j (put k v m) ≡ lookup j m
  unfolding lookup put
  lookup-put_ne k j v m h = ground (arith, lookup-delete_ne k j m h)

  keys-delete : (k : K) (m : List (K × V)) → keys (delete k m) ≡ erase dec k (keys m)
  unfolding delete erase
  keys-delete k [] = refl
  keys-delete k ((j, v) ∷ m) = ground (arith, keys-delete k m)

  pub delete-Distinct :
      (k : K) (m : List (K × V)) → Distinct dec (keys m) → Distinct dec (keys (delete k m))
  delete-Distinct k m d = rw (keys-delete k m) (erase-Distinct dec k (keys m) d)

  pub put-Distinct :
      (k : K) (v : V) (m : List (K × V)) → Distinct dec (keys m) → Distinct dec (keys (put k v m))
  unfolding put
  put-Distinct k v m d =
      (rw (keys-delete k m) (contains-erase_self dec k (keys m)), delete-Distinct k m d)

  -- A key is in the map exactly when the lookup finds it.
  pub contains-keys : (k : K) (m : List (K × V)) → contains dec k (keys m) ≡ is_some (lookup k m)
  unfolding contains lookup
  contains-keys k [] = refl
  contains-keys k ((j, v) ∷ m) = ground (arith, contains-keys k m)
