-- ===== src/Ring/Preference.antt =====
-- All nodes in the order in which `Owners` of internal/ring/ring.go meets them, and what `Owners`
-- takes of that order.
use ringcache.Base.{
  ℕ, zero, suc, ◌+◌, ◌≤◌, ◌<◌, ◌≡◌, refl, sym, ap₂, ◌∙◌, Bool, ◌||◌, List, [], ◌∷◌, ◌++◌, some,
  arith, ltb, leb, length, take, take_of_length-le, take_nil, nil_of_length, filter_by,
  if◌then◌else◌, contains, fresh, contains-fresh, fresh-Distinct, length-eq_of_same, Distinct,
  Bool-cases, inl, inr, ◌==◌, ◌⊎◌, subst,
}
use ringcache.Base.Int.{pos, ltb_ℤ}
use ringcache.Go.Sort.{IsSorted, sort, insert, sort-IsSorted}
use ringcache.Go.Text.{Text, text_dec}
use ringcache.Ring.{
  Ring, Vnode, vnode_less, owners, primary, walk, start, place, place_all, hash32, size,
}
use ringcache.Ring.Build.{IsValid}
use ringcache.Ring.Clockwise.{clockwise, visits-clockwise}
use ringcache.Ring.Order.{vnode_less-IsOrder}
use ringcache.Ring.Walk.{ids, walk-visits}

unfoldable pub preference : Ring → Text → List Text
preference r key = fresh text_dec [] (ids (clockwise (hash32 key) r.ring))

holds : Text → List Vnode → Bool
holds k vs = contains text_dec k (ids vs)

holds-append : (k : Text) (xs ys : List Vnode) → holds k (xs ++ ys) ≡ (holds k xs || holds k ys)
unfolding holds contains
holds-append k [] ys = refl
holds-append k (x ∷ xs) ys = ground (arith, holds-append k xs ys)

holds-halves :
    (k : Text) (h : ℕ) (vs : List Vnode)
    → (holds k (filter_by (λ v. leb h v.hash) vs) || holds k (filter_by (λ v. ltb v.hash h) vs))
      ≡ holds k vs
unfolding holds contains
holds-halves k h [] = refl
holds-halves k h (v ∷ vs) = ground (arith, holds-halves k h vs)

holds-clockwise : (k : Text) (h : ℕ) (vs : List Vnode) → holds k (clockwise h vs) ≡ holds k vs
holds-clockwise k h vs = holds-append k _ _ ∙ holds-halves k h vs

holds-insert :
    (k : Text) (v : Vnode) (vs : List Vnode) → holds k (insert vnode_less v vs) ≡ holds k (v ∷ vs)
unfolding holds contains insert
holds-insert k v [] = refl
holds-insert k v (w ∷ vs) = ground (arith, holds-insert k v vs)

holds-sort : (k : Text) (vs : List Vnode) → holds k (sort vnode_less vs) ≡ holds k vs
unfolding holds contains sort
holds-sort k [] = refl
holds-sort k (v ∷ vs) = ground (arith, holds-insert k v (sort vnode_less vs), holds-sort k vs)

holds-place :
    (k id : Text) (rounds i : ℕ)
    → 1 ≤ rounds
    → holds k (place rounds i id) ≡ contains text_dec k (id ∷ [])
unfolding holds contains place
holds-place k id zero i h = elim h [ ]
holds-place k id (suc zero) i h = refl
holds-place k id (suc (suc rounds)) i h = ground (arith, holds-place k id (suc rounds) (i + 1))

holds-place_all :
    (k : Text) (v : ℕ) (nodes : List Text)
    → 1 ≤ v
    → holds k (place_all v nodes) ≡ contains text_dec k nodes
unfolding holds contains place_all
holds-place_all k v [] h = refl
holds-place_all k v (id ∷ nodes) h = ground (
  arith,
  holds-append k (place v 0 id) (place_all v nodes),
  holds-place k id v 0 h,
  holds-place_all k v nodes h,
)

unfoldable pub first : List Text → Text
first [] = []
first (k ∷ ks) = k

module _ (r : Ring) (key : Text) (valid : IsValid r) where
  -- The preference order lists exactly the nodes of the ring.
  pub contains-preference :
      (k : Text) → contains text_dec k (preference r key) ≡ contains text_dec k r.nodes
  unfolding preference holds contains
  contains-preference k = ground (
    arith,
    contains-fresh text_dec k [] (ids (clockwise (hash32 key) r.ring)),
    holds-clockwise k (hash32 key) r.ring,
    valid.placed,
    holds-sort k (place_all r.vnodes_per_node r.nodes),
    holds-place_all k r.vnodes_per_node r.nodes valid.factor,
  )

  pub preference-Distinct : Distinct text_dec (preference r key)
  unfolding preference
  preference-Distinct = fresh-Distinct text_dec [] _

  pub length-preference : length (preference r key) ≡ size r
  length-preference =
      length-eq_of_same text_dec (preference r key) r.nodes preference-Distinct valid.distinct
        contains-preference

  ring-IsSorted : IsSorted vnode_less r.ring
  ring-IsSorted =
      subst (IsSorted vnode_less) (sym valid.placed)
        (sort-IsSorted vnode_less-IsOrder (place_all r.vnodes_per_node r.nodes))

  walk-preference :
      (n : ℕ)
      → 0 < length r.ring
      → walk r.ring n (length r.ring) (start r.ring (hash32 key)) [] []
        ≡ some (take n (preference r key))
  unfolding preference
  walk-preference n some_node =
      let (lt, turn) = visits-clockwise r.ring (hash32 key) some_node ring-IsSorted in
      walk-visits r.ring n (length r.ring) (start r.ring (hash32 key)) [] [] lt
      ∙ ap₂ (λ m vs. some (take m (fresh text_dec [] (ids vs)))) (omega arith) turn

  preference_empty : (length r.ring ≡ 0) ⊎ (size r ≡ 0) → preference r key ≡ []
  unfolding preference fresh
  preference_empty (inl e) = rw (nil_of_length r.ring e) refl
  preference_empty (inr e) = nil_of_length (preference r key) (length-preference ∙ e)

  take_capped :
      (n : ℕ)
      → take (if ltb_ℤ (pos (size r)) (pos n) then size r else n) (preference r key)
        ≡ take n (preference r key)
  take_capped n = elim (Bool-cases (ltb_ℤ (pos (size r)) (pos n))) [
    | inr fits ↦ rw fits
    | inl above ↦
        let len = length-preference in
        rw above (
          take_of_length-le (size r) (preference r key) (omega arith)
          ∙ sym (take_of_length-le n (preference r key) (ground arith)))
  ]

  -- On a valid ring, for a count `n` of 0 or more, `Owners` returns without a panic: the first
  -- `n` nodes of the order of preference, or all of them if there are fewer.
  pub owners-preference : (n : ℕ) → owners r key (pos n) ≡ some (take n (preference r key))
  unfolding owners
  owners-preference zero = refl
  owners-preference (suc n) = elim (Bool-cases (length r.ring == 0 || size r == 0)) [
    | inl none_left ↦
        let e = preference_empty (ground arith) in
        rw (e, take_nil {A = Text} (suc n)) (ground arith)
    | inr some_node ↦ ground (
      arith,
      walk-preference (if ltb_ℤ (pos (size r)) (pos (suc n)) then size r else suc n) (ground arith),
      take_capped (suc n),
    )
  ]

  -- `Primary` is the first node of the order, or "" if there is none.
  pub primary-preference : primary r key ≡ some (first (preference r key))
  unfolding primary first
  primary-preference = rw (owners-preference 1, primary) (first-take (preference r key))
    where
      first-take :
          (ks : List Text) → elim (take 1 ks) [ [] ↦ some [] | o ∷ os ↦ some o ] ≡ some (first ks)
      first-take [] = refl
      first-take (k ∷ ks) = refl
