-- ===== src/Ring/Remap.antt =====
-- What joins and leaves (`Add` and `Remove` of internal/ring/ring.go) do to the owners of a key.
use ringcache.Base.{
  ℕ, zero, suc, ◌+◌, ◌≡◌, ◌≢◌, refl, sym, ap, ap₂, ◌∙◌, Bool, true, false, List, [], ◌∷◌, ◌++◌,
  some, arith, ltb, leb, take, filter_by, filter_by-append, filter_by_comm, filter_by-All,
  filter_by_none, some_eq, ◌⊎◌, All, contains, erase, erase_absent, fresh, fresh-erase, inl, inr,
}
use ringcache.Base.Int.{pos}
use ringcache.Go.Sort.{filter_by-sort}
use ringcache.Go.Text.{Text, text_dec}
use ringcache.Ring.{Ring, Vnode, owners, primary, place, place_all, add, remove, rebuild, hash32}
use ringcache.Ring.Build.{IsValid, add-IsValid, remove-IsValid}
use ringcache.Ring.Clockwise.{clockwise}
use ringcache.Ring.Order.{vnode_less-IsOrder}
use ringcache.Ring.Preference.{preference, first, owners-preference, primary-preference}
use ringcache.Ring.Walk.{ids}

is_other : Text → Vnode → Bool
is_other id v = elim (text_dec v.id id) [ yes _ ↦ false | no _ ↦ true ]

place-own : (id : Text) (rounds i : ℕ) → All (λ v. is_other id v ≡ false) (place rounds i id)
unfolding place is_other
place-own id zero i = tt
place-own id (suc rounds) i = (ground arith, place-own id rounds (i + 1))

place-other :
    (id j : Text) (rounds i : ℕ) → j ≢ id → All (λ v. is_other id v ≡ true) (place rounds i j)
unfolding place is_other
place-other id j zero i h = tt
place-other id j (suc rounds) i h = (ground arith, place-other id j rounds (i + 1) h)

place_all-erase :
    (v : ℕ) (id : Text) (nodes : List Text)
    → place_all v (erase text_dec id nodes) ≡ filter_by (is_other id) (place_all v nodes)
unfolding place_all erase
place_all-erase v id [] = refl
place_all-erase v id (j ∷ nodes) =
    let split = filter_by-append (is_other id) (place v 0 j) (place_all v nodes) in
    let rest = place_all-erase v id nodes in
    elim (text_dec j id) [
      | yes p ↦
          ground (
            arith,
            split,
            rest,
            filter_by_none (is_other id) (place v 0 j) (rw p (place-own id v 0)),
          )
      | no n ↦
          ground
            (arith, split, rest, filter_by-All (is_other id) (place v 0 j) (place-other id j v 0 n))
    ]

ids-erase :
    (id : Text) (vs : List Vnode) → ids (filter_by (is_other id) vs) ≡ erase text_dec id (ids vs)
unfolding erase is_other
ids-erase id [] = refl
ids-erase id (v ∷ vs) = ground (arith, ids-erase id vs)

clockwise-filter_by :
    (p : Vnode → Bool) (h : ℕ) (vs : List Vnode)
    → clockwise h (filter_by p vs) ≡ filter_by p (clockwise h vs)
clockwise-filter_by p h vs =
    ap₂ ◌++◌ (filter_by_comm (λ v. leb h v.hash) p vs) (filter_by_comm (λ v. ltb v.hash h) p vs)
    ∙ sym (filter_by-append p _ _)

-- The ring without a node is the old ring with that node's virtual nodes dropped.
ring-remove :
    (r : Ring) (id : Text) → IsValid r → (remove r id).ring ≡ filter_by (is_other id) r.ring
unfolding remove rebuild
ring-remove r id valid =
    let sorted =
      filter_by-sort vnode_less-IsOrder (is_other id) (place_all r.vnodes_per_node r.nodes) in
    let dropped = place_all-erase r.vnodes_per_node id r.nodes in
    ground (
      arith,
      valid.placed,
      sorted,
      dropped,
      ap (filter_by (is_other id)) valid.placed,
      erase_absent text_dec id r.nodes,
    )

-- On a valid ring, a leave takes the node out of every key's order of preference and moves
-- nothing else.
pub preference-remove :
    (r : Ring) (id key : Text)
    → IsValid r
    → preference (remove r id) key ≡ erase text_dec id (preference r key)
unfolding preference
preference-remove r id key valid =
    let around = clockwise (hash32 key) r.ring in
    ap (λ vs. fresh text_dec [] (ids (clockwise (hash32 key) vs))) (ring-remove r id valid)
    ∙ ap (λ vs. fresh text_dec [] (ids vs)) (clockwise-filter_by (is_other id) (hash32 key) r.ring)
    ∙ ap (fresh text_dec []) (ids-erase id around)
    ∙ fresh-erase text_dec id (ids around)

-- On a valid ring, a leave undoes the join of a new node with a name.
pub remove-add :
    (r : Ring) (id : Text)
    → IsValid r
    → id ≢ []
    → contains text_dec id r.nodes ≡ false
    → remove (add r id) id ≡ r
unfolding remove add rebuild contains erase
remove-add r id valid named absent = ground (arith, valid.placed, erase_absent text_dec id r.nodes)

take-erase :
    (id : Text) (n : ℕ) (ks : List Text)
    → contains text_dec id (take n ks) ≡ false
    → take n (erase text_dec id ks) ≡ take n ks
unfolding contains erase
take-erase id zero ks h = refl
take-erase id (suc n) [] h = refl
take-erase id (suc n) (k ∷ ks) h = ground (arith, take-erase id n ks)

-- On a valid ring, a node that leaves and was not among the first `n` owners of a key does not
-- change them.
pub owners-remove :
    (r : Ring) (id key : Text) (n : ℕ) (os : List Text)
    → IsValid r
    → owners r key (pos n) ≡ some os
    → contains text_dec id os ≡ false
    → owners (remove r id) key (pos n) ≡ some os
owners-remove r id key n os valid before other =
    let same : os ≡ take n (preference r key) =
      some_eq (sym before ∙ owners-preference r key valid n) in
    owners-preference (remove r id) key (remove-IsValid r id valid) n
    ∙ ap (λ ks. some (take n ks)) (preference-remove r id key valid)
    ∙ ap some (take-erase id n (preference r key) (rw same at other))
    ∙ ap some (sym same)

-- On a valid ring, the join of a new node with a name puts it somewhere into the order of
-- preference, and keeps the others as they stood.
pub preference-add :
    (r : Ring) (id key : Text)
    → IsValid r
    → id ≢ []
    → contains text_dec id r.nodes ≡ false
    → erase text_dec id (preference (add r id) key) ≡ preference r key
preference-add r id key valid named absent =
    sym (preference-remove (add r id) id key (add-IsValid r id valid))
    ∙ ap (λ s. preference s key) (remove-add r id valid named absent)

first-erase :
    (id : Text) (ks : List Text) → (first ks ≡ id) ⊎ (first ks ≡ first (erase text_dec id ks))
unfolding first erase
first-erase id [] = inr refl
first-erase id (k ∷ ks) = elim (text_dec k id) [ yes p ↦ inl p | no n ↦ inr (ground arith) ]

-- On a valid ring, the join of a new node with a name moves a key's primary to that node or not
-- at all.
pub primary-add :
    (r : Ring) (id key : Text)
    → IsValid r
    → id ≢ []
    → contains text_dec id r.nodes ≡ false
    → (primary (add r id) key ≡ some id) ⊎ (primary (add r id) key ≡ primary r key)
primary-add r id key valid named absent =
    let old = primary-preference r key valid in
    let new = primary-preference (add r id) key (add-IsValid r id valid) in
    elim (first-erase id (preference (add r id) key)) [
      | inl e ↦ inl (new ∙ ap some e)
      | inr e ↦
          inr (new ∙ ap some (e ∙ ap first (preference-add r id key valid named absent)) ∙ sym old)
    ]
