-- ===== src/Ratelimit/Recent.antt =====
-- The least recently used policy of internal/ratelimit/store.go, over a history of calls.
use mathlib.Core.List.{reverse, reverse_aux, reverse-cons, reverse-append}
use ringcache.Base.{
  ℕ, suc, ◌-◌, ◌≤◌, ◌≡◌, refl, sym, ◌∙◌, ap, true, false, List, [], ◌∷◌, ◌++◌, map, arith, length,
  take, leb, lookup, delete, keys, contains, erase, fresh, Distinct, is_some, by_if, Option-cases,
  inl, inr, delete-Distinct, put-Distinct, contains-keys, length-eq_of_same, erase_absent,
  fresh-Distinct, All, fresh-erase_seen, length-erase-lt, take_of_length-le, take_nil, length-map,
}
use ringcache.Base.Int.{ℤ}
use ringcache.Go.Float.{Float}
use ringcache.Go.Text.{Text, text_dec}
use ringcache.Ratelimit.{
  Slot, Store, Bucket, new_bucket, resize, evict, cut, touch, new_store, take_from, store_take,
}
use ringcache.Ratelimit.Capacity.{IsValid, IsRequest, store_take-IsValid, new_store-IsValid}
use ringcache.Ratelimit.Keys.{Agree, Agree-tail, cut-erase}
use ringcache.Ratelimit.Recency.{
  fresh-skip, take-erase, length-reverse, take-append_le, erase-reverse, contains-reverse,
}

module _ {F : Type 0} where
  -- As many keys as slots.
  length-Agree :
      (items : List (Text × Slot F)) (order : List Text)
      → Distinct text_dec (keys items)
      → Agree items order
      → length items ≡ length order
  length-Agree items order d a =
      sym (length-map (λ e. e.0) items)
      ∙ length-eq_of_same text_dec (keys items) order d a.distinct
          (λ k. contains-keys text_dec k items ∙ sym (a.same k))

  -- An eviction for a capacity of `suc c` keeps the `c` keys used last.
  pub record Kept (c : ℕ) (order : List Text) (r : List (Text × Slot F) × List Text) : Type 0 where
    pub newest : reverse r.1 ≡ take c (reverse order)
    pub distinct : Distinct text_dec (keys r.0)

  evict-Kept :
      (c : ℕ) (items : List (Text × Slot F)) (order : List Text)
      → Distinct text_dec (keys items)
      → Agree items order
      → Kept c order (evict (suc c) items order)
  unfolding evict
  evict-Kept c items [] d a = record { newest = sym (take_nil c); distinct = d }
  evict-Kept c items (victim ∷ order) d a =
      let size = length-Agree items (victim ∷ order) d a in
      by_if (Kept c (victim ∷ order)) (leb (suc c) (length items))
        (λ full.
          let w =
            evict-Kept c (delete text_dec victim items) order
              (delete-Distinct text_dec victim items d) (Agree-tail victim items order a) in
          record {
            newest =
                w.newest
                ∙ sym (
                    take-append_le c (reverse order) (victim ∷ [])
                      (ground (arith, length-reverse order)))
                ∙ ap (take c) (sym (reverse-cons victim order));
            distinct = w.distinct;
          })
        (λ some_room. record {
          newest = sym (
              take_of_length-le c (reverse (victim ∷ order))
                (ground (arith, length-reverse (victim ∷ order))));
          distinct = d;
        })

-- A call of `Take` at a moment.
pub record Use (F : Type 0) : Type 0 where
  pub now : ℕ
  pub key : Text
  pub rate : F
  pub burst : F
  pub cost : F

module _ {F : Type 0} (fl : Float F) where
  -- The calls of `Take`, one after the other.
  unfoldable pub runs : Store F → List (Use F) → Store F
  runs s [] = s
  runs s (u ∷ us) = runs (store_take fl s u.now u.key u.rate u.burst u.cost).0 us

  -- A store for `suc c` keys after calls for the keys of a history, the latest in front.
  pub record Newest (c : ℕ) (hist : List Text) (s : Store F) : Type 0 where
    pub valid : IsValid fl s
    pub sized : s.capacity ≡ suc c
    pub distinct : Distinct text_dec (keys s.items)
    pub newest : reverse s.order ≡ take (suc c) (fresh text_dec [] hist)

  -- One more call puts its key in front.
  fresh-cons :
      (k : Text) (hist : List Text)
      → fresh text_dec [] (k ∷ hist) ≡ k ∷ erase text_dec k (fresh text_dec [] hist)
  unfolding fresh contains
  fresh-cons k hist =
      ap (◌∷◌ k)
        (sym (fresh-skip k (k ∷ []) hist (ground arith)) ∙ fresh-erase_seen text_dec k hist)

  snoc-newest :
      (c : ℕ) (hist ks : List Text) (k : Text)
      → reverse ks ≡ take c (erase text_dec k (fresh text_dec [] hist))
      → reverse (ks ++ k ∷ []) ≡ take (suc c) (fresh text_dec [] (k ∷ hist))
  snoc-newest c hist ks k e =
      reverse-append ks (k ∷ []) ∙ ap (◌∷◌ k) e ∙ ap (take (suc c)) (sym (fresh-cons k hist))

  -- The keys used last, without one of them.
  other_keys :
      (c : ℕ) (hist : List Text) (s : Store F) (k : Text)
      → Newest c hist s
      → take c (reverse (erase text_dec k s.order))
        ≡ take c (erase text_dec k (fresh text_dec [] hist))
  other_keys c hist s k w =
      ap (take c) (erase-reverse k s.order ∙ ap (erase text_dec k) w.newest)
      ∙ take-erase k c (fresh text_dec [] hist) (fresh-Distinct text_dec [] hist)

  reverse-touch :
      (c : ℕ) (hist : List Text) (s : Store F) (k : Text)
      → Newest c hist s
      → contains text_dec k s.order ≡ true
      → reverse (touch k s.order) ≡ take (suc c) (fresh text_dec [] (k ∷ hist))
  reverse-touch c hist s k w there =
      let size = length-Agree s.items s.order w.distinct w.valid.agree in
      let fewer : length (reverse (erase text_dec k s.order)) ≤ c = omega (
        arith,
        length-reverse (erase text_dec k s.order),
        length-erase-lt text_dec k s.order there,
        size,
        w.valid.bounded,
        w.sized,
      ) in
      snoc-newest c hist (cut k s.order) k (
        ap reverse (cut-erase k s.order w.valid.agree.distinct)
        ∙ sym (take_of_length-le c (reverse (erase text_dec k s.order)) fewer)
        ∙ other_keys c hist s k w)

  reverse-evict :
      (c : ℕ) (hist : List Text) (s : Store F) (k : Text)
      → Newest c hist s
      → contains text_dec k s.order ≡ false
      → reverse ((evict s.capacity s.items s.order).1 ++ k ∷ [])
        ≡ take (suc c) (fresh text_dec [] (k ∷ hist))
  reverse-evict c hist s k w absent = snoc-newest c hist (evict s.capacity s.items s.order).1 k (
      rw (w.sized) (evict-Kept c s.items s.order w.distinct w.valid.agree).newest
      ∙ ap (λ ks. take c (reverse ks)) (sym (erase_absent text_dec k s.order absent))
      ∙ other_keys c hist s k w)

  unfoldable IsServed : Use F → Type 0
  IsServed u = IsRequest fl u.rate u.burst u.cost

  Newest-take_from :
      (c : ℕ) (hist : List Text) (s : Store F) (u : Use F) (b : Bucket F)
      → s.capacity ≡ suc c
      → Distinct text_dec (keys s.items)
      → reverse s.order ≡ take (suc c) (fresh text_dec [] hist)
      → IsValid fl (take_from fl s u.now u.key u.cost b).0
      → Newest c hist (take_from fl s u.now u.key u.cost b).0
  unfolding take_from
  Newest-take_from c hist s u b size d newest v = record {
    valid = v;
    sized = size;
    distinct = put-Distinct text_dec u.key _ s.items d;
    newest = newest;
  }

  Newest-after :
      (c : ℕ) (hist : List Text) (s : Store F) (u : Use F)
      → Newest c hist s
      → let t = (store_take fl s u.now u.key u.rate u.burst u.cost).0 in
        IsValid fl t → Newest c (u.key ∷ hist) t
  unfolding store_take
  Newest-after c hist s u w = elim (Option-cases (lookup text_dec u.key s.items)) [
    | inl new_key ↦
        let absent = w.valid.agree.same u.key ∙ ap is_some new_key in
        let kept = evict-Kept c s.items s.order w.distinct w.valid.agree in
        let (items, order) = evict s.capacity s.items s.order in
        rw (new_key, store_take)
          (Newest-take_from c (u.key ∷ hist)
            (record s { items = items; order = order ++ u.key ∷ [] }) u
            (new_bucket fl u.rate u.burst u.now) w.sized (rw (w.sized) kept.distinct)
            (reverse-evict c hist s u.key w absent))
    | inr (slot, old) ↦
        let there = w.valid.agree.same u.key ∙ ap is_some old in
        rw (old, store_take)
          (Newest-take_from c (u.key ∷ hist) (record s { order = touch u.key s.order }) u
            (resize fl slot.bucket u.now u.rate u.burst) w.sized w.distinct
            (reverse-touch c hist s u.key w there))
  ]

  Newest-store_take :
      (c : ℕ) (hist : List Text) (s : Store F) (u : Use F)
      → Newest c hist s
      → IsServed u
      → Newest c (u.key ∷ hist) (store_take fl s u.now u.key u.rate u.burst u.cost).0
  unfolding IsServed
  Newest-store_take c hist s u w q =
      Newest-after c hist s u w
        (store_take-IsValid fl s u.now u.key u.rate u.burst u.cost w.valid q).0

  Newest-runs :
      (c : ℕ) (hist : List Text) (s : Store F) (us : List (Use F))
      → Newest c hist s
      → All IsServed us
      → Newest c (reverse_aux (map (λ u. u.key) us) hist) (runs s us)
  unfolding runs
  Newest-runs c hist s [] w q = w
  Newest-runs c hist s (u ∷ us) w q =
      Newest-runs c (u.key ∷ hist) _ us (Newest-store_take c hist s u w q.0) q.1

  new_store-Newest :
      (capacity idle_ttl : ℤ) → let s = new_store capacity idle_ttl in Newest (s.capacity - 1) [] s
  unfolding new_store fresh
  new_store-Newest capacity idle_ttl =
      let v = new_store-IsValid fl capacity idle_ttl in
      record { valid = v; sized = omega (arith, v.room); distinct = tt; newest = refl }

  -- After any calls of `Take` on a new store, for limits and costs that are finite and not
  -- negative, the store has buckets for exactly the keys used last, as many as its capacity
  -- allows, and its order lists them from the one used least recently to the one used last.
  pub runs-Newest :
      (capacity idle_ttl : ℤ) (us : List (Use F))
      → All (λ (u : Use F). IsRequest fl u.rate u.burst u.cost) us
      → let s = runs (new_store capacity idle_ttl) us in
        let ks = take s.capacity (fresh text_dec [] (reverse (map (λ u. u.key) us))) in
        (reverse s.order ≡ ks)
        × (length s.items ≡ length ks)
        × ((k : Text) → is_some (lookup text_dec k s.items) ≡ contains text_dec k ks)
  unfolding IsServed
  runs-Newest capacity idle_ttl us q =
      let w =
        Newest-runs _ [] (new_store capacity idle_ttl) us (new_store-Newest capacity idle_ttl) q in
      let s = runs (new_store capacity idle_ttl) us in
      let hist = reverse (map (λ (u : Use F). u.key) us) in
      let listed = w.newest ∙ ap (λ n. take n (fresh text_dec [] hist)) (sym w.sized) in
      (
        listed,
        length-Agree s.items s.order w.distinct w.valid.agree
            ∙ sym (length-reverse s.order)
            ∙ ap length listed,
        λ k.
            sym (w.valid.agree.same k)
            ∙ sym (contains-reverse k s.order)
            ∙ ap (contains text_dec k) listed,
      )
