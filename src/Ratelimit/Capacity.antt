-- ===== src/Ratelimit/Capacity.antt =====
-- The store of buckets in internal/ratelimit/store.go: what `Take` and `sweep` keep true of it.
use ringcache.Base.{
  ℕ, suc, ◌≡◌, ◌≤◌, refl, sym, subst, ap, ◌∙◌, true, List, [], ◌∷◌, ◌++◌, none, some, arith, length,
  lookup, delete, put, contains, is_some, if◌then◌else◌, by_if, Option-cases, inl, inr, some_eq,
  lookup-put_self, lookup-put_ne, ◌&&◌,
}
use ringcache.Base.Int.{ℤ}
use ringcache.Go.Float.{Float}
use ringcache.Go.Text.{Text, text_dec}
use ringcache.Ratelimit.{
  Bucket, Slot, Store, new_store, evict, touch, new_bucket, refill, resize, take, take_from,
  store_take,
}
use ringcache.Ratelimit.Keys.{
  Agree, Agree-touch, Evicted, evict-Evicted, touch_absent, length-delete-le, length-delete-lt,
}
use ringcache.Ratelimit.Tokens
use ringcache.Ratelimit.Tokens.{
  Spent, take-Spent, refill-Refilled, new_bucket-IsValid, at_least_zero_lem,
}

module _ {F : Type 0} (fl : Float F) where
  pub record IsValid (s : Store F) : Type 0 where
    pub room : 1 ≤ s.capacity
    pub bounded : length s.items ≤ s.capacity
    pub agree : Agree s.items s.order
    pub buckets :
        (k : Text) (slot : Slot F)
        → lookup text_dec k s.items ≡ some slot
        → Tokens.IsValid fl slot.bucket

  -- A new store holds no bucket.
  pub new_store-IsValid : (capacity idle_ttl : ℤ) → IsValid (new_store capacity idle_ttl)
  unfolding new_store lookup contains
  new_store-IsValid capacity idle_ttl = record {
    room = ground arith;
    bounded = omega arith;
    agree = record { distinct = tt; same = λ k. refl };
    buckets = λ k slot h. absurd (none-ne-some slot h);
  }
    where
      none-ne-some : (slot : Slot F) → none ≡ some slot → ⊥
      none-ne-some slot e = cc

  -- The limits and the cost of a request that the handlers let through.
  pub record IsRequest (rate burst cost : F) : Type 0 where
    pub rate_finite : fl.finite rate ≡ true
    pub rate_positive : fl.le fl.zero rate ≡ true
    pub burst_finite : fl.finite burst ≡ true
    pub burst_positive : fl.le fl.zero burst ≡ true
    pub cost_finite : fl.finite cost ≡ true
    pub cost_positive : fl.le fl.zero cost ≡ true

  capped-IsValid :
      (b : Bucket F) (rate burst cost : F)
      → Tokens.IsValid fl b
      → IsRequest rate burst cost
      → Tokens.IsValid fl (record b {
        rate = rate;
        burst = burst;
        tokens = if fl.lt burst b.tokens then burst else b.tokens;
      })
  capped-IsValid b rate burst cost v q = record {
    tokens_positive =
        by_if (λ t. fl.le fl.zero t ≡ true) (fl.lt burst b.tokens) (λ _. q.burst_positive)
          (λ _. v.tokens_positive);
    tokens_bounded =
        by_if (λ t. fl.le t burst ≡ true) (fl.lt burst b.tokens) (λ _. fl.le_refl burst)
          (λ h. ground (arith, fl.lt-not-le burst b.tokens));
    rate_positive = q.rate_positive;
    rate_finite = q.rate_finite;
    burst_finite = q.burst_finite;
  }

  resize-IsValid :
      (b : Bucket F) (now : ℕ) (rate burst cost : F)
      → Tokens.IsValid fl b
      → IsRequest rate burst cost
      → Tokens.IsValid fl (resize fl b now rate burst)
  unfolding resize
  resize-IsValid b now rate burst cost v q =
      by_if (Tokens.IsValid fl) (fl.eq b.rate rate && fl.eq b.burst burst) (λ _. v)
        (λ _. capped-IsValid (refill fl b now) rate burst cost (refill-Refilled fl b now v).valid q)

  stored :
      (k : Text) (slot : Slot F) (items : List (Text × Slot F))
      → Tokens.IsValid fl slot.bucket
      → ((j : Text) (old : Slot F)
          → lookup text_dec j items ≡ some old
          → Tokens.IsValid fl old.bucket)
      → (j : Text) (new : Slot F) → lookup text_dec j (put text_dec k slot items) ≡ some new
      → Tokens.IsValid fl new.bucket
  stored k slot items v old j new h = elim (text_dec k j) [
    | yes p ↦
        let at_k =
          subst (λ i. lookup text_dec i (put text_dec k slot items) ≡ some new) (sym p) h in
        subst (λ (x : Slot F). Tokens.IsValid fl x.bucket)
          (some_eq (sym (lookup-put_self text_dec k slot items) ∙ at_k)) v
    | no ne ↦ old j new (sym (lookup-put_ne text_dec k j slot items ne) ∙ h)
  ]

  -- The end of `Take`, from a map and an order that agree and leave room.
  take_from-IsValid :
      (s : Store F) (order : List Text) (now : ℕ) (key : Text) (rate burst cost : F) (b : Bucket F)
      → 1 ≤ s.capacity
      → suc (length (delete text_dec key s.items)) ≤ s.capacity
      → ((slot : Slot F) → Agree (put text_dec key slot s.items) order)
      → ((j : Text) (old : Slot F)
          → lookup text_dec j s.items ≡ some old
          → Tokens.IsValid fl old.bucket)
      → Tokens.IsValid fl b
      → IsRequest rate burst cost
      → let r = take_from fl (record s { order = order }) now key cost b in
        IsValid r.0
        × Spent fl (refill fl b now) cost (take fl b now cost)
        × (r.1 ≡ (take fl b now cost).1)
  unfolding take_from put
  take_from-IsValid s order now key rate burst cost b room fits agree old v q =
      let spent = take-Spent fl b now cost v q.cost_finite q.cost_positive in
      (
        record {
          room = room;
          bounded = fits;
          agree = agree _;
          buckets = stored key _ s.items spent.valid old;
        },
        spent,
        refl,
      )

  -- The bucket that pays for a request: a full one for a new key, or the key's own.
  unfoldable pub bucket_for : Store F → ℕ → Text → F → F → Bucket F
  bucket_for s now key rate burst = elim (lookup text_dec key s.items) [
    | none ↦ new_bucket fl rate burst now
    | some slot ↦ resize fl slot.bucket now rate burst
  ]

  still_absent :
      (capacity : ℕ) (items : List (Text × Slot F)) (r : List (Text × Slot F) × List Text)
      (key : Text)
      → Evicted capacity items r
      → lookup text_dec key items ≡ none
      → lookup text_dec key r.0 ≡ none
  still_absent capacity items r key e h = elim (Option-cases (lookup text_dec key r.0)) [
    | inl gone ↦ gone
    | inr (slot, there) ↦ absurd (none-ne-some slot (sym h ∙ e.old key slot there))
  ]
    where
      none-ne-some : (slot : Slot F) → none ≡ some slot → ⊥
      none-ne-some slot e = cc

  -- `Take` of the store, for limits and a cost that are finite and not negative, keeps the store
  -- valid: at most `capacity` buckets, each with its tokens between 0 and its burst, and an order
  -- that lists the keys. It answers as the key's bucket does: its own, or a full one for a new key.
  pub store_take-IsValid :
      (s : Store F) (now : ℕ) (key : Text) (rate burst cost : F)
      → IsValid s
      → IsRequest rate burst cost
      → let r = store_take fl s now key rate burst cost in
        let b = bucket_for s now key rate burst in
        IsValid r.0
        × Spent fl (refill fl b now) cost (take fl b now cost)
        × (r.1 ≡ (take fl b now cost).1)
  unfolding store_take bucket_for
  store_take-IsValid s now key rate burst cost v q =
      elim (Option-cases (lookup text_dec key s.items)) [
        | inl new_key ↦
            let e = evict-Evicted s.capacity s.order s.items v.room v.agree in
            let (items, order) = evict s.capacity s.items s.order in
            let absent = still_absent s.capacity s.items (items, order) key e new_key in
            rw (new_key, store_take, bucket_for)
              (take_from-IsValid (record s { items = items }) (order ++ key ∷ []) now key rate burst
                cost (new_bucket fl rate burst now) v.room
                (omega (arith, length-delete-le key items, e.room))
                (λ slot.
                  subst (Agree (put text_dec key slot items))
                    (touch_absent key items order e.agree absent)
                    (Agree-touch key slot items order e.agree))
                (λ j old h. v.buckets j old (e.old j old h))
                (new_bucket-IsValid fl rate burst now q.rate_finite q.burst_finite) q)
        | inr (slot, there) ↦
            rw (there, store_take, bucket_for)
              (take_from-IsValid s (touch key s.order) now key rate burst cost
                (resize fl slot.bucket now rate burst) v.room
                (omega (arith, length-delete-lt key s.items (ap is_some there), v.bounded))
                (λ new. Agree-touch key new s.items s.order v.agree) v.buckets
                (resize-IsValid slot.bucket now rate burst cost (v.buckets key slot there) q) q)
      ]
