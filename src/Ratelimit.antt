-- ===== src/Ratelimit.antt =====
-- internal/ratelimit: the token bucket of bucket.go and the store of buckets of store.go. The
-- mutex makes each method of the store one step; the clock's reading is an argument.
pub mod Tokens
pub mod Keys
pub mod Capacity
pub mod Sweep
pub mod Recency
pub mod Recent
mod Tests
use ringcache.Base.{
  ℕ, zero, suc, ◌+◌, ◌*◌, ◌-◌, Bool, true, false, not, ◌||◌, ◌&&◌, List, [], ◌∷◌, ◌++◌, Option,
  none, some, ltb, leb, if◌then◌else◌, length, lookup, delete, put, ite,
}
use ringcache.Base.Int.{ℤ, pos, pos_part, ltb_ℤ, sub_ℕ}
use ringcache.Go.Float.{Float}
use ringcache.Go.Text.{Text, text_dec}

pub record Result (F : Type 0) : Type 0 where
  pub allowed : Bool
  pub remaining : F
  pub retry_after_ms : ℤ

pub record Bucket (F : Type 0) : Type 0 where
  pub tokens : F
  pub last_refill : ℕ
  pub rate : F
  pub burst : F

pub record Slot (F : Type 0) : Type 0 where
  pub bucket : Bucket F
  pub last_used : ℕ

-- `order` has the key used least recently in front.
pub record Store (F : Type 0) : Type 0 where
  pub capacity : ℕ
  pub idle_ttl : ℤ
  pub items : List (Text × Slot F)
  pub order : List Text

abbrev max_int32 : ℤ
max_int32 = pos 2147483647

-- The first `key` of a list, taken out.
unfoldable pub cut : Text → List Text → List Text
cut key [] = []
cut key (k ∷ ks) = elim (text_dec k key) [ yes _ ↦ ks | no _ ↦ k ∷ cut key ks ]

-- `touchLocked`
abbrev pub touch : Text → List Text → List Text
touch key order = cut key order ++ key ∷ []

module _ {F : Type 0} where
  -- `NewStore`
  unfoldable pub new_store : ℤ → ℤ → Store F
  new_store capacity idle_ttl = record {
    capacity = if ltb_ℤ capacity (pos 1) then 1024 else pos_part capacity;
    idle_ttl = if ltb_ℤ idle_ttl (pos 1) then pos 60000000000 else idle_ttl;
    items = [];
    order = [];
  }

  -- `evictIfNeededLocked`: the loop takes a key off `order` in each round.
  unfoldable pub evict : ℕ → List (Text × Slot F) → List Text → List (Text × Slot F) × List Text
  evict capacity items [] = (items, [])
  evict capacity items (victim ∷ order) =
      if leb capacity (length items)
      then evict capacity (delete text_dec victim items) order
      else (items, victim ∷ order)

  abbrev store_len : Store F → ℕ
  store_len s = length s.items

  abbrev pub is_idle : Store F → ℕ → Slot F → Bool
  is_idle s now slot = ltb_ℤ s.idle_ttl (sub_ℕ now slot.last_used)

  -- The loop of `sweep`: what is left of the map, and the keys kept.
  unfoldable pub sweep_loop :
      Store F → ℕ → List (Text × Slot F) → List Text → List (Text × Slot F) × List Text
  sweep_loop s now items [] = (items, [])
  sweep_loop s now items (key ∷ order) = elim (lookup text_dec key items) [
    | none ↦ sweep_loop s now items order
    | some slot ↦
        if is_idle s now slot
        then sweep_loop s now (delete text_dec key items) order
        else (let (rest, kept) = sweep_loop s now items order in (rest, key ∷ kept))
  ]

  unfoldable pub sweep : Store F → ℕ → Store F
  sweep s now =
      let (items, kept) = sweep_loop s now s.items s.order in
      record s { items = items; order = kept }

module _ {F : Type 0} (fl : Float F) where
  -- `if x < 0 { x = 0 }`
  unfoldable pub at_least_zero : F → F
  at_least_zero x = if fl.lt x fl.zero then fl.zero else x

  unfoldable pub new_bucket : F → F → ℕ → Bucket F
  unfolding at_least_zero
  new_bucket rate burst now = record {
    tokens = at_least_zero burst;
    last_refill = now;
    rate = at_least_zero rate;
    burst = at_least_zero burst;
  }

  -- The refill of a bucket with a rate above 0.
  unfoldable pub refill_by : Bucket F → ℕ → F → Bucket F
  refill_by b now elapsed = if fl.le elapsed fl.zero then b else record b {
    tokens = fl.min b.burst (fl.add b.tokens (fl.mul elapsed b.rate));
    last_refill = now;
  }

  unfoldable pub refill : Bucket F → ℕ → Bucket F
  refill b now =
      if fl.le b.rate fl.zero
      then record b { last_refill = now }
      else refill_by b now (fl.seconds (sub_ℕ now b.last_refill))

  -- From the deficit on.
  unfoldable pub wait_for : F → F → ℤ
  wait_for deficit rate =
      if fl.le deficit fl.zero
      then pos 0
      else if fl.le rate fl.zero
      then max_int32
      else (let ms = fl.ceil (fl.mul (fl.div deficit rate) fl.thousand) in
          if ltb_ℤ ms (pos 1) then pos 1 else ms)

  unfoldable pub retry_after_ms : F → F → F → F → ℤ
  retry_after_ms tokens cost rate burst =
      if fl.lt burst cost
      then if fl.le burst tokens then max_int32 else wait_for (fl.sub burst tokens) rate
      else wait_for (fl.sub cost tokens) rate

  -- The answer of a bucket that does not pay.
  abbrev pub denied : Bucket F → F → Bucket F × Result F
  denied b cost = (
    b,
    record {
      allowed = false;
      remaining = b.tokens;
      retry_after_ms = retry_after_ms b.tokens cost b.rate b.burst;
    },
  )

  abbrev pub paid : Bucket F → F → Bucket F × Result F
  paid b cost =
      let left = fl.sub b.tokens cost in
      (
        record b { tokens = left },
        record { allowed = true; remaining = left; retry_after_ms = pos 0 },
      )

  -- `Take` after the refill.
  unfoldable pub spend : Bucket F → F → Bucket F × Result F
  spend b cost =
      if fl.lt b.burst cost
      then denied b cost
      else if fl.le cost b.tokens
      then paid b cost
      else denied b cost

  unfoldable pub take : Bucket F → ℕ → F → Bucket F × Result F
  take b now cost = spend (refill b now) (at_least_zero cost)

  -- The bucket of a request that brings new limits.
  unfoldable pub resize : Bucket F → ℕ → F → F → Bucket F
  resize b now rate burst =
      if fl.eq b.rate rate && fl.eq b.burst burst
      then b
      else (let refilled = refill b now in
          record refilled {
            rate = rate;
            burst = burst;
            tokens = if fl.lt burst refilled.tokens then burst else refilled.tokens;
          })

  -- The end of `Take`, with the bucket of the key.
  unfoldable pub take_from : Store F → ℕ → Text → F → Bucket F → Store F × Result F
  take_from s now key cost b =
      let (b', r) = take b now cost in
      (record s { items = put text_dec key (record { bucket = b'; last_used = now }) s.items }, r)

  -- `Store.Take`
  unfoldable pub store_take : Store F → ℕ → Text → F → F → F → Store F × Result F
  store_take s now key rate burst cost = elim (lookup text_dec key s.items) [
    | none ↦
        let (items, order) = evict s.capacity s.items s.order in
        take_from (record s { items = items; order = order ++ key ∷ [] }) now key cost
          (new_bucket rate burst now)
    | some slot ↦
        take_from (record s { order = touch key s.order }) now key cost
          (resize slot.bucket now rate burst)
  ]
