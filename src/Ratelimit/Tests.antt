-- ===== src/Ratelimit/Tests.antt =====
-- Runs of internal/ratelimit, with whole numbers for float64, and its theorems at concrete buckets.
use mathlib.Core.List.{reverse}
use ringcache.Base.{
  ℕ, ◌*◌, ◌≡◌, refl, true, false, [], ◌∷◌, lookup, delete, put, ℕ_discrete, length, is_some,
  contains, fresh,
}
use ringcache.Base.Int.{pos}
use ringcache.Go.Whole.{whole}
use ringcache.Go.Text.{Text, text_dec}
use ringcache.Ratelimit.{
  Bucket, Store, at_least_zero, new_bucket, refill_by, refill, wait_for, retry_after_ms, spend,
  take, new_store, evict, cut, resize, take_from, store_take, sweep_loop, sweep,
}
use ringcache.Ratelimit.Capacity.{
  IsValid, IsRequest, new_store-IsValid, store_take-IsValid, bucket_for,
}
use ringcache.Ratelimit.Recent.{Use, runs, runs-Newest}
use ringcache.Ratelimit.Sweep.{live, sweep-IsValid}
use ringcache.Ratelimit.Tokens
use ringcache.Ratelimit.Tokens.{Spent, Refilled, take-Spent, refill-Refilled, new_bucket-IsValid}

-- What the runs below compute with.
program : Unit {0}
unfolding at_least_zero new_bucket refill_by refill wait_for retry_after_ms spend take new_store
    evict cut resize take_from store_take sweep_loop sweep lookup delete put text_dec ℕ_discrete
program = tt

abbrev second : ℕ
second = 1000000000

-- Three tokens at most, two more in each second; one is left, and five seconds pass.
abbrev one_left : Bucket ℕ
one_left = record { tokens = 1; last_refill = 0; rate = 2; burst = 3 }

one_left-IsValid : Tokens.IsValid whole one_left
one_left-IsValid = record {
  tokens_positive = refl;
  tokens_bounded = refl;
  rate_positive = refl;
  rate_finite = refl;
  burst_finite = refl;
}

take_two :
    (take whole one_left (5 * second) 2).1
    ≡ record { allowed = true; remaining = 1; retry_after_ms = pos 0 }
unfolding program
take_two = refl

take_early :
    (take whole one_left 10 3).1
    ≡ record { allowed = false; remaining = 1; retry_after_ms = pos 1000 }
unfolding program
take_early = refl

-- More than the burst is never allowed.
take_too_much :
    (take whole one_left (5 * second) 4).1
    ≡ record { allowed = false; remaining = 3; retry_after_ms = pos 2147483647 }
unfolding program
take_too_much = refl

take-Spent_example :
    Spent whole (refill whole one_left (5 * second)) 2 (take whole one_left (5 * second) 2)
take-Spent_example = take-Spent whole one_left (5 * second) 2 one_left-IsValid refl refl

abbrev a : Text
a = b'a' ∷ []

abbrev b : Text
b = b'b' ∷ []

abbrev c : Text
c = b'c' ∷ []

-- A full store: `a` was used first, so that `c` takes its place.
abbrev two_keys : Store ℕ
two_keys =
    (store_take whole (store_take whole (new_store (pos 2) (pos 50)) 10 a 1 2 1).0 20 b 1 2 1).0

order_after : (store_take whole two_keys 30 c 1 2 1).0.order ≡ b ∷ c ∷ []
unfolding program
order_after = refl

touched_order : (store_take whole two_keys 30 a 1 2 1).0.order ≡ b ∷ a ∷ []
unfolding program
touched_order = refl

-- At 65, `a` has been idle for more than 50 and `b` has not.
swept_order : (sweep two_keys 65).order ≡ b ∷ []
unfolding program
swept_order = refl

request : IsRequest whole 1 2 1
request = record {
  rate_finite = refl;
  rate_positive = refl;
  burst_finite = refl;
  burst_positive = refl;
  cost_finite = refl;
  cost_positive = refl;
}

one_key-IsValid : IsValid whole (store_take whole (new_store (pos 2) (pos 50)) 10 a 1 2 1).0
one_key-IsValid =
    (store_take-IsValid whole (new_store (pos 2) (pos 50)) 10 a 1 2 1
      (new_store-IsValid whole (pos 2) (pos 50)) request).0

two_keys-IsValid : IsValid whole two_keys
two_keys-IsValid =
    (store_take-IsValid whole (store_take whole (new_store (pos 2) (pos 50)) 10 a 1 2 1).0 20 b 1 2
      1 one_key-IsValid request).0

store_take-IsValid_example :
    let r = store_take whole two_keys 30 c 1 2 1 in
    let b = bucket_for whole two_keys 30 c 1 2 in
    IsValid whole r.0
    × Spent whole (refill whole b 30) 1 (take whole b 30 1)
    × (r.1 ≡ (take whole b 30 1).1)
store_take-IsValid_example = store_take-IsValid whole two_keys 30 c 1 2 1 two_keys-IsValid request

sweep-IsValid_example :
    IsValid whole (sweep two_keys 65)
    × ((k : Text)
        → lookup text_dec k (sweep two_keys 65).items
          ≡ live two_keys 65 (lookup text_dec k two_keys.items))
sweep-IsValid_example = sweep-IsValid two_keys 65 whole two_keys-IsValid

abbrev use_at : ℕ → Text → Use ℕ
use_at now key = record { now = now; key = key; rate = 1; burst = 2; cost = 1 }

-- `a` is used again before `c` comes in, so that `b` makes room.
runs-Newest_example :
    let s =
      runs whole
        (new_store (pos 2) (pos 50))
        (use_at 10 a ∷ use_at 20 b ∷ use_at 30 a ∷ use_at 40 c ∷ []) in
    (reverse s.order ≡ c ∷ a ∷ [])
    × (length s.items ≡ 2)
    × ((k : Text) → is_some (lookup text_dec k s.items) ≡ contains text_dec k (c ∷ a ∷ []))
unfolding program runs fresh contains
runs-Newest_example =
    runs-Newest whole (pos 2) (pos 50) (use_at 10 a ∷ use_at 20 b ∷ use_at 30 a ∷ use_at 40 c ∷ [])
      (request, (request, (request, (request, tt))))
