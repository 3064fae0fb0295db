-- ===== src/Ratelimit/Tokens.antt =====
-- The token bucket of internal/ratelimit/bucket.go: its bounds and when it pays.
use ringcache.Base.{ℕ, ◌≡◌, ◌≤◌, refl, sym, true, false, arith, if◌then◌else◌, by_if}
use ringcache.Base.Int.{ℤ, pos, pos_part, sub_ℕ}
use ringcache.Go.Float.{Float}
use ringcache.Ratelimit.{
  Bucket, Result, at_least_zero, new_bucket, refill_by, refill, wait_for, retry_after_ms, denied,
  paid, spend, take,
}

module _ {F : Type 0} (fl : Float F) where
  pub record IsValid (b : Bucket F) : Type 0 where
    pub tokens_positive : fl.le fl.zero b.tokens ≡ true
    pub tokens_bounded : fl.le b.tokens b.burst ≡ true
    pub rate_positive : fl.le fl.zero b.rate ≡ true
    pub rate_finite : fl.finite b.rate ≡ true
    pub burst_finite : fl.finite b.burst ≡ true

  le_of_not-lt : (a b : F) → fl.lt a b ≡ false → fl.le b a ≡ true
  le_of_not-lt a b h = ground (arith, fl.lt-not-le a b)

  at_least_zero-positive : (x : F) → fl.le fl.zero (at_least_zero fl x) ≡ true
  unfolding at_least_zero
  at_least_zero-positive x =
      by_if (λ y. fl.le fl.zero y ≡ true) (fl.lt x fl.zero) (λ _. fl.le_refl fl.zero)
        (λ h. le_of_not-lt x fl.zero h)

  at_least_zero-finite : (x : F) → fl.finite x ≡ true → fl.finite (at_least_zero fl x) ≡ true
  unfolding at_least_zero
  at_least_zero-finite x h =
      by_if (λ y. fl.finite y ≡ true) (fl.lt x fl.zero) (λ _. fl.finite_zero) (λ _. h)

  pub at_least_zero_lem : (x : F) → fl.le fl.zero x ≡ true → at_least_zero fl x ≡ x
  unfolding at_least_zero
  at_least_zero_lem x h = ground (arith, fl.lt-not-le x fl.zero)

  pub new_bucket-IsValid :
      (rate burst : F) (now : ℕ)
      → fl.finite rate ≡ true
      → fl.finite burst ≡ true
      → IsValid (new_bucket fl rate burst now)
  unfolding new_bucket
  new_bucket-IsValid rate burst now r b = record {
    tokens_positive = at_least_zero-positive burst;
    tokens_bounded = fl.le_refl (at_least_zero fl burst);
    rate_positive = at_least_zero-positive rate;
    rate_finite = at_least_zero-finite rate r;
    burst_finite = at_least_zero-finite burst b;
  }

  tokens_finite : (b : Bucket F) → IsValid b → fl.finite b.tokens ≡ true
  tokens_finite b v =
      fl.finite_between b.tokens b.burst v.tokens_positive v.tokens_bounded v.burst_finite

  -- What a refill leaves alone, and what it adds to.
  pub record Refilled (b c : Bucket F) : Type 0 where
    pub valid : IsValid c
    pub gains : fl.le b.tokens c.tokens ≡ true
    pub rate_same : c.rate ≡ b.rate
    pub burst_same : c.burst ≡ b.burst

  unchanged : (b : Bucket F) → (now : ℕ) → IsValid b → Refilled b (record b { last_refill = now })
  unchanged b now v = record {
    valid = record {
      tokens_positive = v.tokens_positive;
      tokens_bounded = v.tokens_bounded;
      rate_positive = v.rate_positive;
      rate_finite = v.rate_finite;
      burst_finite = v.burst_finite;
    };
    gains = fl.le_refl b.tokens;
    rate_same = refl;
    burst_same = refl;
  }

  refill_by-Refilled :
      (b : Bucket F) (now : ℕ) (elapsed : F)
      → IsValid b
      → fl.finite elapsed ≡ true
      → Refilled b (refill_by fl b now elapsed)
  unfolding refill_by
  refill_by-Refilled b now elapsed v f =
      by_if (Refilled b) (fl.le elapsed fl.zero) (λ _. unchanged b b.last_refill v)
        (λ forward.
          let started = fl.le_total elapsed fl.zero forward in
          let gain = fl.mul_positive elapsed b.rate f v.rate_finite started v.rate_positive in
          let more = fl.add_above b.tokens (fl.mul elapsed b.rate) (tokens_finite b v) gain in
          let up =
            fl.min_greatest b.burst (fl.add b.tokens (fl.mul elapsed b.rate)) b.tokens
              v.tokens_bounded more in
          record {
            valid = record {
              tokens_positive = fl.le_trans fl.zero b.tokens _ v.tokens_positive up;
              tokens_bounded = fl.min_left b.burst (fl.add b.tokens (fl.mul elapsed b.rate));
              rate_positive = v.rate_positive;
              rate_finite = v.rate_finite;
              burst_finite = v.burst_finite;
            };
            gains = up;
            rate_same = refl;
            burst_same = refl;
          })

  -- A refill of a valid bucket keeps its bounds and limits, and never takes tokens away, even
  -- when the clock stands still or goes back.
  pub refill-Refilled : (b : Bucket F) (now : ℕ) → IsValid b → Refilled b (refill fl b now)
  unfolding refill
  refill-Refilled b now v =
      by_if (Refilled b) (fl.le b.rate fl.zero) (λ _. unchanged b now v)
        (λ _.
          refill_by-Refilled b now (fl.seconds (sub_ℕ now b.last_refill)) v (fl.finite_seconds _))

  -- What a bucket does with a cost that is not negative: the bucket after it, and the answer.
  pub record Spent (b : Bucket F) (cost : F) (r : Bucket F × Result F) : Type 0 where
    pub valid : IsValid r.0
    pub allowed_iff : r.1.allowed ≡ fl.le cost b.tokens
    pub left : r.0.tokens ≡ (if fl.le cost b.tokens then fl.sub b.tokens cost else b.tokens)
    pub told : r.1.remaining ≡ r.0.tokens
    pub waits :
        if fl.le cost b.tokens
        then (r.1.retry_after_ms ≡ pos 0)
        else (1 ≤ pos_part r.1.retry_after_ms)

  wait_for-pos :
      (deficit rate : F) → fl.lt fl.zero deficit ≡ true → 1 ≤ pos_part (wait_for fl deficit rate)
  unfolding wait_for
  wait_for-pos deficit rate h = ground (arith, fl.lt-not-le fl.zero deficit)

  retry_after_ms-pos :
      (b : Bucket F) (cost : F)
      → IsValid b
      → fl.finite cost ≡ true
      → fl.le cost b.tokens ≡ false
      → 1 ≤ pos_part (retry_after_ms fl b.tokens cost b.rate b.burst)
  unfolding retry_after_ms
  retry_after_ms-pos b cost v f h =
      let P : ℤ → Type 0 = λ w. 1 ≤ pos_part w in
      let t = tokens_finite b v in
      by_if P (fl.lt b.burst cost)
        (λ _.
          by_if P (fl.le b.burst b.tokens) (λ _. omega arith)
            (λ k. wait_for-pos (fl.sub b.burst b.tokens) b.rate (
              fl.sub_apart b.tokens b.burst v.burst_finite t
                (ground (arith, fl.lt-not-le b.tokens b.burst)))))
        (λ _.
          wait_for-pos (fl.sub cost b.tokens) b.rate
            (fl.sub_apart b.tokens cost f t (ground (arith, fl.lt-not-le b.tokens cost))))

  denied-Spent :
      (b : Bucket F) (cost : F)
      → IsValid b
      → fl.finite cost ≡ true
      → fl.le cost b.tokens ≡ false
      → Spent b cost (denied fl b cost)
  denied-Spent b cost v f h = record {
    valid = v;
    allowed_iff = sym h;
    left = ground arith;
    told = refl;
    waits = rw (h) (retry_after_ms-pos b cost v f h);
  }

  paid-Spent :
      (b : Bucket F) (cost : F)
      → IsValid b
      → fl.finite cost ≡ true
      → fl.le fl.zero cost ≡ true
      → fl.le cost b.tokens ≡ true
      → Spent b cost (paid fl b cost)
  paid-Spent b cost v f positive h =
      let t = tokens_finite b v in
      record {
        valid = record {
          tokens_positive = fl.sub_positive cost b.tokens t h f;
          tokens_bounded =
              fl.le_trans (fl.sub b.tokens cost) b.tokens b.burst
                (fl.sub_below cost b.tokens t f positive) v.tokens_bounded;
          rate_positive = v.rate_positive;
          rate_finite = v.rate_finite;
          burst_finite = v.burst_finite;
        };
        allowed_iff = sym h;
        left = ground arith;
        told = refl;
        waits = rw (h) refl;
      }

  spend-Spent :
      (b : Bucket F) (cost : F)
      → IsValid b
      → fl.finite cost ≡ true
      → fl.le fl.zero cost ≡ true
      → Spent b cost (spend fl b cost)
  unfolding spend
  spend-Spent b cost v f positive =
      by_if (Spent b cost) (fl.lt b.burst cost) (λ big. denied-Spent b cost v f (too_big big))
        (λ _.
          by_if (Spent b cost) (fl.le cost b.tokens) (paid-Spent b cost v f positive)
            (denied-Spent b cost v f))
    where
      too_big : fl.lt b.burst cost ≡ true → fl.le cost b.tokens ≡ false
      too_big big =
          ground
            (arith, fl.lt-not-le b.burst cost, fl.le_trans cost b.tokens b.burst, v.tokens_bounded)

  -- `Take` with a finite cost of 0 or more, from a valid bucket: it is allowed exactly when the
  -- refilled tokens cover the cost, and then takes the cost from them; otherwise it takes nothing
  -- and asks to wait a millisecond or more. The tokens stay between 0 and the burst.
  pub take-Spent :
      (b : Bucket F) (now : ℕ) (cost : F)
      → IsValid b
      → fl.finite cost ≡ true
      → fl.le fl.zero cost ≡ true
      → Spent (refill fl b now) cost (take fl b now cost)
  unfolding take
  take-Spent b now cost v f positive =
      rw (at_least_zero_lem cost positive)
        (spend-Spent (refill fl b now) cost (refill-Refilled b now v).valid f positive)
