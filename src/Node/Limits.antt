-- ===== src/Node/Limits.antt =====
-- The rate-limit handlers of internal/node/node.go let only sound limits through to the buckets.
use ringcache.Base.{
  ℕ, ◌≡◌, refl, subst, ap, true, false, ◌||◌, List, [], Option, none, some, arith, ◌⊎◌, inl, inr,
  by_if, by_dec, Bool-cases, Option-cases,
}
use ringcache.Go.Float.{Float}
use ringcache.Go.Text.{Text, text_dec}
use ringcache.Node.{Node, Problem, validate_key}
use ringcache.Node.Handlers.{is_write}
use ringcache.Node.Invariant
use ringcache.Node.Peers.{Method}
use ringcache.Node.Quota.{
  Body, Parsed, bad, good, Reply, with_cost, parse_body, forward, relay, take_at, handle_take,
  handle_internal_take,
}
use ringcache.Ratelimit.{Store}
use ringcache.Ratelimit.Capacity.{IsValid, IsRequest, store_take-IsValid}
use ringcache.Ring.Preference.{primary-preference}

module _ {F : Type 0} (fl : Float F) where
  -- The numbers of a decoded body, which JSON keeps finite.
  pub record IsFinite (body : Body F) : Type 0 where
    pub rate_finite : fl.finite body.rate ≡ true
    pub burst_finite : fl.finite body.burst ≡ true
    pub cost_finite : fl.finite body.cost ≡ true

  positive : (x : F) → fl.lt x fl.zero ≡ false → fl.le fl.zero x ≡ true
  positive x h = ground (arith, fl.lt-not-le x fl.zero)

  pub good_eq : (b c : Body F) → good b ≡ good c → b ≡ c
  good_eq b c e = ap body_of e
    where
      body_of : Parsed F → Body F
      body_of (bad p) = b
      body_of (good d) = d

  -- A body that passes the check has limits and a cost that are finite and not negative.
  parse_body-IsRequest :
      (body b : Body F)
      → IsFinite body
      → parse_body fl (some body) ≡ good b
      → IsRequest fl b.rate b.burst b.cost
  unfolding parse_body
  parse_body-IsRequest body b f e = elim (Option-cases (validate_key body.key)) [
    | inr (p, h) ↦ absurd (ground arith)
    | inl h ↦ elim (Bool-cases (fl.lt body.rate fl.zero || fl.lt body.burst fl.zero)) [
      | inl low ↦ absurd (ground arith)
      | inr fine ↦ elim (Bool-cases (fl.lt (with_cost fl body).cost fl.zero)) [
        | inl low ↦ absurd (ground arith)
        | inr paid ↦
            let same : with_cost fl body ≡ b = good_eq (with_cost fl body) b (ground arith) in
            subst (λ (c : Body F). IsRequest fl c.rate c.burst c.cost) same
              (record {
                rate_finite = f.rate_finite;
                rate_positive = positive body.rate (ground arith);
                burst_finite = f.burst_finite;
                burst_positive = positive body.burst (ground arith);
                cost_finite =
                    by_if (λ x. fl.finite x ≡ true) (fl.eq body.cost fl.zero) (λ _. fl.finite_one)
                      (λ _. f.cost_finite);
                cost_positive = positive (with_cost fl body).cost paid;
              })
      ]
    ]
  ]

  take_at-IsValid :
      (send : Text → Body F → Option (ℕ × Text)) (now heard : ℕ) (n : Node) (s : Store F)
      (b : Body F) (primary : Text)
      → IsValid fl s
      → IsRequest fl b.rate b.burst b.cost
      → IsValid fl (take_at fl send now heard n s b primary).1
  take_at-IsValid send now heard n s b primary v q =
      let P : Node × Store F × Reply F → Type 0 = λ r. IsValid fl r.1 in
      by_dec P (text_dec primary []) (λ _. v)
        (λ _.
          by_dec P (text_dec primary n.cfg.id)
            (λ _. (store_take-IsValid fl s now b.key b.rate b.burst b.cost v q).0)
            (λ _. relayed_same (forward fl send n primary b)))
    where
      relayed_same : (o : Option (ℕ × Text)) → IsValid fl (relay fl n s heard primary o).1
      relayed_same none = v
      relayed_same (some (status, out)) = v

  take_at-Same :
      {moving : List Text} (send : Text → Body F → Option (ℕ × Text)) (now heard : ℕ) (n : Node)
      (s : Store F) (b : Body F) (primary : Text)
      → Invariant.IsValidFor moving n
      → Invariant.SameFor moving n (take_at fl send now heard n s b primary).0
  take_at-Same {moving} send now heard n s b primary v =
      let P : Node × Store F × Reply F → Type 0 = λ r. Invariant.SameFor moving n r.0 in
      by_dec P (text_dec primary []) (λ _. Invariant.Same-refl n v)
        (λ _.
          by_dec P (text_dec primary n.cfg.id) (λ _. Invariant.Same-refl n v)
            (λ _. relayed_same (forward fl send n primary b)))
    where
      relayed_same :
          (o : Option (ℕ × Text)) → Invariant.SameFor moving n (relay fl n s heard primary o).0
      relayed_same none = Invariant.mark_down-Same n heard primary v
      relayed_same (some (status, out)) = Invariant.Same-refl n v

  Parsed-cases : (p : Parsed F) → ((x : Problem) × (p ≡ bad x)) ⊎ ((b : Body F) × (p ≡ good b))
  Parsed-cases (bad x) = inl (x, refl)
  Parsed-cases (good b) = inr (b, refl)

  -- The body of a request, as far as it could be decoded, has finite numbers.
  abbrev pub IsDecoded : Option (Body F) → Type 0
  IsDecoded none = Unit
  IsDecoded (some body) = IsFinite body

  -- A body that passes the check is one that was decoded.
  good-IsRequest :
      (body : Option (Body F)) (b : Body F)
      → IsDecoded body
      → parse_body fl body ≡ good b
      → IsRequest fl b.rate b.burst b.cost
  unfolding parse_body
  good-IsRequest none b f e = absurd (ground arith)
  good-IsRequest (some body) b f e = parse_body-IsRequest body b f e

  -- `handleRateLimitTake` returns for every method and every body with finite numbers, and leaves
  -- the buckets valid: a body with a negative limit or cost never reaches a bucket.
  pub handle_take-IsValid :
      {moving : List Text} (send : Text → Body F → Option (ℕ × Text)) (now heard : ℕ) (n : Node)
      (s : Store F) (method : Method) (body : Option (Body F))
      → Invariant.IsValidFor moving n
      → IsValid fl s
      → IsDecoded body
      → (m : Node) × (t : Store F) × (r : Reply F) × (handle_take fl send now heard n s method body
          ≡ some (m, t, r))
        × Invariant.SameFor moving n m
        × IsValid fl t
  unfolding handle_take
  handle_take-IsValid send now heard n s method body v w f = elim (Bool-cases (is_write method)) [
    | inr no_write ↦ rw (no_write, handle_take) (_, _, _, refl, Invariant.Same-refl n v, w)
    | inl writes ↦ elim (Parsed-cases (parse_body fl body)) [
      | inl (p, e) ↦
          rw (writes, handle_take, e, handle_take) (_, _, _, refl, Invariant.Same-refl n v, w)
      | inr (b, e) ↦
          let found = primary-preference n.ring b.key v.ring_valid in
          rw (writes, handle_take, e, handle_take, found, handle_take)
            (
              _,
              _,
              _,
              refl,
              take_at-Same send now heard n s b _ v,
              take_at-IsValid send now heard n s b _ w (good-IsRequest body b f e),
            )
    ]
  ]

  -- `handleInternalRateLimitTake` leaves the node as it is, and the buckets valid.
  pub handle_internal_take-IsValid :
      (now : ℕ) (n : Node) (s : Store F) (method : Method) (body : Option (Body F))
      → IsValid fl s
      → IsDecoded body
      → ((handle_internal_take fl now n s method body).0 ≡ n)
        × IsValid fl (handle_internal_take fl now n s method body).1
  unfolding handle_internal_take
  handle_internal_take-IsValid now n s method body w f = elim (Bool-cases (is_write method)) [
    | inr no_write ↦ rw (no_write, handle_internal_take) (refl, w)
    | inl writes ↦ elim (Parsed-cases (parse_body fl body)) [
      | inl (p, e) ↦ rw (writes, handle_internal_take, e, handle_internal_take) (refl, w)
      | inr (b, e) ↦
          rw (writes, handle_internal_take, e, handle_internal_take)
            (
              refl,
              (store_take-IsValid fl s now b.key b.rate b.burst b.cost w
                  (good-IsRequest body b f e)).0,
            )
    ]
  ]
