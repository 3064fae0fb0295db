-- ===== src/Cluster/Quota.antt =====
-- One bucket for a key in the whole cluster: internal/node/node.go's `handleRateLimitTake` at any
-- node, and `handleInternalRateLimitTake` at the key's primary.
use ringcache.Base.{
  ℕ, ◌≡◌, ◌≢◌, refl, sym, ◌∙◌, ap, subst, Bool-cases, inl, inr, true, false, ◌||◌, Option,
  Option-cases, none, some, [], arith, by_dec, by_if, if◌then◌else◌,
}
use ringcache.Cluster.{address}
use ringcache.Go.Float.{Float}
use ringcache.Go.Text.{Text, text_dec}
use ringcache.Node.{Node, validate_key}
use ringcache.Node.Handlers.{is_write}
use ringcache.Node.Limits.{good_eq}
use ringcache.Node.Peers.{Method, http_post}
use ringcache.Node.Quota.{
  Body, good, Reply, refuse, took, relayed, relay, with_cost, check_cost, parse_body, forward,
  take_here, take_at, handle_take, handle_internal_take,
}
use ringcache.Ratelimit.{Result, Store, store_take}
use ringcache.Ring

module _ {F : Type 0} (fl : Float F) where
  abbrev status_of : Reply F → ℕ
  status_of (refuse status p) = status
  status_of (took r primary) = 200
  status_of (relayed status out) = status

  -- The network of a node whose only peer is the primary, at a URL and a time; `encode` is the
  -- body of a reply.
  unfoldable pub to_primary :
      (Reply F → Text) → ℕ → Node → Store F → Text → Text → Body F → Option (ℕ × Text)
  unfolding handle_internal_take
  to_primary encode now p s site url body = elim (text_dec url site) [
    | no _ ↦ none
    | yes _ ↦
        let r = (handle_internal_take fl now p s http_post (some body)).2 in
        some (status_of r, encode r)
  ]

  defaulted_again :
      (c : F)
      → let d = if fl.eq c fl.zero then fl.one else c in (if fl.eq d fl.zero then fl.one else d) ≡ d
  defaulted_again c = elim (Bool-cases (fl.eq c fl.zero)) [
    | inl e ↦ rw (e) (by_if (λ x. x ≡ fl.one) (fl.eq fl.one fl.zero) (λ _. refl) (λ _. refl))
    | inr e ↦ rw (e, e) refl
  ]

  with_cost_again : (body : Body F) → with_cost fl (with_cost fl body) ≡ with_cost fl body
  with_cost_again body = ap (λ c. record body { cost = c }) (defaulted_again body.cost)

  -- A body that was accepted is accepted again as it is forwarded.
  parse_body_again :
      (body b : Body F) → parse_body fl (some body) ≡ good b → parse_body fl (some b) ≡ good b
  unfolding parse_body
  parse_body_again body b e = elim (Option-cases (validate_key body.key)) [
    | inr (p, h) ↦ absurd (ground arith)
    | inl h ↦ elim (Bool-cases (fl.lt body.rate fl.zero || fl.lt body.burst fl.zero)) [
      | inl low ↦ absurd (ground arith)
      | inr fine ↦ elim (Bool-cases (fl.lt (with_cost fl body).cost fl.zero)) [
        | inl low ↦ absurd (ground arith)
        | inr paid ↦
            let same : with_cost fl body ≡ b = good_eq fl (with_cost fl body) b (ground arith) in
            subst (λ c. parse_body fl (some c) ≡ good c) same (accepted h fine paid)
      ]
    ]
  ]
    where
      accepted :
          validate_key body.key ≡ none
          → (fl.lt body.rate fl.zero || fl.lt body.burst fl.zero) ≡ false
          → fl.lt (with_cost fl body).cost fl.zero ≡ false
          → parse_body fl (some (with_cost fl body)) ≡ good (with_cost fl body)
      accepted h fine paid =
          rw (h, parse_body, fine, parse_body)
            (ap (check_cost fl) (with_cost_again body) ∙ rw (paid) refl)

  internal_take_good :
      (now : ℕ) (p : Node) (s : Store F) (method : Method) (b : Body F)
      → is_write method ≡ true
      → parse_body fl (some b) ≡ good b
      → handle_internal_take fl now p s method (some b) ≡ take_here fl p s now b p.cfg.id
  unfolding handle_internal_take
  internal_take_good now p s method b writes e =
      rw (writes, handle_internal_take, e, handle_internal_take) refl

  forwarded :
      (encode : Reply F → Text) (now : ℕ) (n p : Node) (s : Store F) (site : Text) (b : Body F)
      → address n p.cfg.id ≡ site
      → site ≢ []
      → parse_body fl (some b) ≡ good b
      → forward fl (to_primary encode now p s site) n p.cfg.id b
        ≡ some (200, encode (took (store_take fl s now b.key b.rate b.burst b.cost).1 p.cfg.id))
  unfolding forward to_primary is_write
  forwarded encode now n p s site b at some_url e =
      let reply = took (store_take fl s now b.key b.rate b.burst b.cost).1 p.cfg.id in
      let P : Option (ℕ × Text) → Type 0 = λ o. o ≡ some (200, encode reply) in
      by_dec P (text_dec (address n p.cfg.id) []) (λ blank. absurd (some_url (sym at ∙ blank)))
        (λ _.
          ap (λ url. to_primary encode now p s site url b) at
          ∙ by_dec P (text_dec site site)
              (λ _.
                ap (λ (r : Node × Store F × Reply F). some (status_of r.2, encode r.2))
                  (internal_take_good now p s http_post b refl e))
              (λ ne. absurd (ne refl)))

  handle_take_good :
      (send : Text → Body F → Option (ℕ × Text)) (now heard : ℕ) (n : Node) (s : Store F)
      (method : Method) (body b : Body F) (primary : Text)
      → is_write method ≡ true
      → parse_body fl (some body) ≡ good b
      → Ring.primary n.ring b.key ≡ some primary
      → handle_take fl send now heard n s method (some body)
        ≡ some (take_at fl send now heard n s b primary)
  unfolding handle_take
  handle_take_good send now heard n s method body b primary writes e found =
      rw (writes, handle_take, e, handle_take, found, handle_take) refl

  take_at_self :
      (send : Text → Body F → Option (ℕ × Text)) (now heard : ℕ) (p : Node) (s : Store F)
      (b : Body F)
      → p.cfg.id ≢ []
      → take_at fl send now heard p s b p.cfg.id ≡ take_here fl p s now b p.cfg.id
  take_at_self send now heard p s b named =
      let P : Node × Store F × Reply F → Type 0 = λ r. r ≡ take_here fl p s now b p.cfg.id in
      by_dec P (text_dec p.cfg.id []) (λ blank. absurd (named blank))
        (λ _. by_dec P (text_dec p.cfg.id p.cfg.id) (λ _. refl) (λ ne. absurd (ne refl)))

  take_at_other :
      (send : Text → Body F → Option (ℕ × Text)) (now heard : ℕ) (n : Node) (s : Store F)
      (b : Body F) (primary out : Text) (status : ℕ)
      → primary ≢ []
      → primary ≢ n.cfg.id
      → forward fl send n primary b ≡ some (status, out)
      → take_at fl send now heard n s b primary ≡ (n, s, relayed status out)
  take_at_other send now heard n s b primary out status named other e =
      let P : Node × Store F × Reply F → Type 0 = λ r. r ≡ (n, s, relayed status out) in
      by_dec P (text_dec primary []) (λ blank. absurd (named blank))
        (λ _.
          by_dec P (text_dec primary n.cfg.id) (λ same. absurd (other same))
            (λ _. ap (relay fl n s heard primary) e))

  -- One bucket for a key in the cluster. Where a node and the key's primary agree that it is the
  -- primary, and the node has its URL, a request with an accepted body is answered alike at
  -- both: each takes once from the bucket of the primary, which the other node reaches through
  -- `handleInternalRateLimitTake`, relaying its reply and leaving its own buckets alone.
  pub handle_take-primary :
      (encode : Reply F → Text) (send : Text → Body F → Option (ℕ × Text)) (now heard : ℕ)
      (n p : Node) (own s : Store F) (site : Text) (method : Method) (body b : Body F)
      → is_write method ≡ true
      → parse_body fl (some body) ≡ good b
      → Ring.primary n.ring b.key ≡ some p.cfg.id
      → Ring.primary p.ring b.key ≡ some p.cfg.id
      → p.cfg.id ≢ []
      → p.cfg.id ≢ n.cfg.id
      → address n p.cfg.id ≡ site
      → site ≢ []
      → (s' : Store F) × (r : Result F) × (store_take fl s now b.key b.rate b.burst b.cost
          ≡ (s', r))
        × (handle_take fl (to_primary encode now p s site) now heard n own method (some body)
            ≡ some (n, own, relayed 200 (encode (took r p.cfg.id))))
        × (handle_internal_take fl now p s http_post (some b) ≡ (p, s', took r p.cfg.id))
        × (handle_take fl send now heard p s method (some body) ≡ some (p, s', took r p.cfg.id))
  unfolding is_write
  handle_take-primary encode send now heard n p own s site method body b writes e found at_home
        named other at some_url =
      let again = parse_body_again body b e in
      let (s', r) = store_take fl s now b.key b.rate b.burst b.cost in
      (
        s',
        r,
        refl,
        handle_take_good (to_primary encode now p s site) now heard n own method body b p.cfg.id
              writes e found
            ∙ ap some (
                take_at_other (to_primary encode now p s site) now heard n own b p.cfg.id
                  (encode (took r p.cfg.id)) 200 named other
                  (forwarded encode now n p s site b at some_url again)),
        internal_take_good now p s http_post b refl again,
        handle_take_good send now heard p s method body b p.cfg.id writes e at_home
            ∙ ap some (take_at_self send now heard p s b named),
      )
