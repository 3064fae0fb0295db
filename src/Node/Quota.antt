-- ===== src/Node/Quota.antt =====
-- The rate-limit handlers of internal/node/node.go: a request is checked, and taken from the
-- bucket of its key at the key's primary owner, which another node forwards it to.
use ringcache.Base.{ℕ, ◌||◌, [], Option, none, some, if◌then◌else◌}
use ringcache.Go.Float.{Float}
use ringcache.Go.Text.{Text, text_dec}
use ringcache.Go.Trim.{trim_slashes}
use ringcache.Node.{
  Node, Problem, bad_method, bad_json, negative_limit, negative_cost, primary_unreachable,
  empty_ring, validate_key, peer_url, mark_down,
}
use ringcache.Node.Handlers.{is_write}
use ringcache.Node.Peers.{Method}
use ringcache.Ratelimit.{Result, Store, store_take}
use ringcache.Ring

-- `rateLimitBody`
pub record Body (F : Type 0) : Type 0 where
  pub key : Text
  pub rate : F
  pub burst : F
  pub cost : F

pub data Parsed (F : Type 0) : Type 0 where
  bad : Problem → Parsed F
  good : Body F → Parsed F

-- An error, the answer of this node's bucket with the primary, or what the primary replied.
pub data Reply (F : Type 0) : Type 0 where
  refuse : ℕ → Problem → Reply F
  took : Result F → Text → Reply F
  relayed : ℕ → Text → Reply F

module _ {F : Type 0} (fl : Float F) where
  abbrev pub check_cost : Body F → Parsed F
  check_cost body = if fl.lt body.cost fl.zero then bad negative_cost else good body

  -- A cost that is left out is 1.
  abbrev pub with_cost : Body F → Body F
  with_cost body = record body { cost = if fl.eq body.cost fl.zero then fl.one else body.cost }

  -- `parseRateLimitBody`; `none` is a body that is not JSON.
  unfoldable pub parse_body : Option (Body F) → Parsed F
  parse_body none = bad bad_json
  parse_body (some body) = elim (validate_key body.key) [
    | some p ↦ bad p
    | none ↦
        if fl.lt body.rate fl.zero || fl.lt body.burst fl.zero
        then bad negative_limit
        else check_cost (with_cost body)
  ]

  abbrev pub take_here : Node → Store F → ℕ → Body F → Text → Node × Store F × Reply F
  take_here n s now body primary =
      let (s', r) = store_take fl s now body.key body.rate body.burst body.cost in
      (n, s', took r primary)

  -- `forwardRateLimit`: `send` is the POST to a peer's base URL, with its status and body.
  unfoldable pub forward :
      (Text → Body F → Option (ℕ × Text)) → Node → Text → Body F → Option (ℕ × Text)
  forward send n id body =
      let url = trim_slashes (peer_url n id) in
      elim (text_dec url []) [ yes _ ↦ none | no _ ↦ send url body ]

  abbrev pub relay : Node → Store F → ℕ → Text → Option (ℕ × Text) → Node × Store F × Reply F
  relay n s heard id none = (mark_down n heard id, s, refuse 503 primary_unreachable)
  relay n s heard id (some (status, out)) = (n, s, relayed status out)

  abbrev pub take_at :
      (Text → Body F → Option (ℕ × Text))
      → ℕ
      → ℕ
      → Node
      → Store F
      → Body F
      → Text
      → Node × Store F × Reply F
  take_at send now heard n s body primary = elim (text_dec primary []) [
    | yes _ ↦ (n, s, refuse 503 empty_ring)
    | no _ ↦ elim (text_dec primary n.cfg.id) [
      | yes _ ↦ take_here n s now body primary
      | no _ ↦ relay n s heard primary (forward send n primary body)
    ]
  ]

  unfoldable pub handle_take :
      (Text → Body F → Option (ℕ × Text))
      → ℕ
      → ℕ
      → Node
      → Store F
      → Method
      → Option (Body F)
      → Option (Node × Store F × Reply F)
  unfolding parse_body forward
  handle_take send now heard n s method body =
      if is_write method
      then elim (parse_body body) [
        | bad p ↦ some (n, s, refuse 400 p)
        | good b ↦ elim (Ring.primary n.ring b.key) [
          | none ↦ none
          | some primary ↦ some (take_at send now heard n s b primary)
        ]
      ]
      else some (n, s, refuse 405 bad_method)

  unfoldable pub handle_internal_take :
      ℕ → Node → Store F → Method → Option (Body F) → Node × Store F × Reply F
  unfolding parse_body
  handle_internal_take now n s method body =
      if is_write method
      then elim (parse_body body) [
        | bad p ↦ (n, s, refuse 400 p)
        | good b ↦ take_here n s now b n.cfg.id
      ]
      else (n, s, refuse 405 bad_method)
