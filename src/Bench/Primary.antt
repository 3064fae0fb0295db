-- ===== src/Bench/Primary.antt =====
-- `lookupPrimary` of cmd/ratebench/main.go against the handler that it asks.
use ringcache.Base.{
  ℕ, zero, suc, ◌≡◌, ◌≢◌, ◌≤◌, refl, ◌∙◌, ap, List, [], ◌∷◌, Option, none, some, arith, take,
  by_dec,
}
use ringcache.Base.Int.{ℤ, pos, negsuc, pos_part}
use ringcache.Go.Text.{Text, text_dec}
use ringcache.Node.{Node}
use ringcache.Node.Handlers.{json, RingResp, ring_resp, handle_ring, is_get}
use ringcache.Node.Invariant.{IsValid}
use ringcache.Node.Peers.{http_get}
use ringcache.Ring
use ringcache.Ring.Preference.{preference, first, owners-preference, primary-preference}

-- `lookupPrimary` on the owners of the reply; `none` is no answer, or one that does not decode.
unfoldable pub lookup_primary : Option (List Text) → Text
lookup_primary none = []
lookup_primary (some []) = []
lookup_primary (some (o ∷ os)) = o

lookup_primary-take : (k : ℕ) (ps : List Text) → first ps ≡ lookup_primary (some (take (suc k) ps))
unfolding lookup_primary first
lookup_primary-take k [] = refl
lookup_primary-take k (p ∷ ps) = refl

handle_ring_owned :
    (n : Node) (key : Text) (os : List Text)
    → key ≢ []
    → Ring.owners n.ring key n.cfg.replicas ≡ some os
    → handle_ring n http_get key ≡ some (json 200 (ring_resp n key os))
unfolding handle_ring is_get
handle_ring_owned n key os named e =
    by_dec (λ o. o ≡ some (json 200 (ring_resp n key os))) (text_dec key [])
      (λ blank. absurd (named blank)) (λ _. rw (e, handle_ring) refl)

owners_at :
    (n : Node) (key : Text) (replicas : ℤ)
    → IsValid n
    → 1 ≤ pos_part replicas
    → (os : List Text) × (Ring.owners n.ring key replicas ≡ some os)
      × (Ring.primary n.ring key ≡ some (lookup_primary (some os)))
owners_at n key (negsuc k) v h = absurd (omega arith)
owners_at n key (pos zero) v h = absurd (omega arith)
owners_at n key (pos (suc k)) v h = (
  take (suc k) (preference n.ring key),
  owners-preference n.ring key v.ring_valid (suc k),
  primary-preference n.ring key v.ring_valid
      ∙ ap some (lookup_primary-take k (preference n.ring key)),
)

-- Asked for the ring of a key that is not "", a valid node answers with owners of which
-- `lookupPrimary` takes the ring's primary.
pub lookup_primary-handle_ring :
    (n : Node) (key : Text)
    → IsValid n
    → key ≢ []
    → (r : RingResp) × (handle_ring n http_get key ≡ some (json 200 r))
      × (Ring.primary n.ring key ≡ some (lookup_primary (some r.owners)))
lookup_primary-handle_ring n key v named =
    let (os, e, p) = owners_at n key n.cfg.replicas v v.replicated in
    (ring_resp n key os, handle_ring_owned n key os named e, p)
