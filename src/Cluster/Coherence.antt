-- ===== src/Cluster/Coherence.antt =====
-- A SET through one node of a cluster, and a GET through another.
use mathlib.Core.List.{Perm}
use ringcache.Base.{
  ℕ, ◌≡◌, sym, ◌∙◌, ap, subst, Bool, true, false, List, some, none, some_eq, All, contains, lookup,
}
use ringcache.Base.Int.{pos, ltb_ℤ}
use ringcache.Cluster.{Cluster, Clocks, cluster_get, cluster_set}
use ringcache.Cluster.Deliver.{Placed}
use ringcache.Cluster.Reads.{cluster_get-Holds}
use ringcache.Cluster.Writes.{Owner, Holds, cluster_set-Holds}
use ringcache.Go.Text.{Text, text_dec}
use ringcache.Node.{Node, GetResp, validate_key, validate_value, is_down}
use ringcache.Node.Coherence.{written}
use ringcache.Node.Handlers.{Reply, json, WriteResp, stamp}
use ringcache.Node.Invariant.{IsValid}
use ringcache.Node.Peers.{World, KvBody}
use ringcache.Ring

-- Read your writes through any node. A valid node `n` of a cluster answers a SET with 200, where
-- the nodes of the key's owners take the write; then a GET of the key at any valid node `d` of
-- the cluster after it, which knows the same owners at the same URLs and takes none for down,
-- before the entry expires, is answered with 200 and with the value and the time of writing
-- that were set, by one of the owners.
pub cluster_get-cluster_set :
    (site : Text → Text) (k later : Clocks) (c c' : Cluster) (w u : World) (unix_nano : ℕ)
    (n d : Node) (body : KvBody) (os : List Text) (r : WriteResp)
    → ((i j : Text) → site i ≡ site j → i ≡ j)
    → IsValid n
    → lookup text_dec (site n.cfg.id) c ≡ some n
    → w.asked n.cfg.id ≡ k.now (site n.cfg.id)
    → validate_key body.key ≡ none
    → validate_value body.value ≡ none
    → ltb_ℤ body.ttl_ms (pos 0) ≡ false
    → Ring.owners n.ring body.key n.cfg.replicas ≡ some os
    → Placed site n os
    → All (λ o. Owner k c (stamp unix_nano body) (later.now (site o)) (site o)) os
    → ((rs : List (Text × Bool)) → Perm (w.arrival rs) rs)
    → cluster_set k w unix_nano c (site n.cfg.id) body ≡ some (c', json 200 r)
    → IsValid d
    → lookup text_dec (site d.cfg.id) c' ≡ some d
    → u.asked d.cfg.id ≡ later.now (site d.cfg.id)
    → Ring.owners d.ring body.key d.cfg.replicas ≡ some os
    → Placed site d os
    → All (λ o. (is_down d (u.asked o) o).1 ≡ false) os
    → (g : GetResp) × (cluster_get later u c' (site d.cfg.id) body.key ≡ some (json 200 g))
      × (contains text_dec g.served_by os ≡ true)
      × (g.found ≡ true)
      × (g.value ≡ body.value)
      × (g.written_at ≡ (stamp unix_nano body).written_at)
cluster_get-cluster_set site k later c c' w u unix_nano n d body os r apart v serves clock key_ok
      value_ok ttl_ok owned placed owners arrives wrote v' serves' clock' owned' placed' up =
    let (c'', _, e, _, _, hold) =
      cluster_set-Holds site k c w unix_nano n body os (λ url. later.now url) apart v serves clock
        key_ok value_ok ttl_ok owned placed owners arrives in
    let same : c'' ≡ c' = ap (λ (x : Cluster × Reply WriteResp). x.0) (some_eq (sym e ∙ wrote)) in
    cluster_get-Holds site later c' u d body.key os
      (λ o. written (k.now (site o)) (stamp unix_nano body)) v' serves' clock' key_ok owned' placed'
      (subst
        (λ x.
          All
            (λ o.
              Holds x (site o) (later.now (site o)) body.key
                (written (k.now (site o)) (stamp unix_nano body)))
            os)
        same hold)
      up
