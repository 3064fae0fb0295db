-- ===== src/Cluster/Writes.antt =====
-- A SET at one node of a cluster whose owners all take the write.
use mathlib.Core.List.{Perm}
use ringcache.Base.{
  ℕ, ◌≡◌, ◌≢◌, ◌<◌, ◌⊎◌, refl, sym, ◌∙◌, ap, ap₂, subst, Bool, true, false, List, [], map, none,
  some, some_eq, arith, All, All-contains, All-of_contains, contains, length, lookup, put,
  lookup-put_self, lookup-put_ne, lt→ltb,
}
use ringcache.Base.Int.{pos, ltb_ℤ}
use ringcache.Cluster.{Cluster, Clocks, among, address, cluster_set, deliver_all, requests}
use ringcache.Cluster.Acks.{Acks, acked, Takes-Acks, fanout-acked}
use ringcache.Cluster.Deliver.{Takes, Takes-Lands, Placed, lookup-deliver_all}
use ringcache.Go.Text.{Text, text_dec}
use ringcache.Node.{Node, validate_key, validate_value}
use ringcache.Node.Coherence.{handle_set_put, owners-Distinct, written}
use ringcache.Node.Handlers.{json, WriteResp, set_at_owners, stamp}
use ringcache.Node.Invariant.{IsValid, Same, Same-trans, collect-Same, with_store}
use ringcache.Node.Local.{write_all_local, collect-store}
use ringcache.Node.Peers.{
  World, http_put, KvBody, write_local, write_all, collect, to_duration, write_peer,
}
use ringcache.Node.Totality.{owners_total}
use ringcache.Ring
use ringcache.Store.Admit.{set-Refines}
use ringcache.Store.Invariant
use ringcache.Store.Reads.{get-set}
use ringcache.Store.{Store, Entry, expiry}
use ringcache.Store

-- The node of a URL has the entry for whoever reads it then.
pub record Holds (c : Cluster) (url : Text) (later : ℕ) (key : Text) (ent : Entry) : Type 0 where
  pub node : Node
  pub store : Store
  pub serves : lookup text_dec url c ≡ some node
  pub valid : IsValid node
  pub has : Store.get node.store later key ≡ some (store, some ent)

-- A valid node at the URL takes the write, and reads it before its time is over.
pub record Owner (k : Clocks) (c : Cluster) (body : KvBody) (later : ℕ) (url : Text) : Type 0 where
  pub node : Node
  pub store : Store
  pub valid : IsValid node
  pub takes : Takes k c body url node store
  pub live :
      (expiry (k.now url) (to_duration body.ttl_ms) ≡ 0)
      ⊎ (later < expiry (k.now url) (to_duration body.ttl_ms))

pub stored-IsValid :
    (p : Node) (s : Store) (now : ℕ) (body : KvBody)
    → IsValid p
    → Store.set p.store now body.key body.value (to_duration body.ttl_ms) body.written_at
      ≡ some (s, true)
    → Same p (record p { store = s })
stored-IsValid p s now body v taken =
    let (s', e, _, u) =
      set-Refines p.store now body.key body.value (to_duration body.ttl_ms) body.written_at
        v.store_valid in
    let stored : s' ≡ s = ap (λ (r : Store × Bool). r.0) (some_eq (sym e ∙ taken)) in
    with_store p s v (subst Invariant.IsValid stored u)

-- An owner holds the entry once its node has the store that took the write.
holds :
    (k : Clocks) (c c' : Cluster) (body : KvBody) (later : ℕ) (url : Text) (q : Node)
    (o : Owner k c body later url)
    → lookup text_dec url c' ≡ some q
    → IsValid q
    → q.store ≡ o.store
    → Holds c' url later body.key (written (k.now url) body)
holds k c c' body later url q o serves valid stored =
    let (u, e) =
      get-set o.node.store o.store (k.now url) later body.key body.value (to_duration body.ttl_ms)
        body.written_at o.valid.store_valid o.takes.takes o.live in
    record {
      node = q;
      store = u;
      serves = serves;
      valid = valid;
      has = ap (λ s. Store.get s later body.key) stored ∙ e;
    }

module _ (site : Text → Text) (apart : (i j : Text) → site i ≡ site j → i ≡ j) (k : Clocks)
    (c : Cluster) (w : World) (n : Node) (body : KvBody) (os : List Text) (later : Text → ℕ)
    (v : IsValid n) (serves : lookup text_dec (site n.cfg.id) c ≡ some n)
    (clock : w.asked n.cfg.id ≡ k.now (site n.cfg.id)) (key_ok : validate_key body.key ≡ none)
    (owned : Ring.owners n.ring body.key n.cfg.replicas ≡ some os) (placed : Placed site n os)
    (owners : All (λ o. Owner k c body (later (site o)) (site o)) os) (some_owner : 0 < length os)
    (arrives : (rs : List (Text × Bool)) → Perm (w.arrival rs) rs) where
  abbrev there : World
  there = among k c w

  All-acked : All (Acks there n http_put body) os
  All-acked = All-of_contains text_dec (Acks there n http_put body) os (λ o m _. acks o m)
    where
      acks : (o : Text) → contains text_dec o os ≡ true → write_peer there n http_put o body ≡ true
      acks o m =
          let owner =
            All-contains text_dec (λ o. Owner k c body (later (site o)) (site o)) o os m owners in
          let (at, some_url) =
            All-contains text_dec (λ o. (address n o ≡ site o) × (site o ≢ [])) o os m placed in
          Takes-Acks k c w n body site o owner.node owner.store key_ok at some_url owner.takes

  -- The coordinator's own store, if it is an owner.
  wrote_here :
      (m : Node)
      → (o : Owner k c body (later (site n.cfg.id)) (site n.cfg.id))
      → contains text_dec n.cfg.id os ≡ true
      → write_all there w.asked n http_put os body ≡ some (m, map acked os)
      → m.store ≡ o.store
  unfolding write_local
  wrote_here m o local e =
      let same : o.node ≡ n = some_eq (sym o.takes.serves ∙ serves) in
      let taken : Store.set n.store (w.asked n.cfg.id) body.key body.value (to_duration body.ttl_ms)
            body.written_at
          ≡ some (o.store, true) =
        ap₂
          (λ (p : Node) t.
            Store.set p.store t body.key body.value (to_duration body.ttl_ms) body.written_at)
          (sym same) clock
        ∙ o.takes.takes in
      let here : write_local (w.asked n.cfg.id) n http_put body
          ≡ some (record n { store = o.store }, true) =
        rw (taken, write_local) refl in
      let (rs, f, _) =
        write_all_local there http_put body w.asked n (record n { store = o.store }) os
          (owners-Distinct n body.key n.cfg.replicas os v owned) local here refl in
      ap (λ (r : Node × List (Text × Bool)). r.0.store) (some_eq (sym e ∙ f))

  set_acked :
      (m : Node) × (r : WriteResp) × (set_at_owners there n body ≡ some (m, json 200 r))
      × (r.acked ≡ length os)
      × (r.failed ≡ [])
      × (r.replicas ≡ os)
      × Same n m
      × ((o : Owner k c body (later (site n.cfg.id)) (site n.cfg.id))
          → contains text_dec n.cfg.id os ≡ true
          → m.store ≡ o.store)
  unfolding set_at_owners
  set_acked =
      let (m, e, f, s) = fanout-acked there n http_put body os tt v All-acked arrives in
      let l = (collect there m (w.arrival (map acked os)) 0 []).0 in
      let r : WriteResp = record {
        key = body.key;
        acked = length os;
        replicas = os;
        failed = [];
      } in
      (
        l,
        r,
        rw (owned, set_at_owners, f, set_at_owners, lt→ltb 0 (length os) some_owner) refl,
        refl,
        refl,
        refl,
        Same-trans n m l s (collect-Same there (w.arrival (map acked os)) m 0 [] s.valid),
        λ o local. collect-store there (w.arrival (map acked os)) m 0 [] ∙ wrote_here m o local e,
      )

  -- The cluster after the write holds the entry at every owner.
  All-hold :
      (m : Node)
      → IsValid m
      → ((o : Owner k c body (later (site n.cfg.id)) (site n.cfg.id))
          → contains text_dec n.cfg.id os ≡ true
          → m.store ≡ o.store)
      → All
          (λ o.
            Holds
              (put text_dec (site n.cfg.id) m (deliver_all k c (requests n http_put os body)))
              (site o)
              (later (site o))
              body.key
              (written (k.now (site o)) body))
          os
  All-hold m valid local = All-of_contains text_dec HoldsAt os (λ o here.
      elim (text_dec o n.cfg.id) [
        | yes e ↦
            subst HoldsAt (sym e) (at_home (subst (λ i. contains text_dec i os ≡ true) e here))
        | no other ↦ away o other here
      ])
    where
      after : Cluster
      after = put text_dec (site n.cfg.id) m (deliver_all k c (requests n http_put os body))

      HoldsAt : Text → Type 0
      HoldsAt o = Holds after (site o) (later (site o)) body.key (written (k.now (site o)) body)

      owner_at :
          (o : Text) → contains text_dec o os ≡ true → Owner k c body (later (site o)) (site o)
      owner_at o here =
          All-contains text_dec (λ i. Owner k c body (later (site i)) (site i)) o os here owners

      at_home : contains text_dec n.cfg.id os ≡ true → HoldsAt n.cfg.id
      at_home here =
          let o = owner_at n.cfg.id here in
          holds k c after body (later (site n.cfg.id)) (site n.cfg.id) m o
            (lookup-put_self text_dec (site n.cfg.id) m
              (deliver_all k c (requests n http_put os body)))
            valid (local o here)

      away : (o : Text) → o ≢ n.cfg.id → contains text_dec o os ≡ true → HoldsAt o
      away o other here =
          let owner = owner_at o here in
          let t = owner.takes in
          holds k c after body (later (site o)) (site o) (record owner.node { store = owner.store })
            owner
            (lookup-put_ne text_dec (site n.cfg.id) (site o) m
                (deliver_all k c (requests n http_put os body))
                (λ e. other (sym (apart n.cfg.id o e)))
              ∙ lookup-deliver_all site apart n http_put body k o owner.node
                  (record owner.node { store = owner.store }) os c
                  (owners-Distinct n body.key n.cfg.replicas os v owned) placed here other t.serves
                  (Takes-Lands k c body (site o) owner.node owner.store key_ok t))
            (stored-IsValid owner.node owner.store (k.now (site o)) body owner.valid t.takes).valid
            refl

-- A SET through any node reaches every owner. In a cluster whose nodes have URLs of their own,
-- at a valid node that knows the URLs of the key's owners: if the key and the value are valid,
-- the ttl is not negative, and the valid node of each owner takes the write, then the SET is
-- answered with 200, counts all the owners and names no failure, and afterwards the node of
-- each owner reads the written entry, at any time before that expires. The answers may arrive
-- in any order.
pub cluster_set-Holds :
    (site : Text → Text) (k : Clocks) (c : Cluster) (w : World) (unix_nano : ℕ) (n : Node)
    (body : KvBody) (os : List Text) (later : Text → ℕ)
    → ((i j : Text) → site i ≡ site j → i ≡ j)
    → IsValid n
    → lookup text_dec (site n.cfg.id) c ≡ some n
    → w.asked n.cfg.id ≡ k.now (site n.cfg.id)
    → validate_key body.key ≡ none
    → validate_value body.value ≡ none
    → ltb_ℤ body.ttl_ms (pos 0) ≡ false
    → Ring.owners n.ring body.key n.cfg.replicas ≡ some os
    → Placed site n os
    → All (λ o. Owner k c (stamp unix_nano body) (later (site o)) (site o)) os
    → ((rs : List (Text × Bool)) → Perm (w.arrival rs) rs)
    → (c' : Cluster) × (r : WriteResp) × (cluster_set k w unix_nano c (site n.cfg.id) body
        ≡ some (c', json 200 r))
      × (r.acked ≡ length os)
      × (r.failed ≡ [])
      × All
          (λ o.
            Holds c'
              (site o)
              (later (site o))
              body.key
              (written (k.now (site o)) (stamp unix_nano body)))
          os
unfolding cluster_set
cluster_set-Holds site k c w unix_nano n body os later apart v serves clock key_ok value_ok ttl_ok
      owned placed owners arrives =
    let stamped = stamp unix_nano body in
    let some_owner = not_empty in
    let (m, r, e, acked_all, none_failed, to, s, local) =
      set_acked site apart k c w n stamped os later v serves clock key_ok owned placed owners
        some_owner arrives in
    (
      put text_dec (site n.cfg.id) m (deliver_all k c (requests n http_put r.replicas stamped)),
      r,
      rw
          (
            serves,
            cluster_set,
            handle_set_put (among k c w) unix_nano n body key_ok value_ok ttl_ok,
            cluster_set,
            e,
            cluster_set,
          )
          refl,
      acked_all,
      none_failed,
      subst
          (λ ids.
            All
              (λ o.
                Holds
                  (put text_dec (site n.cfg.id) m
                    (deliver_all k c (requests n http_put ids stamped)))
                  (site o) (later (site o)) body.key (written (k.now (site o)) stamped))
              os)
          (sym to)
          (All-hold site apart k c w n stamped os later v serves clock key_ok owned placed owners
            some_owner arrives m s.valid local),
    )
  where
    not_empty : 0 < length os
    not_empty =
        let (o, rest, e) = owners_total n body.key v in
        subst (λ ids. 0 < length ids) (some_eq (sym e ∙ owned)) (omega arith)
