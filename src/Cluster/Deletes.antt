-- ===== src/Cluster/Deletes.antt =====
-- A DELETE at one node of a cluster: every owner forgets the key.
use mathlib.Core.List.{Perm}
use ringcache.Base.{
  ℕ, ◌≡◌, ◌≢◌, ◌<◌, refl, sym, ◌∙◌, ap, subst, Bool, true, false, List, [], map, none, some,
  some_eq, arith, All, All-contains, All-of_contains, contains, length, ◌==◌, lookup, put,
  lookup-put_self, lookup-put_ne, by_dec,
}
use ringcache.Cluster.{
  Cluster, Clocks, among, address, cluster_delete, deliver, deliver_all, requests, receive, answer,
}
use ringcache.Cluster.Acks.{Acks, acked, fanout-acked}
use ringcache.Cluster.Deliver.{Placed, lookup-deliver_all}
use ringcache.Go.Text.{Text, text_dec}
use ringcache.Node.{Node, validate_key, not_found}
use ringcache.Node.Coherence.{owners-Distinct}
use ringcache.Node.Handlers.{
  deleted, json, WriteResp, handle_delete, delete_at_owners, delete_body, handle_internal_kv,
  internal_delete, is_delete,
}
use ringcache.Node.Invariant.{IsValid, Same, Same-trans, collect-Same, with_store}
use ringcache.Node.Local.{write_all_local, collect-store}
use ringcache.Node.Peers.{
  World, http_delete, write_local, write_all, collect, write_peer, deletes, answered, is_acked,
  Response,
}
use ringcache.Node.Totality.{owners_total}
use ringcache.Ring
use ringcache.Store.Reads.{get-delete_key}
use ringcache.Store.Refine.{delete_key-Refines}
use ringcache.Store.{Store}
use ringcache.Store

-- The node of a URL, valid, does not find the key at the time.
pub record Lacks (c : Cluster) (url : Text) (later : ℕ) (key : Text) : Type 0 where
  pub node : Node
  pub store : Store
  pub serves : lookup text_dec url c ≡ some node
  pub valid : IsValid node
  pub gone : Store.get node.store later key ≡ some (store, none)

-- A valid node serves the URL.
pub record Serves (c : Cluster) (url : Text) : Type 0 where
  pub node : Node
  pub serves : lookup text_dec url c ≡ some node
  pub valid : IsValid node

-- A node after a delete.
pub record Deleted (key : Text) (p : Node) : Type 0 where
  pub store : Store
  pub ok : Bool
  pub deletes : Store.delete_key p.store key ≡ some (store, ok)
  pub same : Same p (record p { store = store })

deleted_store : (p : Node) (key : Text) → IsValid p → Deleted key p
deleted_store p key v =
    let (s, e, _, u) = delete_key-Refines p.store key v.store_valid in
    record { store = s; ok = _; deletes = e; same = with_store p s v u }

internal_delete-deletes :
    (p : Node) (key : Text) (s : Store) (ok : Bool)
    → validate_key key ≡ none
    → Store.delete_key p.store key ≡ some (s, ok)
    → internal_delete p key ≡ some (record p { store = s }, json 200 (deleted ok))
unfolding internal_delete
internal_delete-deletes p key s ok v e = rw (v, internal_delete, e, internal_delete) refl

deliver-deletes :
    (k : Clocks) (c : Cluster) (url key : Text) (p : Node) (s : Store) (ok : Bool)
    → validate_key key ≡ none
    → lookup text_dec url c ≡ some p
    → Store.delete_key p.store key ≡ some (s, ok)
    → deliver k c (deletes url key)
      ≡ (put text_dec url (record p { store = s }) c, answered 200 (some (not_found [])))
unfolding deliver answer receive handle_internal_kv
deliver-deletes k c url key p s ok v serves e =
    rw (serves, deliver, internal_delete-deletes p key s ok v e, deliver) refl

module _ (site : Text → Text) (apart : (i j : Text) → site i ≡ site j → i ≡ j) (k : Clocks)
    (c : Cluster) (w : World) (n : Node) (key : Text) (os : List Text) (later : Text → ℕ)
    (v : IsValid n) (serves : lookup text_dec (site n.cfg.id) c ≡ some n)
    (key_ok : validate_key key ≡ none) (owned : Ring.owners n.ring key n.cfg.replicas ≡ some os)
    (placed : Placed site n os) (owners : All (λ o. Serves c (site o)) os)
    (arrives : (rs : List (Text × Bool)) → Perm (w.arrival rs) rs) where
  abbrev there : World
  there = among k c w

  owner_at : (o : Text) → contains text_dec o os ≡ true → Serves c (site o)
  owner_at o here = All-contains text_dec (λ i. Serves c (site i)) o os here owners

  All-acked : All (Acks there n http_delete (delete_body key)) os
  unfolding write_peer is_acked
  All-acked =
      All-of_contains text_dec (Acks there n http_delete (delete_body key)) os (λ o m _. acks o m)
    where
      acks :
          (o : Text)
          → contains text_dec o os ≡ true
          → write_peer there n http_delete o (delete_body key) ≡ true
      acks o m =
          let p = owner_at o m in
          let d = deleted_store p.node key p.valid in
          let (at, some_url) =
            All-contains text_dec (λ i. (address n i ≡ site i) × (site i ≢ [])) o os m placed in
          by_dec (λ b. b ≡ true) (text_dec (address n o) [])
            (λ none_there. absurd (some_url (sym at ∙ none_there)))
            (λ _.
              ap (λ u. is_acked (deliver k c (deletes u key)).1) at
              ∙ ap (λ (x : Cluster × Response). is_acked x.1)
                  (deliver-deletes k c (site o) key p.node d.store d.ok key_ok p.serves d.deletes))

  -- The coordinator's own store, if it is an owner.
  forgot_here :
      (m : Node)
      → contains text_dec n.cfg.id os ≡ true
      → write_all there w.asked n http_delete os (delete_body key) ≡ some (m, map acked os)
      → m.store ≡ (deleted_store n key v).store
  unfolding write_local
  forgot_here m local e =
      let d = deleted_store n key v in
      let here : write_local (w.asked n.cfg.id) n http_delete (delete_body key)
          ≡ some (record n { store = d.store }, true) =
        rw (d.deletes, write_local) refl in
      let (rs, f, _) =
        write_all_local there http_delete (delete_body key) w.asked n (record n { store = d.store })
          os (owners-Distinct n key n.cfg.replicas os v owned) local here refl in
      ap (λ (r : Node × List (Text × Bool)). r.0.store) (some_eq (sym e ∙ f))

  delete_acked :
      0 < length os
      → (m : Node) × (r : WriteResp) × (delete_at_owners there n key ≡ some (m, json 200 r))
        × (r.acked ≡ length os)
        × (r.failed ≡ [])
        × (r.replicas ≡ os)
        × Same n m
        × (contains text_dec n.cfg.id os ≡ true → m.store ≡ (deleted_store n key v).store)
  unfolding delete_at_owners
  delete_acked some_owner =
      let (m, e, f, s) =
        fanout-acked there n http_delete (delete_body key) os tt v All-acked arrives in
      let l = (collect there m (w.arrival (map acked os)) 0 []).0 in
      let r : WriteResp = record { key = key; acked = length os; replicas = os; failed = [] } in
      (
        l,
        r,
        rw (owned, delete_at_owners, f, delete_at_owners, some_acked some_owner) refl,
        refl,
        refl,
        refl,
        Same-trans n m l s (collect-Same there (w.arrival (map acked os)) m 0 [] s.valid),
        λ local. collect-store there (w.arrival (map acked os)) m 0 [] ∙ forgot_here m local e,
      )
    where
      some_acked : 0 < length os → (length os == 0) ≡ false
      some_acked h = ground arith

  -- The cluster after the delete lacks the key at every owner.
  All-lack :
      (m : Node)
      → IsValid m
      → (contains text_dec n.cfg.id os ≡ true → m.store ≡ (deleted_store n key v).store)
      → All
          (λ o.
            Lacks
              (put text_dec
                (site n.cfg.id)
                m
                (deliver_all k c (requests n http_delete os (delete_body key))))
              (site o)
              (later o)
              key)
          os
  All-lack m valid local = All-of_contains text_dec LacksAt os (λ o here.
      elim (text_dec o n.cfg.id) [
        | yes e ↦
            subst LacksAt (sym e) (at_home (subst (λ i. contains text_dec i os ≡ true) e here))
        | no other ↦ away o other here
      ])
    where
      sent : Cluster
      sent = deliver_all k c (requests n http_delete os (delete_body key))

      after : Cluster
      after = put text_dec (site n.cfg.id) m sent

      LacksAt : Text → Type 0
      LacksAt o = Lacks after (site o) (later o) key

      at_home : contains text_dec n.cfg.id os ≡ true → LacksAt n.cfg.id
      at_home here =
          let d = deleted_store n key v in
          let (u, e) =
            get-delete_key n.store d.store d.ok key (later n.cfg.id) v.store_valid d.deletes in
          record {
            node = m;
            store = u;
            serves = lookup-put_self text_dec (site n.cfg.id) m sent;
            valid = valid;
            gone = ap (λ s. Store.get s (later n.cfg.id) key) (local here) ∙ e;
          }

      away : (o : Text) → o ≢ n.cfg.id → contains text_dec o os ≡ true → LacksAt o
      away o other here =
          let p = owner_at o here in
          let d = deleted_store p.node key p.valid in
          let (u, e) =
            get-delete_key p.node.store d.store d.ok key (later o) p.valid.store_valid d.deletes in
          record {
            node = record p.node { store = d.store };
            store = u;
            serves =
                lookup-put_ne text_dec (site n.cfg.id) (site o) m sent
                  (λ f. other (sym (apart n.cfg.id o f)))
                ∙ lookup-deliver_all site apart n http_delete (delete_body key) k o p.node
                    (record p.node { store = d.store }) os c
                    (owners-Distinct n key n.cfg.replicas os v owned) placed here other p.serves
                    (λ c' s.
                      ap (λ (x : Cluster × Response). x.0)
                        (deliver-deletes k c' (site o) key p.node d.store d.ok key_ok s d.deletes));
            valid = d.same.valid;
            gone = e;
          }

handle_delete_key :
    (w : World) (n : Node) (key : Text)
    → validate_key key ≡ none
    → handle_delete w n http_delete key ≡ delete_at_owners w n key
unfolding handle_delete is_delete
handle_delete_key w n key v = rw (v, handle_delete) refl

-- A DELETE through any node reaches every owner. In a cluster whose nodes have URLs of their own,
-- at a valid node that knows the URLs of the key's owners, each of them served by a valid node: a
-- DELETE of a valid key is answered with 200, counts all the owners and names no failure, and
-- afterwards no owner's node finds the key, at any time. The answers may arrive in any order.
pub cluster_delete-Lacks :
    (site : Text → Text) (k : Clocks) (c : Cluster) (w : World) (n : Node) (key : Text)
    (os : List Text) (later : Text → ℕ)
    → ((i j : Text) → site i ≡ site j → i ≡ j)
    → IsValid n
    → lookup text_dec (site n.cfg.id) c ≡ some n
    → validate_key key ≡ none
    → Ring.owners n.ring key n.cfg.replicas ≡ some os
    → Placed site n os
    → All (λ o. Serves c (site o)) os
    → ((rs : List (Text × Bool)) → Perm (w.arrival rs) rs)
    → (c' : Cluster) × (r : WriteResp) × (cluster_delete k w c (site n.cfg.id) key
        ≡ some (c', json 200 r))
      × (r.acked ≡ length os)
      × (r.failed ≡ [])
      × All (λ o. Lacks c' (site o) (later o) key) os
unfolding cluster_delete
cluster_delete-Lacks site k c w n key os later apart v serves key_ok owned placed owners arrives =
    let (m, r, e, acked_all, none_failed, to, s, local) =
      delete_acked site apart k c w n key os later v serves key_ok owned placed owners arrives
        not_empty in
    (
      put text_dec (site n.cfg.id) m
          (deliver_all k c (requests n http_delete r.replicas (delete_body key))),
      r,
      rw
          (
            serves,
            cluster_delete,
            handle_delete_key (among k c w) n key key_ok,
            cluster_delete,
            e,
            cluster_delete,
          )
          refl,
      acked_all,
      none_failed,
      subst
          (λ ids.
            All
              (λ o.
                Lacks
                  (put text_dec (site n.cfg.id) m
                    (deliver_all k c (requests n http_delete ids (delete_body key))))
                  (site o) (later o) key)
              os)
          (sym to)
          (All-lack site apart k c w n key os later v serves key_ok owned placed owners arrives m
            s.valid local),
    )
  where
    not_empty : 0 < length os
    not_empty =
        let (o, rest, e) = owners_total n key v in
        subst (λ ids. 0 < length ids) (some_eq (sym e ∙ owned)) (omega arith)
