-- ===== src/Node/Totality.antt =====
-- Every handler of internal/node/node.go returns for every request, and keeps the node's invariant.
use ringcache.Base.{
  ℕ, ◌≡◌, ◌≤◌, refl, Bool, true, false, List, [], ◌∷◌, Option, none, some, arith, contains, length,
  by_if, by_option, Option-cases, inl, inr,
}
use ringcache.Base.Int.{ℤ, pos, negsuc, pos_part, ltb_ℤ}
use ringcache.Go.Text.{Text, text_dec}
use ringcache.Node.{
  Node, bad_method, negative_ttl, validate_key, validate_value, GetResp, prefer_local,
}
use ringcache.Node.Handlers.{
  Reply, http_error, WriteResp, KvReply, is_get, is_write, is_delete, read_loop, get_from,
  handle_get, set_at_owners, stamp, handle_set, delete_at_owners, delete_body, handle_delete,
  internal_get, internal_get_found, internal_put, internal_delete, handle_internal_kv,
}
use ringcache.Node.Invariant.{
  IsValidFor, SameFor, KeepsFor, Same-refl, Same-trans, with_store, read_owner-Keeps,
  mark_down-Same, read_repair-Keeps, fanout-Keeps,
}
use ringcache.Node.Peers.{
  World, Method, http_get, http_put, http_post, http_delete, http_other, KvBody, Reading, unreached,
  absent, present, read_owner, to_duration,
}
use ringcache.Ring
use ringcache.Ring.Owners.{owners_lem}
use ringcache.Store.Admit.{set-Refines}
use ringcache.Store
use ringcache.Store.Lru
use ringcache.Store.Refine.{Refines, view, get-Refines, delete_key-Refines}

length-pos : (k : Text) (ks : List Text) → contains text_dec k ks ≡ true → 1 ≤ length ks
unfolding contains
length-pos k [] h = cc
length-pos k (j ∷ js) h = omega arith

module _ {moving : List Text} where
  owners_of :
      (n : Node) (key : Text) (r : ℤ)
      → IsValidFor moving n
      → 1 ≤ pos_part r
      → (o : Text) × (os : List Text) × (Ring.owners n.ring key r ≡ some (o ∷ os))
  owners_of n key (negsuc r) v h = absurd (omega arith)
  owners_of n key (pos r) v h =
      let (os, e, _, _, size) = owners_lem n.ring key r v.ring_valid in
      let some_node = length-pos n.cfg.id n.ring.nodes v.has_self in not_empty os e (omega arith)
    where
      not_empty :
          (os : List Text)
          → Ring.owners n.ring key (pos r) ≡ some os
          → 1 ≤ length os
          → (o : Text) × (os' : List Text) × (Ring.owners n.ring key (pos r) ≡ some (o ∷ os'))
      not_empty [] e h = absurd (omega arith)
      not_empty (o ∷ os) e h = (o, os, e)

  -- A valid node finds at least one owner for every key.
  pub owners_total :
      (n : Node) (key : Text)
      → IsValidFor moving n
      → (o : Text) × (os : List Text) × (Ring.owners n.ring key n.cfg.replicas ≡ some (o ∷ os))
  owners_total n key v = owners_of n key n.cfg.replicas v v.replicated

  from_there :
      {R : Type 0} (n m : Node) {o : Option (Node × R)}
      → SameFor moving n m
      → KeepsFor moving m o
      → KeepsFor moving n o
  from_there n m s (l, r, e, t) = (l, r, e, Same-trans n m l s t)

  refused : {R : Type 0} (n : Node) (r : R) → IsValidFor moving n → KeepsFor moving n (some (n, r))
  refused n r v = (n, r, refl, Same-refl n v)

  -- One turn of the loop, given that the rest of the loop returns.
  read_loop-cons :
      (w : World) (key : Text) (owners ids : List Text) (id : Text) (n m : Node) (reached : Bool)
      (r : Reading)
      → ((l : Node) (b : Bool)
          → IsValidFor moving l
          → KeepsFor {R = Reply GetResp} moving l (read_loop w l key owners ids b))
      → read_owner w n id key ≡ some (m, r)
      → SameFor moving n m
      → KeepsFor {R = Reply GetResp} moving n (read_loop w n key owners (id ∷ ids) reached)
  unfolding read_loop
  read_loop-cons w key owners ids id n m reached unreached rest e s =
      let t = mark_down-Same m (w.heard id) id s.valid in
      rw (e, read_loop) (from_there n _ (Same-trans n m _ s t) (rest _ reached t.valid))
  read_loop-cons w key owners ids id n m reached absent rest e s =
      rw (e, read_loop) (from_there n m s (rest m true s.valid))
  read_loop-cons w key owners ids id n m reached (present ent) rest e s =
      let (l, _, f, t) = read_repair-Keeps w m key ent owners id s.valid in
      rw (e, read_loop, f, read_loop) (l, _, refl, Same-trans n m l s t)

  read_loop-Keeps :
      (w : World) (key : Text) (owners ids : List Text) (n : Node) (reached : Bool)
      → IsValidFor moving n
      → KeepsFor {R = Reply GetResp} moving n (read_loop w n key owners ids reached)
  unfolding read_loop
  read_loop-Keeps w key owners [] n reached v = (n, _, refl, Same-refl n v)
  read_loop-Keeps w key owners (id ∷ ids) n reached v =
      let (m, r, e, s) = read_owner-Keeps w n id key v in
      read_loop-cons w key owners ids id n m reached r
        (λ l b u. read_loop-Keeps w key owners ids l b u) e s

  pub handle_get-Keeps :
      (w : World) (n : Node) (method : Method) (key : Text)
      → IsValidFor moving n
      → KeepsFor {R = Reply GetResp} moving n (handle_get w n method key)
  unfolding handle_get
  handle_get-Keeps w n method key v =
      by_if (KeepsFor {R = Reply GetResp} moving n) (is_get method)
        (λ _.
          by_option (KeepsFor {R = Reply GetResp} moving n) (validate_key key)
            (λ p _. refused n (http_error 400 p) v) (λ _. found))
        (λ _. refused n (http_error 405 bad_method) v)
    where
      found : KeepsFor {R = Reply GetResp} moving n (elim (Ring.owners n.ring key n.cfg.replicas) [
        | none ↦ none
        | some owners ↦ get_from w n key owners
      ])
      found =
          let (o, os, e) = owners_total n key v in
          rw (e) (read_loop-Keeps w key (o ∷ os) (prefer_local (o ∷ os) n.cfg.id) n false v)

  set_at_owners-Keeps :
      (w : World) (n : Node) (body : KvBody)
      → IsValidFor moving n
      → KeepsFor {R = Reply WriteResp} moving n (set_at_owners w n body)
  unfolding set_at_owners
  set_at_owners-Keeps w n body v =
      let (o, os, e) = owners_total n body.key v in
      let (m, r, f, s) = fanout-Keeps w n http_put (o ∷ os) body v in
      rw (e, set_at_owners, f, set_at_owners) (m, _, refl, s)

  pub handle_set-Keeps :
      (w : World) (unix_nano : ℕ) (n : Node) (method : Method) (body : Option KvBody)
      → IsValidFor moving n
      → KeepsFor {R = Reply WriteResp} moving n (handle_set w unix_nano n method body)
  unfolding handle_set
  handle_set-Keeps w unix_nano n method none v = (n, _, refl, Same-refl n v)
  handle_set-Keeps w unix_nano n method (some body) v =
      let P = KeepsFor {R = Reply WriteResp} moving n in
      by_if P (is_write method)
        (λ _.
          by_option P (validate_key body.key) (λ p _. refused n (http_error 400 p) v)
            (λ _.
              by_option P (validate_value body.value) (λ p _. refused n (http_error 400 p) v)
                (λ _.
                  by_if P (ltb_ℤ body.ttl_ms (pos 0))
                    (λ _. refused n (http_error 400 negative_ttl) v)
                    (λ _. set_at_owners-Keeps w n (stamp unix_nano body) v))))
        (λ _. refused n (http_error 405 bad_method) v)

  delete_at_owners-Keeps :
      (w : World) (n : Node) (key : Text)
      → IsValidFor moving n
      → KeepsFor {R = Reply WriteResp} moving n (delete_at_owners w n key)
  unfolding delete_at_owners
  delete_at_owners-Keeps w n key v =
      let (o, os, e) = owners_total n key v in
      let (m, r, f, s) = fanout-Keeps w n http_delete (o ∷ os) (delete_body key) v in
      rw (e, delete_at_owners, f, delete_at_owners) (m, _, refl, s)

  pub handle_delete-Keeps :
      (w : World) (n : Node) (method : Method) (key : Text)
      → IsValidFor moving n
      → KeepsFor {R = Reply WriteResp} moving n (handle_delete w n method key)
  unfolding handle_delete
  handle_delete-Keeps w n method key v =
      let P = KeepsFor {R = Reply WriteResp} moving n in
      by_if P (is_delete method)
        (λ _.
          by_option P (validate_key key) (λ p _. refused n (http_error 400 p) v)
            (λ _. delete_at_owners-Keeps w n key v))
        (λ _. refused n (http_error 405 bad_method) v)

  pub handle_internal_kv-Keeps :
      (now replying : ℕ) (n : Node) (method : Method) (key : Text) (body : Option KvBody)
      → IsValidFor moving n
      → KeepsFor {R = Reply KvReply} moving n (handle_internal_kv now replying n method key body)
  unfolding handle_internal_kv internal_get internal_put internal_delete
  handle_internal_kv-Keeps now replying n http_get key body v =
      by_option (KeepsFor {R = Reply KvReply} moving n) (validate_key key)
        (λ p _. (n, _, refl, Same-refl n v)) (λ _. read (get-Refines n.store now key v.store_valid))
    where
      read :
          Refines (Store.get n.store now key) (Lru.get (view n.store) now key)
          → KeepsFor {R = Reply KvReply} moving n
              (internal_get_found replying n key (Store.get n.store now key))
      read (s, e, _, u) = elim (Option-cases (Lru.get (view n.store) now key).1) [
        | inl gone ↦ rw (e, gone) (_, _, refl, with_store n s v u)
        | inr (ent, there) ↦ rw (e, there) (_, _, refl, with_store n s v u)
      ]
  handle_internal_kv-Keeps now replying n http_put key none v = (n, _, refl, Same-refl n v)
  handle_internal_kv-Keeps now replying n http_put key (some body) v =
      by_option (KeepsFor {R = Reply KvReply} moving n) (validate_key body.key)
        (λ p _. (n, _, refl, Same-refl n v))
        (λ _.
          let (s, e, _, u) =
            set-Refines n.store now body.key body.value (to_duration body.ttl_ms) body.written_at
              v.store_valid in
          rw (e) (_, _, refl, with_store n s v u))
  handle_internal_kv-Keeps now replying n http_delete key body v =
      by_option (KeepsFor {R = Reply KvReply} moving n) (validate_key key)
        (λ p _. (n, _, refl, Same-refl n v))
        (λ _.
          let (s, e, _, u) = delete_key-Refines n.store key v.store_valid in
          rw (e) (_, _, refl, with_store n s v u))
  handle_internal_kv-Keeps now replying n http_post key body v = (n, _, refl, Same-refl n v)
  handle_internal_kv-Keeps now replying n http_other key body v = (n, _, refl, Same-refl n v)
