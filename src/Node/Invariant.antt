-- ===== src/Node/Invariant.antt =====
-- What the handlers of internal/node/node.go keep true of a node's data: the invariant of a node,
-- and the parts of it that reads and writes of the store leave alone.
use ringcache.Base.{
  ℕ, ◌+◌, ◌++◌, ltb, ◌==◌, ◌≡◌, ◌≢◌, ◌≤◌, refl, ◌∙◌, Bool, true, false, List, [], ◌∷◌, Option, some,
  contains, lookup, by_dec, by_if, Option-cases, inl, inr, is_some,
}
use ringcache.Base.Int.{pos_part}
use ringcache.Go.Text.{Text, text_dec}
use ringcache.Node.{Node, mark_down, is_down, ms_until}
use ringcache.Node.Peers.{
  World, Method, http_get, http_put, http_post, http_delete, http_other, KvBody, Reading,
  read_local, read_owner, write_local, write_owner, write_all, collect, fanout, read_repair, others,
  repair_body, to_duration,
}
use ringcache.Ring.Build
use ringcache.Store.{Store, Entry}
use ringcache.Store.Invariant
use ringcache.Store.Refine.{get-Refines, delete_key-Refines}
use ringcache.Store.Admit.{set-Refines}

-- A node whose ring agrees with its named peers, but for the ids of a list.
pub record IsValidFor (moving : List Text) (n : Node) : Type 0 where
  pub ring_valid : Build.IsValid n.ring
  pub store_valid : Invariant.IsValid n.store
  pub has_self : contains text_dec n.cfg.id n.ring.nodes ≡ true
  pub replicated : 1 ≤ pos_part n.cfg.replicas
  pub agree :
      (id : Text)
      → id ≢ []
      → contains text_dec id moving ≡ false
      → contains text_dec id n.ring.nodes ≡ is_some (lookup text_dec id n.peers)

-- The ring agrees with all the named peers.
abbrev pub IsValid : Node → Type 0
IsValid = IsValidFor []

-- `m` is `n` but for its store and its breaker.
pub record SameFor (moving : List Text) (n m : Node) : Type 0 where
  pub valid : IsValidFor moving m
  pub cfg_same : m.cfg ≡ n.cfg
  pub ring_same : m.ring ≡ n.ring
  pub peers_same : m.peers ≡ n.peers

abbrev pub Same : Node → Node → Type 0
Same = SameFor []

-- The call returns, and changes no more than the store and the breaker.
abbrev pub KeepsFor : {R : Type 0} → List Text → Node → Option (Node × R) → Type 0
KeepsFor {R} moving n o = (m : Node) × (r : R) × (o ≡ some (m, r)) × SameFor moving n m

abbrev pub Keeps : {R : Type 0} → Node → Option (Node × R) → Type 0
Keeps {R} = KeepsFor {R = R} []

pub write_all-cons :
    (w : World) (clock : Text → ℕ) (n : Node) (method : Method) (id : Text) (ids : List Text)
    (body : KvBody) {m l : Node} {ok : Bool} {rs : List (Text × Bool)}
    → write_owner w (clock id) n method id body ≡ some (m, ok)
    → write_all w clock m method ids body ≡ some (l, rs)
    → write_all w clock n method (id ∷ ids) body ≡ some (l, (id, ok) ∷ rs)
unfolding write_all
write_all-cons w clock n method id ids body e f = rw (e, write_all, f, write_all) refl

module _ {moving : List Text} where
  pub Same-refl : (n : Node) → IsValidFor moving n → SameFor moving n n
  Same-refl n v = record { valid = v; cfg_same = refl; ring_same = refl; peers_same = refl }

  pub Same-trans : (n m l : Node) → SameFor moving n m → SameFor moving m l → SameFor moving n l
  Same-trans n m l a b = record {
    valid = b.valid;
    cfg_same = b.cfg_same ∙ a.cfg_same;
    ring_same = b.ring_same ∙ a.ring_same;
    peers_same = b.peers_same ∙ a.peers_same;
  }

  pub with_store :
      (n : Node) (s : Store)
      → IsValidFor moving n
      → Invariant.IsValid s
      → SameFor moving n (record n { store = s })
  with_store n s v w = record {
    valid = record {
      ring_valid = v.ring_valid;
      store_valid = w;
      has_self = v.has_self;
      replicated = v.replicated;
      agree = v.agree;
    };
    cfg_same = refl;
    ring_same = refl;
    peers_same = refl;
  }

  with_down :
      (n : Node) (d : List (Text × ℕ))
      → IsValidFor moving n
      → SameFor moving n (record n { down_until = d })
  with_down n d v = record {
    valid = record {
      ring_valid = v.ring_valid;
      store_valid = v.store_valid;
      has_self = v.has_self;
      replicated = v.replicated;
      agree = v.agree;
    };
    cfg_same = refl;
    ring_same = refl;
    peers_same = refl;
  }

  pub mark_down-Same :
      (n : Node) (now : ℕ) (id : Text) → IsValidFor moving n → SameFor moving n (mark_down n now id)
  unfolding mark_down
  mark_down-Same n now id v =
      by_dec (SameFor moving n) (text_dec id n.cfg.id) (λ _. Same-refl n v) (λ _. with_down n _ v)

  pub is_down-Same :
      (n : Node) (now : ℕ) (id : Text) → IsValidFor moving n → SameFor moving n (is_down n now id).0
  unfolding is_down
  is_down-Same n now id v = elim (Option-cases (lookup text_dec id n.down_until)) [
    | inl e ↦ rw (e, is_down) (Same-refl n v)
    | inr (until, e) ↦
        rw (e, is_down)
          (by_if (λ (r : Node × Bool). SameFor moving n r.0) (ltb now until) (λ _. Same-refl n v)
            (λ _. with_down n _ v))
  ]

  pub read_owner-Keeps :
      (w : World) (n : Node) (id key : Text)
      → IsValidFor moving n
      → KeepsFor moving n (read_owner w n id key)
  unfolding read_owner read_local
  read_owner-Keeps w n id key v =
      by_dec (KeepsFor {R = Reading} moving n) (text_dec id n.cfg.id) (λ _. local)
        (λ _. (_, _, refl, is_down-Same n (w.asked id) id v))
    where
      local : KeepsFor moving n (read_local (w.asked id) n key)
      local =
          let (s, e, _, u) = get-Refines n.store (w.asked id) key v.store_valid in
          rw (e, read_local) (_, _, refl, with_store n s v u)

  write_local-Keeps :
      (now : ℕ) (n : Node) (method : Method) (body : KvBody)
      → IsValidFor moving n
      → KeepsFor moving n (write_local now n method body)
  unfolding write_local
  write_local-Keeps now n http_put body v =
      let (s, e, _, u) =
        set-Refines n.store now body.key body.value (to_duration body.ttl_ms) body.written_at
          v.store_valid in
      rw (e, write_local) (_, _, refl, with_store n s v u)
  write_local-Keeps now n http_delete body v =
      let (s, e, _, u) = delete_key-Refines n.store body.key v.store_valid in
      rw (e, write_local) (_, _, refl, with_store n s v u)
  write_local-Keeps now n http_get body v = (n, false, refl, Same-refl n v)
  write_local-Keeps now n http_post body v = (n, false, refl, Same-refl n v)
  write_local-Keeps now n http_other body v = (n, false, refl, Same-refl n v)

  pub write_owner-Keeps :
      (w : World) (now : ℕ) (n : Node) (method : Method) (id : Text) (body : KvBody)
      → IsValidFor moving n
      → KeepsFor moving n (write_owner w now n method id body)
  unfolding write_owner
  write_owner-Keeps w now n method id body v =
      by_dec (KeepsFor {R = Bool} moving n) (text_dec id n.cfg.id)
        (λ _. write_local-Keeps now n method body v) (λ _. (n, _, refl, Same-refl n v))

  write_all-Keeps :
      (w : World) (clock : Text → ℕ) (n : Node) (method : Method) (ids : List Text) (body : KvBody)
      → IsValidFor moving n
      → KeepsFor moving n (write_all w clock n method ids body)
  unfolding write_all
  write_all-Keeps w clock n method [] body v = (n, [], refl, Same-refl n v)
  write_all-Keeps w clock n method (id ∷ ids) body v =
      let (m, ok, e, s) = write_owner-Keeps w (clock id) n method id body v in
      let (l, rs, f, t) = write_all-Keeps w clock m method ids body s.valid in
      (l, (id, ok) ∷ rs, write_all-cons w clock n method id ids body e f, Same-trans n m l s t)

  pub collect-Same :
      (w : World) (rs : List (Text × Bool)) (n : Node) (acked : ℕ) (failed : List Text)
      → IsValidFor moving n
      → SameFor moving n (collect w n rs acked failed).0
  unfolding collect
  collect-Same w [] n acked failed v = Same-refl n v
  collect-Same w ((id, true) ∷ rs) n acked failed v = collect-Same w rs n (acked + 1) failed v
  collect-Same w ((id, false) ∷ rs) n acked failed v =
      let s = mark_down-Same n (w.heard id) id v in
      Same-trans n _ _ s
        (collect-Same w rs (mark_down n (w.heard id) id) acked (failed ++ id ∷ []) s.valid)

  pub fanout-Keeps :
      (w : World) (n : Node) (method : Method) (owners : List Text) (body : KvBody)
      → IsValidFor moving n
      → KeepsFor {R = ℕ × List Text} moving n (fanout w n method owners body)
  unfolding fanout
  fanout-Keeps w n method owners body v =
      let (m, rs, e, s) = write_all-Keeps w w.asked n method owners body v in
      rw (e, fanout) (_, _, refl, Same-trans n m _ s (collect-Same w (w.arrival rs) m 0 [] s.valid))

  pub read_repair-Keeps :
      (w : World) (n : Node) (key : Text) (ent : Entry) (owners : List Text) (id : Text)
      → IsValidFor moving n
      → KeepsFor moving n (read_repair w n key ent owners id)
  unfolding read_repair
  read_repair-Keeps w n key ent owners id v =
      let writes = λ (left : ℕ).
        write_all-Keeps w w.repaired n http_put (w.repairs (others id owners))
          (repair_body key ent left) v in
      by_if (KeepsFor {R = List (Text × Bool)} moving n) (ent.expires_at == 0) (λ _. writes 0)
        (λ _.
          by_if (KeepsFor {R = List (Text × Bool)} moving n)
            (ms_until w.repairing ent.expires_at == 0) (λ _. (n, [], refl, Same-refl n v))
            (λ _. writes (ms_until w.repairing ent.expires_at)))
