-- ===== src/Cluster/Acks.antt =====
-- A write whose owners all take it: what the coordinator of the fan-out makes of the answers.
use mathlib.Core.List.{Perm}
use ringcache.Base.{
  ℕ, suc, ◌≡◌, ◌≢◌, refl, sym, ◌∙◌, ap, ap₂, Bool, true, List, [], ◌∷◌, map, none, some, arith, All,
  length, by_dec,
}
use ringcache.Cluster.{Clocks, Cluster, among, address, deliver}
use ringcache.Cluster.Deliver.{Takes, deliver-puts}
use ringcache.Go.Sort.{sort}
use ringcache.Go.Text.{Text, text_dec, text_ltb}
use ringcache.Node.{Node, validate_key, peer_url}
use ringcache.Node.Fanout.{count_acked, failures, reported}
use ringcache.Node.Invariant.{
  IsValid, Same, Same-refl, Same-trans, write_owner-Keeps, write_all-cons,
}
use ringcache.Node.Peers.{
  World, Method, http_get, http_put, http_post, http_delete, http_other, KvBody, write_owner,
  write_local, write_peer, write_all, is_acked, fanout, collect, puts, Response,
}
use ringcache.Store.{Store}

-- The methods that write.
abbrev pub Writes : Method → Type 0
Writes http_put = Unit
Writes http_delete = Unit
Writes http_get = ⊥
Writes http_post = ⊥
Writes http_other = ⊥

-- A peer that acknowledges; the node itself needs no answer.
abbrev pub Acks : World → Node → Method → KvBody → Text → Type 0
Acks w n method body id = id ≢ n.cfg.id → write_peer w n method id body ≡ true

acked-write_owner :
    (w : World) (now : ℕ) (n m : Node) (method : Method) (id : Text) (body : KvBody) (ok : Bool)
    → Writes method
    → Acks w n method body id
    → write_owner w now n method id body ≡ some (m, ok)
    → ok ≡ true
unfolding write_owner write_local
acked-write_owner w now n m http_put id body ok writes h e = ground arith
acked-write_owner w now n m http_delete id body ok writes h e = ground arith
acked-write_owner w now n m http_get id body ok writes h e = absurd writes
acked-write_owner w now n m http_post id body ok writes h e = absurd writes
acked-write_owner w now n m http_other id body ok writes h e = absurd writes

write_peer-Same :
    (w : World) (n m : Node) (method : Method) (id : Text) (body : KvBody)
    → Same n m
    → write_peer w m method id body ≡ write_peer w n method id body
unfolding write_peer peer_url
write_peer-Same w n m method id body s =
    ap (λ ps. write_peer w (record n { peers = ps }) method id body) s.peers_same

Acks-Same :
    (w : World) (n m : Node) (method : Method) (body : KvBody) (ids : List Text)
    → Same n m
    → All (Acks w n method body) ids
    → All (Acks w m method body) ids
Acks-Same w n m method body [] s h = tt
Acks-Same w n m method body (id ∷ ids) s h = (
  λ other.
      write_peer-Same w n m method id body s
      ∙ h.0 (λ e. other (e ∙ ap (λ c. c.id) (sym s.cfg_same))),
  Acks-Same w n m method body ids s h.1,
)

abbrev pub acked : Text → Text × Bool
acked id = (id, true)

write_all-acked :
    (w : World) (clock : Text → ℕ) (method : Method) (body : KvBody) (ids : List Text) (n : Node)
    → Writes method
    → IsValid n
    → All (Acks w n method body) ids
    → (m : Node) × (write_all w clock n method ids body ≡ some (m, map acked ids)) × Same n m
unfolding write_all
write_all-acked w clock method body [] n writes v h = (n, refl, Same-refl n v)
write_all-acked w clock method body (id ∷ ids) n writes v h =
    let (m, ok, e, s) = write_owner-Keeps w (clock id) n method id body v in
    let yes_acked = acked-write_owner w (clock id) n m method id body ok writes h.0 e in
    let (l, f, t) =
      write_all-acked w clock method body ids m writes s.valid
        (Acks-Same w n m method body ids s h.1) in
    (
      l,
      write_all-cons w clock n method id ids body (e ∙ ap (λ b. some (m, b)) yes_acked) f,
      Same-trans n m l s t,
    )

count_acked-acked : (ids : List Text) → count_acked (map acked ids) ≡ length ids
unfolding count_acked
count_acked-acked [] = refl
count_acked-acked (id ∷ ids) = ap suc (count_acked-acked ids)

failures-acked : (ids : List Text) → failures (map acked ids) ≡ []
unfolding failures
failures-acked [] = refl
failures-acked (id ∷ ids) = failures-acked ids

-- Every owner acknowledges, whatever the order in which the answers arrive.
pub fanout-acked :
    (w : World) (n : Node) (method : Method) (body : KvBody) (ids : List Text)
    → Writes method
    → IsValid n
    → All (Acks w n method body) ids
    → ((rs : List (Text × Bool)) → Perm (w.arrival rs) rs)
    → (m : Node) × (write_all w w.asked n method ids body ≡ some (m, map acked ids))
      × (fanout w n method ids body
          ≡ some ((collect w m (w.arrival (map acked ids)) 0 []).0, (length ids, [])))
      × Same n m
unfolding fanout sort
fanout-acked w n method body ids writes v h arrives =
    let (m, e, s) = write_all-acked w w.asked method body ids n writes v h in
    let (a, f) = reported w (map acked ids) m (arrives (map acked ids)) in
    (
      m,
      e,
      rw (e, fanout)
          (ap some (
            ap₂ (λ x y. ((collect w m (w.arrival (map acked ids)) 0 []).0, (x, y)))
              (a ∙ count_acked-acked ids) (f ∙ ap (sort text_ltb) (failures-acked ids)))),
      s,
    )

-- A peer whose node takes the write acknowledges it.
pub Takes-Acks :
    (k : Clocks) (c : Cluster) (w : World) (n : Node) (body : KvBody) (site : Text → Text)
    (id : Text) (p : Node) (s : Store)
    → validate_key body.key ≡ none
    → address n id ≡ site id
    → site id ≢ []
    → Takes k c body (site id) p s
    → write_peer (among k c w) n http_put id body ≡ true
unfolding write_peer is_acked
Takes-Acks k c w n body site id p s v e some_url t =
    by_dec (λ b. b ≡ true) (text_dec (address n id) [])
      (λ none_there. absurd (some_url (sym e ∙ none_there)))
      (λ _.
        ap (λ u. is_acked (deliver k c (puts u body)).1) e
        ∙ ap (λ (x : Cluster × Response). is_acked x.1) (deliver-puts k c (site id) body p s v t))
