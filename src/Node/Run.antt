-- ===== src/Node/Run.antt =====
-- Histories of requests to one node of internal/node/node.go.
use ringcache.Base.{◌≡◌, refl, ◌∙◌, ap, List, [], ◌∷◌, Option, some, All, All-map, inl, inr}
use ringcache.Go.Float.{Float}
use ringcache.Node.{Node}
use ringcache.Node.Changing.{IsServing, unsettled, Promised-same, cfg-Begins, with_change-IsServing}
use ringcache.Node.Finishing.{as_ended-IsServing}
use ringcache.Node.Handlers.{Started}
use ringcache.Node.Invariant.{SameFor, KeepsFor, Same-refl, write_owner-Keeps}
use ringcache.Node.Peers.{http_put}
use ringcache.Node.Limits.{IsDecoded, handle_take-IsValid, handle_internal_take-IsValid}
use ringcache.Node.Membership.{StartsAs, begin_members_as}
use ringcache.Node.Server.{
  Server, Call, gets, sets, deletes, internals, takes, internal_takes, repairs, begins, finishes,
  Answer, got, wrote, internal, as_answer, as_limited, as_started, no_reply, serve, serve_all,
}
use ringcache.Node.Totality.{
  handle_get-Keeps, handle_set-Keeps, handle_delete-Keeps, handle_internal_kv-Keeps,
}
use ringcache.Ratelimit
use ringcache.Ratelimit.Capacity

module _ {F : Type 0} (fl : Float F) where
  -- JSON keeps the numbers of a decoded body finite.
  abbrev pub HasFinite : Call F → Type 0
  HasFinite (takes send now heard method body) = IsDecoded fl body
  HasFinite (internal_takes now method body) = IsDecoded fl body
  HasFinite _ = Unit

  -- It is answered, and what is true of a server stays true, with the same configuration.
  abbrev pub Served : {R : Type 0} → Server F → Option (Server F × R) → Type 0
  Served {R} s o =
      (t : Server F) × (r : R) × (o ≡ some (t, r)) × IsServing fl t × (t.node.cfg ≡ s.node.cfg)

  with_node-IsServing :
      (s : Server F) (m : Node)
      → IsServing fl s
      → SameFor (unsettled s) s.node m
      → IsServing fl (record s { node = m })
  with_node-IsServing s m v same = record {
    node_valid = same.valid;
    buckets_valid = v.buckets_valid;
    promised =
        All-map _ _ (Promised-same s.node m s.raced same.peers_same same.cfg_same) s.changing
          v.promised;
  }

  with_buckets-IsServing :
      (s : Server F) (m : Node) (t : Ratelimit.Store F)
      → IsServing fl s
      → SameFor (unsettled s) s.node m
      → Capacity.IsValid fl t
      → IsServing fl (record s { node = m; buckets = t })
  with_buckets-IsServing s m t v same w =
      let u = with_node-IsServing s m v same in
      record { node_valid = u.node_valid; buckets_valid = w; promised = u.promised }

  kept-Served :
      {R : Type 0} (s : Server F) (f : R → Answer F) (o : Option (Node × R))
      → IsServing fl s
      → KeepsFor (unsettled s) s.node o
      → Served s (as_answer s f o)
  kept-Served s f o v (m, r, e, same) =
      (_, f r, ap (as_answer s f) e, with_node-IsServing s m v same, same.cfg_same)

  started-IsServing :
      (s : Server F) (r : Node × Started)
      → IsServing fl s
      → StartsAs s.node r
      → IsServing fl (as_started s r).0 × ((as_started s r).0.node.cfg ≡ s.node.cfg)
  started-IsServing s r v (inl (a, e)) = rw e (v, refl)
  started-IsServing s r v (inr (m, c, e, b)) =
      rw e (with_change-IsServing fl s m c v b, cfg-Begins s.node m c b)

  serve-Served :
      (s : Server F) (c : Call F) → IsServing fl s → HasFinite c → Served s (serve fl s c)
  unfolding serve
  serve-Served s (gets w method key) v f =
      kept-Served s got _ v (handle_get-Keeps w s.node method key v.node_valid)
  serve-Served s (sets w unix_nano method body) v f =
      kept-Served s wrote _ v (handle_set-Keeps w unix_nano s.node method body v.node_valid)
  serve-Served s (deletes w method key) v f =
      kept-Served s wrote _ v (handle_delete-Keeps w s.node method key v.node_valid)
  serve-Served s (internals now replying method key body) v f =
      kept-Served s internal _ v
        (handle_internal_kv-Keeps now replying s.node method key body v.node_valid)
  serve-Served s (takes send now heard method body) v f =
      let (m, t, r, e, same, w) =
        handle_take-IsValid fl send now heard s.node s.buckets method body v.node_valid
          v.buckets_valid f in
      (_, _, ap (as_limited s) e, with_buckets-IsServing s m t v same w, same.cfg_same)
  serve-Served s (internal_takes now method body) v f =
      let (e, w) =
        handle_internal_take-IsValid fl now s.node s.buckets method body v.buckets_valid f in
      (_, _, refl, with_buckets-IsServing s _ _ v (same_node e) w, ap (λ (x : Node). x.cfg) e)
    where
      same_node : {m : Node} → m ≡ s.node → SameFor (unsettled s) s.node m
      same_node e = rw e (Same-refl s.node v.node_valid)
  serve-Served s (repairs w now id body) v f =
      kept-Served s (λ _. no_reply) _ v
        (write_owner-Keeps w now s.node http_put id body v.node_valid)
  serve-Served s (begins parses method body id) v f =
      let (u, same) = started-IsServing s _ v (begin_members_as parses s.node method body id) in
      (_, _, refl, u, same)
  serve-Served s (finishes i) v f =
      let (u, same) = as_ended-IsServing fl s i v in (_, _, refl, u, same)

  serve_all-cons :
      (s : Server F) (c : Call F) (cs : List (Call F)) {t u : Server F} {a : Answer F}
      {answers : List (Answer F)}
      → serve fl s c ≡ some (t, a)
      → serve_all fl t cs ≡ some (u, answers)
      → serve_all fl s (c ∷ cs) ≡ some (u, a ∷ answers)
  unfolding serve_all
  serve_all-cons s c cs e f = rw (e, serve_all, f, serve_all) refl

  -- A node with its buckets answers every history of requests, both rate-limit requests among
  -- them, whatever the network and the clocks do, and keeps its configuration and what `IsServing`
  -- says: store and buckets are valid, the node itself is on its ring, and the ring holds exactly
  -- the named peers, but for ids of which a change of members is under way, or of which two
  -- have ever been under way at once. A join and a leave take two steps, with any
  -- requests between them, and every other request takes one, but for goroutines of read repair,
  -- which may write at any time after it. A body of a rate-limit request has finite numbers.
  pub serve_all-Served :
      (s : Server F) (cs : List (Call F))
      → IsServing fl s
      → All HasFinite cs
      → Served {R = List (Answer F)} s (serve_all fl s cs)
  unfolding serve_all
  serve_all-Served s [] v f = (s, [], refl, v, refl)
  serve_all-Served s (c ∷ cs) v f =
      let (t, a, e, u, same) = serve-Served s c v f.0 in
      let (w, answers, g, x, same') = serve_all-Served t cs u f.1 in
      (w, a ∷ answers, serve_all-cons s c cs e g, x, same' ∙ same)
