-- ===== src/Node/Server.antt =====
-- A node of internal/node/node.go with its buckets, and the requests that it serves. A change of
-- members takes two steps, one under the lock of the peers and one under that of the ring, and
-- other requests may come between them; its reply lists members and peers as they are after the
-- second step. Every other request is served in one step, but for the goroutines of its read repair
-- that are not done by then.
use ringcache.Base.{
  ℕ, zero, suc, Bool, List, [], ◌∷◌, Option, none, some, map, contains, if◌then◌else◌,
}
use ringcache.Go.Float.{Float}
use ringcache.Go.Text.{Text, text_dec}
use ringcache.Node.{Node, Change, adds, removes, GetResp}
use ringcache.Node.Handlers.{
  Reply, WriteResp, KvReply, Members, handle_get, handle_set, handle_delete, handle_internal_kv,
  Started, replied, under_way, begin_members, end_members,
}
use ringcache.Node.Peers.{World, Method, http_put, KvBody, write_owner}
use ringcache.Node.Quota
use ringcache.Node.Quota.{Body, handle_take, handle_internal_take}
use ringcache.Ratelimit

-- The requests that change a node's state, each with what its handler meets; `repairs` is the write of
-- a goroutine that `readRepair` started, and `finishes` lets one
-- of the changes of members that are under way, by its place, go on to its end.
pub data Call (F : Type 0) : Type 0 where
  gets : World → Method → Text → Call F
  sets : World → ℕ → Method → Option KvBody → Call F
  deletes : World → Method → Text → Call F
  internals : ℕ → ℕ → Method → Text → Option KvBody → Call F
  takes : (Text → Body F → Option (ℕ × Text)) → ℕ → ℕ → Method → Option (Body F) → Call F
  internal_takes : ℕ → Method → Option (Body F) → Call F
  repairs : World → ℕ → Text → KvBody → Call F
  begins : (Text → Bool) → Method → Option (Text × Text) → Text → Call F
  finishes : ℕ → Call F

pub data Answer (F : Type 0) : Type 0 where
  got : Reply GetResp → Answer F
  wrote : Reply WriteResp → Answer F
  internal : Reply KvReply → Answer F
  limited : Quota.Reply F → Answer F
  membership : Reply Members → Answer F
  no_reply : Answer F

-- `raced` only tells: the ids of which two changes have been under way at once.
pub record Server (F : Type 0) : Type 0 where
  pub node : Node
  pub buckets : Ratelimit.Store F
  pub changing : List Change
  pub raced : List Text

abbrev pub change_id : Change → Text
change_id (adds id) = id
change_id (removes id) = id

unfoldable pub take_out : ℕ → List Change → Option (Change × List Change)
take_out i [] = none
take_out zero (c ∷ cs) = some (c, cs)
take_out (suc i) (c ∷ cs) = elim (take_out i cs) [ none ↦ none | some (d, ds) ↦ some (d, c ∷ ds) ]

module _ {F : Type 0} where
  abbrev pub as_answer :
      {R : Type 0} → Server F → (R → Answer F) → Option (Node × R) → Option (Server F × Answer F)
  as_answer s f none = none
  as_answer s f (some (m, r)) = some (record s { node = m }, f r)

  abbrev pub as_limited :
      Server F → Option (Node × Ratelimit.Store F × Quota.Reply F) → Option (Server F × Answer F)
  as_limited s none = none
  as_limited s (some (m, t, r)) = some (record s { node = m; buckets = t }, limited r)

  -- A change that is under way from now on.
  abbrev pub with_change : Server F → Node → Change → Server F
  with_change s m c = record s {
    node = m;
    changing = c ∷ s.changing;
    raced =
        if contains text_dec (change_id c) (map change_id s.changing)
        then change_id c ∷ s.raced
        else s.raced;
  }

  abbrev pub as_started : Server F → Node × Started → Server F × Answer F
  as_started s (m, replied r) = (record s { node = m }, membership r)
  as_started s (m, under_way c) = (with_change s m c, no_reply)

  abbrev pub as_ended : Server F → Option (Change × List Change) → Server F × Answer F
  as_ended s none = (s, no_reply)
  as_ended s (some (c, cs)) =
      let (m, r) = end_members s.node c in (record s { node = m; changing = cs }, membership r)

module _ {F : Type 0} (fl : Float F) where
  unfoldable pub serve : Server F → Call F → Option (Server F × Answer F)
  unfolding take_out
  serve s (gets w method key) = as_answer s got (handle_get w s.node method key)
  serve s (sets w unix_nano method body) =
      as_answer s wrote (handle_set w unix_nano s.node method body)
  serve s (deletes w method key) = as_answer s wrote (handle_delete w s.node method key)
  serve s (internals now replying method key body) =
      as_answer s internal (handle_internal_kv now replying s.node method key body)
  serve s (takes send now heard method body) =
      as_limited s (handle_take fl send now heard s.node s.buckets method body)
  serve s (internal_takes now method body) =
      as_limited s (some (handle_internal_take fl now s.node s.buckets method body))
  serve s (repairs w now id body) =
      as_answer s (λ _. no_reply) (write_owner w now s.node http_put id body)
  serve s (begins parses method body id) =
      some (as_started s (begin_members parses s.node method body id))
  serve s (finishes i) = some (as_ended s (take_out i s.changing))

  unfoldable pub serve_all : Server F → List (Call F) → Option (Server F × List (Answer F))
  unfolding serve
  serve_all s [] = some (s, [])
  serve_all s (c ∷ cs) = elim (serve s c) [
    | none ↦ none
    | some (t, a) ↦ elim (serve_all t cs) [
      | none ↦ none
      | some (u, answers) ↦ some (u, a ∷ answers)
    ]
  ]
