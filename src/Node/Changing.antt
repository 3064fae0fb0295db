-- ===== src/Node/Changing.antt =====
-- Changes of members of internal/node/node.go that are under way: how the peers and the ring differ
-- between the two steps of `join` and of `leave`.
use ringcache.Base.{
  ◌≡◌, ◌≢◌, sym, ◌∙◌, ap, subst, true, false, List, [], ◌∷◌, ◌++◌, map, arith, All, by_if, contains,
  contains-append, lookup, is_some, if◌then◌else◌, lookup-put_self, lookup-put_ne,
  lookup-delete_self, lookup-delete_ne,
}
use ringcache.Go.Float.{Float}
use ringcache.Go.Text.{Text, text_dec}
use ringcache.Node.{Node, Change, adds, removes}
use ringcache.Node.Invariant.{IsValidFor}
use ringcache.Node.Membership.{Begins}
use ringcache.Node.Server.{Server, change_id, with_change}
use ringcache.Ratelimit.Capacity
use ringcache.Ring.Build

-- The peers have a change of which only the ring's part is left, unless two changes of its id
-- were under way at once.
abbrev pub Promised : Node → List Text → Change → Type 0
Promised n raced (adds id) =
    (id ≢ []) × (contains text_dec id raced ≡ false → is_some (lookup text_dec id n.peers) ≡ true)
Promised n raced (removes id) =
    (id ≢ n.cfg.id)
    × (contains text_dec id raced ≡ false → is_some (lookup text_dec id n.peers) ≡ false)

-- The ids of which a change is under way, or two were at once.
abbrev pub unsettled : {F : Type 0} → Server F → List Text
unsettled s = map change_id s.changing ++ s.raced

pub record IsServing {F : Type 0} (fl : Float F) (s : Server F) : Type 0 where
  pub node_valid : IsValidFor (unsettled s) s.node
  pub buckets_valid : Capacity.IsValid fl s.buckets
  pub promised : All (Promised s.node s.raced) s.changing

-- A node that has the same peers and the same id keeps the promises.
pub Promised-same :
    (n m : Node) (raced : List Text)
    → m.peers ≡ n.peers
    → m.cfg ≡ n.cfg
    → (c : Change) → Promised n raced c
    → Promised m raced c
Promised-same n m raced p q (adds id) (named, h) =
    (named, λ k. ap (λ ps. is_some (lookup text_dec id ps)) p ∙ h k)
Promised-same n m raced p q (removes id) (other, h) =
    (λ e. other (e ∙ ap (λ x. x.id) q), λ k. ap (λ ps. is_some (lookup text_dec id ps)) p ∙ h k)

lookup-Begins :
    (n m : Node) (c : Change) (k : Text)
    → Begins n m c
    → change_id c ≢ k
    → lookup text_dec k m.peers ≡ lookup text_dec k n.peers
lookup-Begins n m (adds id) k (named, (url, e)) ne =
    ap (λ (x : Node). lookup text_dec k x.peers) e ∙ lookup-put_ne text_dec id k url n.peers ne
lookup-Begins n m (removes id) k (other, e) ne =
    ap (λ (x : Node). lookup text_dec k x.peers) e ∙ lookup-delete_ne text_dec id k n.peers ne

pub cfg-Begins : (n m : Node) (c : Change) → Begins n m c → m.cfg ≡ n.cfg
cfg-Begins n m (adds id) (named, (url, e)) = ap (λ (x : Node). x.cfg) e
cfg-Begins n m (removes id) (other, e) = ap (λ (x : Node). x.cfg) e

ring-Begins : (n m : Node) (c : Change) → Begins n m c → m.ring ≡ n.ring
ring-Begins n m (adds id) (named, (url, e)) = ap (λ (x : Node). x.ring) e
ring-Begins n m (removes id) (other, e) = ap (λ (x : Node). x.ring) e

store-Begins : (n m : Node) (c : Change) → Begins n m c → m.store ≡ n.store
store-Begins n m (adds id) (named, (url, e)) = ap (λ (x : Node). x.store) e
store-Begins n m (removes id) (other, e) = ap (λ (x : Node). x.store) e

-- The new promise.
promise-Begins : (n m : Node) (raced : List Text) (c : Change) → Begins n m c → Promised m raced c
promise-Begins n m raced (adds id) (named, (url, e)) = (
  named,
  λ _.
      ap (λ (x : Node). is_some (lookup text_dec id x.peers)) e
      ∙ ap is_some (lookup-put_self text_dec id url n.peers),
)
promise-Begins n m raced (removes id) (other, e) = (
  λ f. other (f ∙ ap (λ (x : Node). x.cfg.id) e),
  λ _.
      ap (λ (x : Node). is_some (lookup text_dec id x.peers)) e
      ∙ ap is_some (lookup-delete_self text_dec id n.peers),
)

-- The ids with two changes at once, after one more change begins.
abbrev raced_with : Text → List Text → List Text → List Text
raced_with id ids raced = if contains text_dec id ids then id ∷ raced else raced

still_raced :
    (id : Text) (ids raced : List Text) (k : Text)
    → contains text_dec k (raced_with id ids raced) ≡ false
    → contains text_dec k raced ≡ false
unfolding contains
still_raced id ids raced k =
    by_if (λ ks. contains text_dec k ks ≡ false → contains text_dec k raced ≡ false)
      (contains text_dec id ids) (λ _ h. ground arith) (λ _ h. h)

now_raced :
    (id : Text) (ids raced : List Text) (k : Text)
    → contains text_dec k ids ≡ true
    → k ≡ id
    → contains text_dec k (raced_with id ids raced) ≡ true
unfolding contains
now_raced id ids raced k h e =
    by_if (λ ks. contains text_dec k ks ≡ true) (contains text_dec id ids) (λ _. ground arith)
      (λ none_there. absurd (ground (arith, ap (λ j. contains text_dec j ids) e)))

kept-Promised :
    (n m : Node) (c : Change) (raced raced' : List Text)
    → Begins n m c
    → ((k : Text) → contains text_dec k raced' ≡ false → contains text_dec k raced ≡ false)
    → (d : Change) → (change_id d ≡ change_id c → contains text_dec (change_id d) raced' ≡ true)
    → Promised n raced d
    → Promised m raced' d
kept-Promised n m c raced raced' b wider (adds id) clash (named, h) = (
  named,
  λ free.
      let ne : change_id c ≢ id = λ e. absurd (ground (arith, clash (sym e), free)) in
      ap is_some (lookup-Begins n m c id b ne) ∙ h (wider id free),
)
kept-Promised n m c raced raced' b wider (removes id) clash (other, h) = (
  λ e. other (e ∙ ap (λ x. x.id) (cfg-Begins n m c b)),
  λ free.
      let ne : change_id c ≢ id = λ e. absurd (ground (arith, clash (sym e), free)) in
      ap is_some (lookup-Begins n m c id b ne) ∙ h (wider id free),
)

All-kept :
    (n m : Node) (c : Change) (raced raced' : List Text)
    → Begins n m c
    → ((k : Text) → contains text_dec k raced' ≡ false → contains text_dec k raced ≡ false)
    → (ds : List Change)
    → ((k : Text)
        → contains text_dec k (map change_id ds) ≡ true
        → k ≡ change_id c
        → contains text_dec k raced' ≡ true)
    → All (Promised n raced) ds
    → All (Promised m raced') ds
unfolding contains
All-kept n m c raced raced' b wider [] clash p = tt
All-kept n m c raced raced' b wider (d ∷ ds) clash p = (
  kept-Promised n m c raced raced' b wider d (λ e. clash (change_id d) (ground arith) e) p.0,
  All-kept n m c raced raced' b wider ds (λ k h e. clash k (ground arith) e) p.1,
)

module _ {F : Type 0} (fl : Float F) where
  -- A change begins.
  pub with_change-IsServing :
      (s : Server F) (m : Node) (c : Change)
      → IsServing fl s
      → Begins s.node m c
      → IsServing fl (with_change s m c)
  unfolding contains
  with_change-IsServing s m c v b =
      let ids = map change_id s.changing in
      let raced' = raced_with (change_id c) ids s.raced in
      let wider = still_raced (change_id c) ids s.raced in
      let same_ring = ring-Begins s.node m c b in
      let same_cfg = cfg-Begins s.node m c b in
      record {
        node_valid = record {
          ring_valid = subst Build.IsValid (sym same_ring) v.node_valid.ring_valid;
          store_valid = rw (store-Begins s.node m c b) v.node_valid.store_valid;
          has_self = rw (same_ring, same_cfg) v.node_valid.has_self;
          replicated = rw (same_cfg) v.node_valid.replicated;
          agree = λ k named free.
              let apart = contains-append text_dec k ids raced' in
              let apart' = contains-append text_dec k ids s.raced in
              let ne : change_id c ≢ k = λ e. absurd (ground (arith, free)) in
              let settled : contains text_dec k (ids ++ s.raced) ≡ false =
                ground (arith, apart, apart', free, wider k) in
              ap (λ r. contains text_dec k r.nodes) same_ring
              ∙ v.node_valid.agree k named settled
              ∙ sym (ap is_some (lookup-Begins s.node m c k b ne));
        };
        buckets_valid = v.buckets_valid;
        promised = (
          promise-Begins s.node m raced' c b,
          All-kept s.node m c s.raced raced' b wider s.changing
              (now_raced (change_id c) ids s.raced) v.promised,
        );
      }
