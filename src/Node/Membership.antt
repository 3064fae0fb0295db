-- ===== src/Node/Membership.antt =====
-- Membership in internal/node/node.go: the node that `New` gives, and what a join and a leave do to
-- the peers and to the ring, each in its step.
use ringcache.Base.{
  ◌≡◌, ◌≢◌, ◌≤◌, refl, sym, subst, ◌∙◌, ap, Bool, true, false, ◌||◌, List, [], ◌∷◌, Option, none,
  some, ◌⊎◌, inl, inr, arith, contains, lookup, is_some, some_eq, delete, put, by_dec, by_if, keys,
  contains-keys, length, contains-erase_self, contains-erase_ne, if◌then◌else◌,
}
use ringcache.Base.Int.{ℤ, pos, pos_part, ltb_ℤ}
use ringcache.Go.Sort.{sort, insert}
use ringcache.Go.Text.{Text, text_dec, text_ltb}
use ringcache.Go.Trim.{trim_space}
use ringcache.Node.{
  Node, Config, Problem, Change, adds, removes, Begun, fails, leads_to, join, leave, new, build,
  defaults, add_all, at_least_1,
}
use ringcache.Node.Handlers.{Reply, Members, Started, replied, under_way, started, begin_members}
use ringcache.Node.Peers.{Method, http_get, http_put, http_post, http_delete, http_other}
use ringcache.Node.Invariant.{IsValid}
use ringcache.Ring.{Ring}
use ringcache.Ring
use ringcache.Ring.Build
use ringcache.Store.Invariant

pub contains-add_self :
    (r : Ring) (id : Text) → id ≢ [] → contains text_dec id (Ring.add r id).nodes ≡ true
unfolding Ring.add Ring.rebuild contains
contains-add_self r id named = ground arith

pub contains-add_ne :
    (r : Ring) (id k : Text)
    → k ≢ id
    → contains text_dec k (Ring.add r id).nodes ≡ contains text_dec k r.nodes
unfolding Ring.add Ring.rebuild contains
contains-add_ne r id k ne = ground arith

pub contains-remove_self :
    (r : Ring) (id : Text) → contains text_dec id (Ring.remove r id).nodes ≡ false
unfolding Ring.remove Ring.rebuild
contains-remove_self r id = ground (arith, contains-erase_self text_dec id r.nodes)

pub contains-remove_ne :
    (r : Ring) (id k : Text)
    → k ≢ id
    → contains text_dec k (Ring.remove r id).nodes ≡ contains text_dec k r.nodes
unfolding Ring.remove Ring.rebuild
contains-remove_ne r id k ne = ground (arith, contains-erase_ne text_dec id k r.nodes ne)

-- What the first part of a change of members leaves.
abbrev pub Begins : Node → Node → Change → Type 0
Begins n m (adds id) =
    (id ≢ []) × ((url : Text) × (m ≡ record n { peers = put text_dec id url n.peers }))
Begins n m (removes id) =
    (id ≢ n.cfg.id)
    × (m ≡ record n {
      peers = delete text_dec id n.peers;
      down_until = delete text_dec id n.down_until;
    })

-- The first part of a change ends with an error, at the same node, or leads to a change of the ring.
abbrev pub BeginsAs : Node → Node × Begun → Type 0
BeginsAs n r =
    ((p : Problem) × (r ≡ (n, fails p)))
    ⊎ ((m : Node) × (c : Change) × (r ≡ (m, leads_to c)) × Begins n m c)

join_as : (parses : Text → Bool) (n : Node) (i u : Text) → BeginsAs n (join parses n i u)
unfolding join
join_as parses n i u =
    by_dec (BeginsAs n) (text_dec (trim_space i) []) (λ _. inl (_, refl))
      (λ named.
        by_dec (BeginsAs n) (text_dec (trim_space u) []) (λ _. inl (_, refl))
          (λ _.
            by_if (BeginsAs n) (parses (trim_space u))
              (λ _. inr (_, adds (trim_space i), refl, (named, (trim_space u, refl))))
              (λ _. inl (_, refl))))

leave_as : (n : Node) (i : Text) → BeginsAs n (leave n i)
unfolding leave
leave_as n i =
    by_dec (BeginsAs n) (text_dec (trim_space i) []) (λ _. inl (_, refl))
      (λ _.
        by_dec (BeginsAs n) (text_dec (trim_space i) n.cfg.id) (λ _. inl (_, refl))
          (λ other. inr (_, removes (trim_space i), refl, (other, refl))))

-- The same of a request to change the members.
abbrev pub StartsAs : Node → Node × Started → Type 0
StartsAs n r =
    ((a : Reply Members) × (r ≡ (n, replied a)))
    ⊎ ((m : Node) × (c : Change) × (r ≡ (m, under_way c)) × Begins n m c)

started_as : (n : Node) (r : Node × Begun) → BeginsAs n r → StartsAs n (started r)
started_as n r (inl (p, e)) = inl (_, ap started e)
started_as n r (inr (m, c, e, b)) = inr (m, c, ap started e, b)

pub begin_members_as :
    (parses : Text → Bool) (n : Node) (method : Method) (body : Option (Text × Text)) (id : Text)
    → StartsAs n (begin_members parses n method body id)
unfolding begin_members
begin_members_as parses n http_get body id = inl (_, refl)
begin_members_as parses n http_put none id = inl (_, refl)
begin_members_as parses n http_put (some (i, u)) id = started_as n _ (join_as parses n i u)
begin_members_as parses n http_post none id = inl (_, refl)
begin_members_as parses n http_post (some (i, u)) id = started_as n _ (join_as parses n i u)
begin_members_as parses n http_delete body id = started_as n _ (leave_as n id)
begin_members_as parses n http_other body id = inl (_, refl)

add_all-IsValid : (ids : List Text) (r : Ring) → Build.IsValid r → Build.IsValid (add_all r ids)
unfolding add_all
add_all-IsValid [] r v = v
add_all-IsValid (id ∷ ids) r v = add_all-IsValid ids (Ring.add r id) (Build.add-IsValid r id v)

contains-add_all :
    (k : Text)
    → k ≢ []
    → (ids : List Text) (r : Ring)
    → contains text_dec k (add_all r ids).nodes
      ≡ contains text_dec k ids || contains text_dec k r.nodes
unfolding add_all contains
contains-add_all k named [] r = refl
contains-add_all k named (id ∷ ids) r =
    contains-add_all k named ids (Ring.add r id) ∙ elim (text_dec k id) [
      | yes p ↦ ground (
        arith,
        subst (λ j. contains text_dec j (Ring.add r id).nodes ≡ true) (sym p)
            (contains-add_self r id (λ e. named (p ∙ e))),
      )
      | no ne ↦ ground (arith, contains-add_ne r id k ne)
    ]

contains-insert :
    (k id : Text) (ids : List Text)
    → contains text_dec k (insert text_ltb id ids) ≡ contains text_dec k (id ∷ ids)
unfolding contains insert
contains-insert k id [] = refl
contains-insert k id (j ∷ js) = ground (arith, contains-insert k id js)

contains-sort :
    (k : Text) (ids : List Text) → contains text_dec k (sort text_ltb ids) ≡ contains text_dec k ids
unfolding contains sort
contains-sort k [] = refl
contains-sort k (j ∷ js) =
    contains-insert k j (sort text_ltb js) ∙ ground (arith, contains-sort k js)

-- The members of the ring that `New` builds are the keys of `Peers`.
contains-build :
    (cfg : Config) (k : Text)
    → k ≢ []
    → contains text_dec k (build cfg).ring.nodes ≡ is_some (lookup text_dec k cfg.peers)
unfolding build Ring.new contains
contains-build cfg k named =
    contains-add_all k named (sort text_ltb (keys cfg.peers)) (Ring.new cfg.vnodes)
    ∙ ground (arith, contains-sort k (keys cfg.peers), contains-keys text_dec k cfg.peers)

capped :
    (m : List (Text × Text)) (k : Text) (x : ℤ)
    → is_some (lookup text_dec k m) ≡ true
    → 1 ≤ pos_part (at_least_1 x 1)
    → 1
      ≤ pos_part
          (if ltb_ℤ (pos (length m)) (at_least_1 x 1) then pos (length m) else at_least_1 x 1)
unfolding lookup
capped [] k x h = cc
capped (e ∷ m) k x h = ground arith

build-IsValid :
    (cfg : Config)
    → cfg.id ≢ []
    → is_some (lookup text_dec cfg.id cfg.peers) ≡ true
    → IsValid (build (defaults cfg))
unfolding build defaults
build-IsValid cfg named listed = record {
  ring_valid = add_all-IsValid (sort text_ltb (keys cfg.peers)) _ (Build.new-IsValid _);
  store_valid = Invariant.new-IsValid _;
  has_self = contains-build (defaults cfg) cfg.id named ∙ listed;
  replicated = capped cfg.peers cfg.id cfg.replicas listed (ground arith);
  agree = λ k named _. contains-build (defaults cfg) k named;
}

-- The node that `New` gives, if it gives one, is valid and has the configured id: it is on its
-- own ring, and the ring holds exactly the peers with a name.
pub new-IsValid : (cfg : Config) (n : Node) → new cfg ≡ some n → IsValid n × (n.cfg.id ≡ cfg.id)
unfolding new build defaults
new-IsValid cfg n =
    let P : Option Node → Type 0 = λ o. o ≡ some n → IsValid n × (n.cfg.id ≡ cfg.id) in
    by_dec P (text_dec cfg.id []) (λ _ e. cc)
      (λ named.
        by_if P (is_some (lookup text_dec cfg.id cfg.peers))
          (λ listed e. (
            subst IsValid (some_eq e) (build-IsValid cfg named listed),
            sym (ap (λ m. m.cfg.id) (some_eq e)),
          ))
          (λ _ e. cc))
