-- ===== src/Cluster/Reads.antt =====
-- A GET at any node of a cluster whose owners hold the entry.
use ringcache.Base.{
  ℕ, ◌≡◌, ◌≢◌, inl, inr, refl, sym, ◌∙◌, ap, ap₂, subst, true, false, not, List, [], ◌∷◌, ◌++◌,
  none, some, some_eq, arith, All, All-contains, contains, filter_by, Bool-cases, lookup, by_dec,
  if◌then◌else◌,
}
use ringcache.Cluster.{Cluster, Clocks, among, address, cluster_get, deliver, receive, answer}
use ringcache.Cluster.Deliver.{Placed}
use ringcache.Cluster.Writes.{Holds}
use ringcache.Go.Text.{Text, text_dec}
use ringcache.Go.Trim.{trim_slashes, trim_left}
use ringcache.Node.{
  Node, GetResp, validate_key, get_payload, peer_url, is_down, is_id, prefer_local,
}
use ringcache.Node.Coherence.{read_owner_local}
use ringcache.Node.Handlers.{
  json, read, internal_get, handle_internal_kv, handle_get, is_get, read_loop,
}
use ringcache.Node.Invariant.{IsValid, Same, is_down-Same, read_owner-Keeps, read_repair-Keeps}
use ringcache.Node.Local.{prefer_local-first}
use ringcache.Node.Peers.{
  World, http_get, answered, gets, Reading, present, unreached, read_owner, ask, reading,
  entry_of_resp,
}
use ringcache.Node.Totality.{owners_total}
use ringcache.Ring
use ringcache.Store.{Store, Entry}
use ringcache.Store

filter_by_self :
    (self : Text) (os : List Text)
    → contains text_dec self os ≡ false
    → filter_by (λ id. is_id id self) os ≡ []
unfolding contains is_id
filter_by_self self [] h = refl
filter_by_self self (o ∷ os) h = ground (arith, filter_by_self self os)

filter_by_others :
    (self : Text) (os : List Text)
    → contains text_dec self os ≡ false
    → filter_by (λ id. not (is_id id self)) os ≡ os
unfolding contains is_id
filter_by_others self [] h = refl
filter_by_others self (o ∷ os) h = ground (arith, filter_by_others self os)

contains_first : (o : Text) (os : List Text) → contains text_dec o (o ∷ os) ≡ true
unfolding contains
contains_first o os = ground arith

-- The owner that is read first is one of the owners.
first_owner :
    (self o : Text) (os : List Text)
    → (first : Text) × (rest : List Text) × (prefer_local (o ∷ os) self ≡ first ∷ rest)
      × (contains text_dec first (o ∷ os) ≡ true)
unfolding prefer_local
first_owner self o os = elim (Bool-cases (contains text_dec self (o ∷ os))) [
  | inl local ↦ let (rest, e) = prefer_local-first (o ∷ os) self local in (self, rest, e, local)
  | inr away ↦ (
    o,
    os,
    ap₂ ◌++◌ (filter_by_self self (o ∷ os) away) (filter_by_others self (o ∷ os) away),
    contains_first o os,
  )
]

internal_get-has :
    (now replying : ℕ) (q : Node) (key : Text) (s : Store) (ent : Entry)
    → validate_key key ≡ none
    → Store.get q.store now key ≡ some (s, some ent)
    → internal_get now replying q key
      ≡ some (record q { store = s }, json 200 (read (get_payload replying key q.cfg.id ent)))
unfolding internal_get
internal_get-has now replying q key s ent v e = rw (v, internal_get, e, internal_get) refl

-- What a node that holds the entry answers a peer.
deliver-gets :
    (k : Clocks) (c : Cluster) (url key : Text) (ent : Entry)
    → validate_key key ≡ none
    → (h : Holds c url (k.now url) key ent)
    → (deliver k c (gets url key)).1
      ≡ answered 200 (some (get_payload (k.replying url) key h.node.cfg.id ent))
unfolding deliver receive handle_internal_kv answer
deliver-gets k c url key ent v h =
    rw
      (
        h.serves,
        deliver,
        internal_get-has (k.now url) (k.replying url) h.node key h.store ent v h.has,
        deliver,
      )
      refl

reading-payload :
    (now replying : ℕ) (key id : Text) (ent : Entry)
    → reading now (answered 200 (some (get_payload replying key id ent)))
      ≡ present (entry_of_resp now (get_payload replying key id ent))
unfolding reading get_payload
reading-payload now replying key id ent = refl

no_slashes : trim_slashes [] ≡ []
unfolding trim_slashes trim_left
no_slashes = refl

ask-gets :
    (w : World) (n : Node) (id key url : Text)
    → address n id ≡ url
    → url ≢ []
    → ask w n id key ≡ reading (w.heard id) (w.send (gets url key))
unfolding ask
ask-gets w n id key url e some_url =
    by_dec (λ r. r ≡ reading (w.heard id) (w.send (gets url key))) (text_dec (peer_url n id) [])
      (λ none_there. absurd (some_url (sym e ∙ ap trim_slashes none_there ∙ no_slashes)))
      (λ _. ap (λ u. reading (w.heard id) (w.send (gets u key))) e)

address-Same : (n m : Node) (id : Text) → Same n m → address m id ≡ address n id
unfolding peer_url
address-Same n m id s = ap (λ ps. address (record n { peers = ps }) id) s.peers_same

read_owner-peer :
    (w : World) (n : Node) (id key url : Text)
    → IsValid n
    → id ≢ n.cfg.id
    → (is_down n (w.asked id) id).1 ≡ false
    → address n id ≡ url
    → url ≢ []
    → read_owner w n id key
      ≡ some ((is_down n (w.asked id) id).0, reading (w.heard id) (w.send (gets url key)))
unfolding read_owner
read_owner-peer w n id key url v other up e some_url =
    let m = (is_down n (w.asked id) id).0 in
    let here = address-Same n m id (is_down-Same n (w.asked id) id v) ∙ e in
    by_dec (λ o. o ≡ some (m, reading (w.heard id) (w.send (gets url key)))) (text_dec id n.cfg.id)
      (λ same. absurd (other same))
      (λ _.
        ap (λ down. some (m, if down then unreached else ask w m id key)) up
        ∙ ap (λ r. some (m, r)) (ask-gets w m id key url here some_url))

-- The entry that a node hands out has the value of the one that it holds.
abbrev SameValue : Entry → Entry → Type 0
SameValue a b = (a.value ≡ b.value) × (a.written_at ≡ b.written_at)

read_loop_present :
    (w : World) (n m : Node) (key o : Text) (ids owners : List Text) (ent : Entry)
    → IsValid m
    → read_owner w n o key ≡ some (m, present ent)
    → (l : Node) × (read_loop w n key owners (o ∷ ids) false
        ≡ some (l, json 200 (get_payload w.replying key o ent)))
unfolding read_loop
read_loop_present w n m key o ids owners ent valid e =
    let (l, _, g, _) = read_repair-Keeps w m key ent owners o valid in
    (l, rw (e, read_loop, g, read_loop) refl)

handle_get_owned :
    (w : World) (n l : Node) (key o first : Text) (os rest : List Text) (g : GetResp)
    → validate_key key ≡ none
    → Ring.owners n.ring key n.cfg.replicas ≡ some (o ∷ os)
    → prefer_local (o ∷ os) n.cfg.id ≡ first ∷ rest
    → read_loop w n key (o ∷ os) (first ∷ rest) false ≡ some (l, json 200 g)
    → handle_get w n http_get key ≡ some (l, json 200 g)
unfolding handle_get is_get
handle_get_owned w n l key o first os rest g key_ok owned order loop =
    rw (key_ok, handle_get, owned, handle_get)
      (ap (λ ids. read_loop w n key (o ∷ os) ids false) order ∙ loop)

module _ (site : Text → Text) (k : Clocks) (c : Cluster) (w : World) (d : Node) (key : Text)
    (os : List Text) (ents : Text → Entry) (v : IsValid d)
    (serves : lookup text_dec (site d.cfg.id) c ≡ some d)
    (clock : w.asked d.cfg.id ≡ k.now (site d.cfg.id)) (key_ok : validate_key key ≡ none)
    (placed : Placed site d os)
    (hold : All (λ o. Holds c (site o) (k.now (site o)) key (ents o)) os)
    (up : All (λ o. (is_down d (w.asked o) o).1 ≡ false) os) where
  abbrev ReadAt : Text → Type 0
  ReadAt o =
      (m : Node) × (ent : Entry) × (read_owner (among k c w) d o key ≡ some (m, present ent))
      × SameValue ent (ents o)

  read_home : Holds c (site d.cfg.id) (k.now (site d.cfg.id)) key (ents d.cfg.id) → ReadAt d.cfg.id
  read_home h =
      let same : h.node ≡ d = some_eq (sym h.serves ∙ serves) in
      let has : Store.get d.store (w.asked d.cfg.id) key ≡ some (h.store, some (ents d.cfg.id)) =
        ap₂ (λ (p : Node) t. Store.get p.store t key) (sym same) clock ∙ h.has in
      (
        record d { store = h.store },
        ents d.cfg.id,
        read_owner_local (among k c w) d key (ents d.cfg.id) h.store has,
        (refl, refl),
      )

  read_away :
      (o : Text)
      → o ≢ d.cfg.id
      → address d o ≡ site o
      → site o ≢ []
      → (is_down d (w.asked o) o).1 ≡ false
      → Holds c (site o) (k.now (site o)) key (ents o)
      → ReadAt o
  unfolding entry_of_resp get_payload
  read_away o other at some_url alive h =
      let payload = get_payload (k.replying (site o)) key h.node.cfg.id (ents o) in
      let m = (is_down d (w.asked o) o).0 in
      (
        m,
        entry_of_resp (w.heard o) payload,
        read_owner-peer (among k c w) d o key (site o) v other alive at some_url
            ∙ ap (λ r. some (m, reading (w.heard o) r))
                (deliver-gets k c (site o) key (ents o) key_ok h)
            ∙ ap (λ r. some (m, r))
                (reading-payload (w.heard o) (k.replying (site o)) key h.node.cfg.id (ents o)),
        (refl, refl),
      )

  read_at : (o : Text) → contains text_dec o os ≡ true → ReadAt o
  read_at o here =
      let HoldsAt : Text → Type 0 = λ i. Holds c (site i) (k.now (site i)) key (ents i) in
      let PlacedAt : Text → Type 0 = λ i. (address d i ≡ site i) × (site i ≢ []) in
      let h = All-contains text_dec HoldsAt o os here hold in
      let (at, some_url) = All-contains text_dec PlacedAt o os here placed in
      let alive = All-contains text_dec (λ i. (is_down d (w.asked i) i).1 ≡ false) o os here up in
      elim (text_dec o d.cfg.id) [
        | yes e ↦ subst ReadAt (sym e) (read_home (subst HoldsAt e h))
        | no other ↦ read_away o other at some_url alive h
      ]

  -- The loop ends with the first owner.
  read_first :
      (o : Text) (ids : List Text)
      → contains text_dec o os ≡ true
      → (m : Node) × (ent : Entry) × (read_loop (among k c w) d key os (o ∷ ids) false
          ≡ some (m, json 200 (get_payload w.replying key o ent)))
        × SameValue ent (ents o)
  read_first o ids here =
      let (m, ent, e, same) = read_at o here in
      let (_, _, f, s) = read_owner-Keeps (among k c w) d o key v in
      let valid = subst IsValid (ap (λ (r : Node × Reading). r.0) (some_eq (sym f ∙ e))) s.valid in
      let (l, g) = read_loop_present (among k c w) d m key o ids os ent valid e in (l, ent, g, same)

-- A GET at any node finds what the owners hold. In a cluster whose owners of a key hold entries
-- for it, at a valid node that knows the owners' URLs and takes none of them for down: a GET of
-- the key is answered with 200, by an owner, with the value and the time of writing of the entry
-- that this owner holds.
pub cluster_get-Holds :
    (site : Text → Text) (k : Clocks) (c : Cluster) (w : World) (d : Node) (key : Text)
    (os : List Text) (ents : Text → Entry)
    → IsValid d
    → lookup text_dec (site d.cfg.id) c ≡ some d
    → w.asked d.cfg.id ≡ k.now (site d.cfg.id)
    → validate_key key ≡ none
    → Ring.owners d.ring key d.cfg.replicas ≡ some os
    → Placed site d os
    → All (λ o. Holds c (site o) (k.now (site o)) key (ents o)) os
    → All (λ o. (is_down d (w.asked o) o).1 ≡ false) os
    → (g : GetResp) × (cluster_get k w c (site d.cfg.id) key ≡ some (json 200 g))
      × (contains text_dec g.served_by os ≡ true)
      × (g.found ≡ true)
      × (g.value ≡ (ents g.served_by).value)
      × (g.written_at ≡ (ents g.served_by).written_at)
unfolding cluster_get get_payload
cluster_get-Holds site k c w d key [] ents v serves clock key_ok owned placed hold up =
    let (o, rest, e) = owners_total d key v in absurd (no_owner o rest (some_eq (sym e ∙ owned)))
  where
    no_owner : (o : Text) (rest : List Text) → o ∷ rest ≡ [] → ⊥
    no_owner o rest e = cc
cluster_get-Holds site k c w d key (o ∷ os) ents v serves clock key_ok owned placed hold up =
    let (first, rest, order, here) = first_owner d.cfg.id o os in
    let (m, ent, loop, same) =
      read_first site k c w d key (o ∷ os) ents v serves clock key_ok placed hold up first rest
        here in
    let reply =
      handle_get_owned (among k c w) d m key o first os rest (get_payload w.replying key first ent)
        key_ok owned order loop in
    (
      get_payload w.replying key first ent,
      rw (serves, cluster_get, reply, cluster_get) refl,
      here,
      refl,
      same.0,
      same.1,
    )
