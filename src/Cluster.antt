-- ===== src/Cluster.antt =====
-- Several nodes of internal/node/node.go that answer one another's requests. A cluster is its
-- nodes by the base URL that they serve; a request goes to the `/internal/kv` of its URL. The
-- requests of one fan-out go to different nodes, so that the order in which they arrive does
-- not matter, and what each is answered depends on the cluster before them all.
pub mod Deliver
pub mod Acks
pub mod Writes
pub mod Deletes
pub mod Reads
pub mod Coherence
pub mod Quota
pub mod Limited
mod Tests
use ringcache.Base.{ℕ, List, [], ◌∷◌, Option, none, some, lookup, put}
use ringcache.Go.Text.{Text, text_dec}
use ringcache.Go.Trim.{trim_slashes}
use ringcache.Node.{Node, not_found, peer_url, GetResp}
use ringcache.Node.Handlers.{
  Reply, http_error, json, KvReply, read, applied, deleted, WriteResp, handle_internal_kv,
  handle_set, handle_get, handle_delete, delete_body, stamp,
}
use ringcache.Node.Peers.{
  Method, http_get, http_put, http_delete, KvBody, Request, gets, puts, deletes, Response,
  no_answer, answered, World, write_request,
}

abbrev pub Cluster : Type 0
Cluster = List (Text × Node)

-- The clocks of the nodes, by their base URLs: when a request reaches the store, and when its
-- reply is made.
pub record Clocks : Type 0 where
  pub now : Text → ℕ
  pub replying : Text → ℕ

-- A reply as the caller decodes it: a body without the fields of a `getResp` leaves them zero.
unfoldable pub answer : Reply KvReply → Response
answer (http_error status p) = answered status none
answer (json status (read g)) = answered status (some g)
answer (json status (applied ok)) = answered status (some (not_found []))
answer (json status (deleted ok)) = answered status (some (not_found []))

-- What a node makes of a request to its `/internal/kv`.
unfoldable pub receive : ℕ → ℕ → Node → Request → Option (Node × Reply KvReply)
receive now replying n (gets url key) = handle_internal_kv now replying n http_get key none
receive now replying n (puts url body) = handle_internal_kv now replying n http_put [] (some body)
receive now replying n (deletes url key) = handle_internal_kv now replying n http_delete key none

abbrev pub url_of : Request → Text
url_of (gets url key) = url
url_of (puts url body) = url
url_of (deletes url key) = url

abbrev received : Cluster → Text → Option (Node × Reply KvReply) → Cluster × Response
received c url none = (c, no_answer)
received c url (some (m, r)) = (put text_dec url m c, answer r)

-- A request on its way through the cluster; a URL that no node serves gives no answer.
unfoldable pub deliver : Clocks → Cluster → Request → Cluster × Response
unfolding receive answer
deliver k c r = elim (lookup text_dec (url_of r) c) [
  | none ↦ (c, no_answer)
  | some n ↦ received c (url_of r) (receive (k.now (url_of r)) (k.replying (url_of r)) n r)
]

unfoldable pub deliver_all : Clocks → Cluster → List Request → Cluster
unfolding deliver
deliver_all k c [] = c
deliver_all k c (r ∷ rs) = deliver_all k (deliver k c r).0 rs

-- The world of a handler whose peers are the nodes of the cluster.
abbrev pub among : Clocks → Cluster → World → World
among k c w = record w { send = λ r. (deliver k c r).1 }

abbrev pub address : Node → Text → Text
address n id = trim_slashes (peer_url n id)

-- The requests that a fan-out sends: none to the node itself, or without a URL.
unfoldable pub requests : Node → Method → List Text → KvBody → List Request
requests n method [] body = []
requests n method (id ∷ ids) body =
    let rest = requests n method ids body in
    elim (text_dec id n.cfg.id) [
      | yes _ ↦ rest
      | no _ ↦ elim (text_dec (address n id) []) [
        | yes _ ↦ rest
        | no _ ↦ write_request method (address n id) body ∷ rest
      ]
    ]

abbrev after_set :
    Clocks
    → Cluster
    → Text
    → Node
    → KvBody
    → Option (Node × Reply WriteResp)
    → Option (Cluster × Reply WriteResp)
after_set k c url n body none = none
after_set k c url n body (some (m, http_error status p)) =
    some (put text_dec url m c, http_error status p)
after_set k c url n body (some (m, json status r)) =
    some (put text_dec url m (deliver_all k c (requests n http_put r.replicas body)), json status r)

-- A SET at the node of a URL, with what it does to the other nodes. An error is given before
-- anything is sent.
unfoldable pub cluster_set :
    Clocks → World → ℕ → Cluster → Text → KvBody → Option (Cluster × Reply WriteResp)
unfolding requests deliver_all
cluster_set k w unix_nano c url body = elim (lookup text_dec url c) [
  | none ↦ none
  | some n ↦
      after_set k c url n (stamp unix_nano body)
        (handle_set (among k c w) unix_nano n http_put (some body))
]

abbrev after_delete :
    Clocks
    → Cluster
    → Text
    → Node
    → Text
    → Option (Node × Reply WriteResp)
    → Option (Cluster × Reply WriteResp)
after_delete k c url n key none = none
after_delete k c url n key (some (m, http_error status p)) =
    some (put text_dec url m c, http_error status p)
after_delete k c url n key (some (m, json status r)) = some (
  put text_dec url m (deliver_all k c (requests n http_delete r.replicas (delete_body key))),
  json status r,
)

-- A DELETE at the node of a URL, with what it does to the other nodes.
unfoldable pub cluster_delete :
    Clocks → World → Cluster → Text → Text → Option (Cluster × Reply WriteResp)
unfolding requests deliver_all
cluster_delete k w c url key = elim (lookup text_dec url c) [
  | none ↦ none
  | some n ↦ after_delete k c url n key (handle_delete (among k c w) n http_delete key)
]

abbrev reply_of : Option (Node × Reply GetResp) → Option (Reply GetResp)
reply_of none = none
reply_of (some (n, r)) = some r

-- The reply to a GET at the node of a URL.
unfoldable pub cluster_get : Clocks → World → Cluster → Text → Text → Option (Reply GetResp)
unfolding deliver
cluster_get k w c url key = elim (lookup text_dec url c) [
  | none ↦ none
  | some n ↦ reply_of (handle_get (among k c w) n http_get key)
]
