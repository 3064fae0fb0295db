-- ===== src/Node/Handlers.antt =====
-- The HTTP handlers of internal/node/node.go. A handler receives the method and the decoded query
-- or body (`none` is a body that is not JSON), and gives the state after it and the reply. The
-- outer `none` stands for the store's or the ring's, which the invariant excludes.
use ringcache.Base.{
  ℕ, ◌+◌, Bool, true, false, not, ◌&&◌, List, [], ◌∷◌, Option, none, some, ltb, ◌==◌, if◌then◌else◌,
  length,
}
use ringcache.Base.Int.{ℤ, pos, ltb_ℤ, pos_part, neg_part}
use ringcache.Go.Text.{Text, text_dec}
use ringcache.Node.{
  Node, Problem, bad_method, bad_json, negative_ttl, empty_ring, all_unreachable, validate_key,
  validate_value, GetResp, not_found, get_payload, prefer_local, mark_down, join, leave, Change,
  change_ring, Begun, fails, leads_to,
}
use ringcache.Node.Peers.{
  Method, http_get, http_put, http_post, http_delete, http_other, KvBody, World, unreached, absent,
  present, read_owner, fanout, read_repair, to_duration,
}
use ringcache.Ring
use ringcache.Store.{Store, Entry, Stats, stats}
use ringcache.Store

-- `http.Error` or `writeJSON`, with the status.
pub data Reply {ℓ} (B : Type ℓ) : Type ℓ where
  http_error : ℕ → Problem → Reply B
  json : ℕ → B → Reply B

pub record WriteResp : Type 0 where
  pub key : Text
  pub acked : ℕ
  pub replicas : List Text
  pub failed : List Text

pub record StatsResp : Type 0 where
  pub id : Text
  pub listen : Text
  pub replicas : ℤ
  pub vnodes : ℤ
  pub store : Stats

pub record RingResp : Type 0 where
  pub id : Text
  pub nodes : List Text
  pub peers : List (Text × Text)
  pub vnodes : ℤ
  pub ring_len : ℕ
  pub replicas : ℤ
  pub key : Text
  pub owners : List Text

pub record Members : Type 0 where
  pub id : Text
  pub nodes : List Text
  pub peers : List (Text × Text)

-- The bodies of the replies of `/internal/kv`.
pub data KvReply : Type 0 where
  read : GetResp → KvReply
  applied : Bool → KvReply
  deleted : Bool → KvReply

unfoldable pub is_get : Method → Bool
is_get http_get = true
is_get http_put = false
is_get http_post = false
is_get http_delete = false
is_get http_other = false

unfoldable pub is_write : Method → Bool
is_write http_put = true
is_write http_post = true
is_write http_get = false
is_write http_delete = false
is_write http_other = false

unfoldable pub is_delete : Method → Bool
is_delete http_delete = true
is_delete http_get = false
is_delete http_put = false
is_delete http_post = false
is_delete http_other = false

unfoldable handle_health : Node → Method → Reply Text
handle_health n method = if is_get method then json 200 n.cfg.id else http_error 405 bad_method

-- `handleStats`, but for the count of rate-limit buckets.
unfoldable handle_stats : Node → Method → Reply StatsResp
handle_stats n method =
    if is_get method
    then json 200 (record {
      id = n.cfg.id;
      listen = n.cfg.listen;
      replicas = n.cfg.replicas;
      vnodes = n.cfg.vnodes;
      store = stats n.store;
    })
    else http_error 405 bad_method

-- What `handleRing` tells besides the owners of `key`; with the key "" there are none.
abbrev pub ring_resp : Node → Text → List Text → RingResp
ring_resp n key owners = record {
  id = n.cfg.id;
  nodes = Ring.sorted_nodes n.ring;
  peers = n.peers;
  vnodes = n.cfg.vnodes;
  ring_len = Ring.len n.ring;
  replicas = n.cfg.replicas;
  key = key;
  owners = owners;
}

unfoldable pub handle_ring : Node → Method → Text → Option (Reply RingResp)
handle_ring n method key =
    if is_get method
    then elim (text_dec key []) [
      | yes _ ↦ some (json 200 (ring_resp n [] []))
      | no _ ↦ elim (Ring.owners n.ring key n.cfg.replicas) [
        | none ↦ none
        | some owners ↦ some (json 200 (ring_resp n key owners))
      ]
    ]
    else some (http_error 405 bad_method)

-- The loop of `handleGet` over the owners in the order that it prefers.
unfoldable pub read_loop :
    World → Node → Text → List Text → List Text → Bool → Option (Node × Reply GetResp)
read_loop w n key owners [] reached =
    some (n, if reached then json 404 (not_found key) else http_error 503 all_unreachable)
read_loop w n key owners (id ∷ ids) reached = elim (read_owner w n id key) [
  | none ↦ none
  | some (m, unreached) ↦ read_loop w (mark_down m (w.heard id) id) key owners ids reached
  | some (m, absent) ↦ read_loop w m key owners ids true
  | some (m, present ent) ↦ elim (read_repair w m key ent owners id) [
    | none ↦ none
    | some (m', _) ↦ some (m', json 200 (get_payload w.replying key id ent))
  ]
]

abbrev pub get_from : World → Node → Text → List Text → Option (Node × Reply GetResp)
get_from w n key [] = some (n, http_error 503 empty_ring)
get_from w n key (o ∷ os) = read_loop w n key (o ∷ os) (prefer_local (o ∷ os) n.cfg.id) false

unfoldable pub handle_get : World → Node → Method → Text → Option (Node × Reply GetResp)
unfolding read_loop
handle_get w n method key =
    if is_get method
    then elim (validate_key key) [
      | some p ↦ some (n, http_error 400 p)
      | none ↦ elim (Ring.owners n.ring key n.cfg.replicas) [
        | none ↦ none
        | some owners ↦ get_from w n key owners
      ]
    ]
    else some (n, http_error 405 bad_method)

abbrev write_resp : Text → List Text → Bool → Node × ℕ × List Text → Node × Reply WriteResp
write_resp key owners ok (n, acked, failed) = (
  n,
  json (if ok then 200 else 503)
      (record { key = key; acked = acked; replicas = owners; failed = failed }),
)

-- A body without `written_at` is stamped with the clock.
abbrev pub stamp : ℕ → KvBody → KvBody
stamp unix_nano body = record body {
  written_at =
      if pos_part body.written_at + neg_part body.written_at == 0
      then pos unix_nano
      else body.written_at;
}

unfoldable pub set_at_owners : World → Node → KvBody → Option (Node × Reply WriteResp)
set_at_owners w n body = elim (Ring.owners n.ring body.key n.cfg.replicas) [
  | none ↦ none
  | some owners ↦ elim (fanout w n http_put owners body) [
    | none ↦ none
    | some (m, (acked, failed)) ↦ some (write_resp body.key owners (ltb 0 acked) (m, acked, failed))
  ]
]

unfoldable pub handle_set :
    World → ℕ → Node → Method → Option KvBody → Option (Node × Reply WriteResp)
handle_set w unix_nano n method none =
    some (n, if is_write method then http_error 400 bad_json else http_error 405 bad_method)
handle_set w unix_nano n method (some body) =
    if is_write method
    then elim (validate_key body.key) [
      | some p ↦ some (n, http_error 400 p)
      | none ↦ elim (validate_value body.value) [
        | some p ↦ some (n, http_error 400 p)
        | none ↦
            if ltb_ℤ body.ttl_ms (pos 0)
            then some (n, http_error 400 negative_ttl)
            else set_at_owners w n (stamp unix_nano body)
      ]
    ]
    else some (n, http_error 405 bad_method)

abbrev pub delete_body : Text → KvBody
delete_body key = record { key = key; value = []; ttl_ms = pos 0; written_at = pos 0 }

unfoldable pub delete_at_owners : World → Node → Text → Option (Node × Reply WriteResp)
delete_at_owners w n key = elim (Ring.owners n.ring key n.cfg.replicas) [
  | none ↦ none
  | some owners ↦ elim (fanout w n http_delete owners (delete_body key)) [
    | none ↦ none
    | some (m, (acked, failed)) ↦
        some (write_resp key owners (not (acked == 0 && ltb 0 (length owners))) (m, acked, failed))
  ]
]

unfoldable pub handle_delete : World → Node → Method → Text → Option (Node × Reply WriteResp)
handle_delete w n method key =
    if is_delete method
    then elim (validate_key key) [
      | some p ↦ some (n, http_error 400 p)
      | none ↦ delete_at_owners w n key
    ]
    else some (n, http_error 405 bad_method)

abbrev pub internal_get_found :
    ℕ → Node → Text → Option (Store × Option Entry) → Option (Node × Reply KvReply)
internal_get_found replying n key none = none
internal_get_found replying n key (some (s, none)) =
    some (record n { store = s }, json 404 (read (not_found key)))
internal_get_found replying n key (some (s, some ent)) =
    some (record n { store = s }, json 200 (read (get_payload replying key n.cfg.id ent)))

unfoldable pub internal_get : ℕ → ℕ → Node → Text → Option (Node × Reply KvReply)
internal_get now replying n key = elim (validate_key key) [
  | some p ↦ some (n, http_error 400 p)
  | none ↦ internal_get_found replying n key (Store.get n.store now key)
]

unfoldable pub internal_put : ℕ → Node → Option KvBody → Option (Node × Reply KvReply)
internal_put now n none = some (n, http_error 400 bad_json)
internal_put now n (some body) = elim (validate_key body.key) [
  | some p ↦ some (n, http_error 400 p)
  | none ↦
      elim (Store.set n.store now body.key body.value (to_duration body.ttl_ms) body.written_at) [
        | none ↦ none
        | some (s, ok) ↦ some (record n { store = s }, json 200 (applied ok))
      ]
]

unfoldable pub internal_delete : Node → Text → Option (Node × Reply KvReply)
internal_delete n key = elim (validate_key key) [
  | some p ↦ some (n, http_error 400 p)
  | none ↦ elim (Store.delete_key n.store key) [
    | none ↦ none
    | some (s, ok) ↦ some (record n { store = s }, json 200 (deleted ok))
  ]
]

-- `handleInternalKV`, with the key of the query and the body.
unfoldable pub handle_internal_kv :
    ℕ → ℕ → Node → Method → Text → Option KvBody → Option (Node × Reply KvReply)
unfolding internal_get internal_put internal_delete
handle_internal_kv now replying n http_get key body = internal_get now replying n key
handle_internal_kv now replying n http_put key body = internal_put now n body
handle_internal_kv now replying n http_delete key body = internal_delete n key
handle_internal_kv now replying n http_post key body = some (n, http_error 405 bad_method)
handle_internal_kv now replying n http_other key body = some (n, http_error 405 bad_method)

abbrev pub members : Node → Members
members n = record { id = n.cfg.id; nodes = Ring.sorted_nodes n.ring; peers = n.peers }

-- A request to `/admin/members` after its first part: a reply, or a change of the ring to make.
pub data Started : Type 0 where
  replied : Reply Members → Started
  under_way : Change → Started

abbrev pub started : Node × Begun → Node × Started
started (n, fails p) = (n, replied (http_error 400 p))
started (n, leads_to c) = (n, under_way c)

-- `handleMembers` up to there: the body holds an id and a URL, the query of a DELETE an id.
unfoldable pub begin_members :
    (Text → Bool) → Node → Method → Option (Text × Text) → Text → Node × Started
begin_members parses n http_get body id = (n, replied (json 200 (members n)))
begin_members parses n http_put none id = (n, replied (http_error 400 bad_json))
begin_members parses n http_put (some (i, u)) id = started (join parses n i u)
begin_members parses n http_post none id = (n, replied (http_error 400 bad_json))
begin_members parses n http_post (some (i, u)) id = started (join parses n i u)
begin_members parses n http_delete body id = started (leave n id)
begin_members parses n http_other body id = (n, replied (http_error 405 bad_method))

-- The rest of it, at the node as it is then.
unfoldable pub end_members : Node → Change → Node × Reply Members
unfolding change_ring
end_members n c = let m = change_ring n c in (m, json 200 (members m))

abbrev pub ended : Node × Started → Node × Reply Members
ended (n, replied r) = (n, r)
ended (n, under_way c) = end_members n c

-- `handleMembers` with nothing between its two parts.
unfoldable pub handle_members :
    (Text → Bool) → Node → Method → Option (Text × Text) → Text → Node × Reply Members
unfolding begin_members end_members
handle_members parses n method body id = ended (begin_members parses n method body id)
