-- ===== src/Node/Peers.antt =====
-- internal/node/node.go: how a node reads and writes the owners of a key (`readOwner`,
-- `writeOwner`, `fanout`, `readRepair`). The network is an argument: `send` is `client.Do` of a
-- request, with its JSON decoded, where a URL that makes no request is no answer either. The
-- goroutines of a fan-out share no state but the local store, which one of them writes, so that
-- their writes are listed in the order of the owners; `arrival` is the order in which the
-- results come out of the channel.
use ringcache.Base.{
  ℕ, ◌+◌, Bool, true, false, not, List, [], ◌∷◌, ◌++◌, Option, none, some, ltb, ◌==◌, if◌then◌else◌,
  filter_by,
}
use ringcache.Base.Int.{ℤ, pos, pos_part, ltb_ℤ, ◌+ℤ◌}
use ringcache.Go.Sort.{sort}
use ringcache.Go.Text.{Text, text_dec, text_ltb}
use ringcache.Go.Trim.{trim_slashes}
use ringcache.Go.Words.{mul64}
use ringcache.Node.{Node, GetResp, peer_url, mark_down, is_down, is_id, ms, ms_until}
use ringcache.Store.{Entry}
use ringcache.Store

pub data Method : Type 0 where
  http_get : Method
  http_put : Method
  http_post : Method
  http_delete : Method
  http_other : Method

-- `kvBody`
pub record KvBody : Type 0 where
  pub key : Text
  pub value : Text
  pub ttl_ms : ℤ
  pub written_at : ℤ

-- The requests to `/internal/kv` of a peer's base URL.
pub data Request : Type 0 where
  gets : Text → Text → Request
  puts : Text → KvBody → Request
  deletes : Text → Text → Request

-- The status, and the body as a `getResp` if it is one.
pub data Response : Type 0 where
  no_answer : Response
  answered : ℕ → Option GetResp → Response

-- What a handler meets while it runs: the clock when an owner is asked, when its result is at
-- hand, when a repair reaches it, and when the reply is made; `repairs` gives those owners
-- whose repair is done before the handler is, in the order in which it is.
pub record World : Type 0 where
  pub asked : Text → ℕ
  pub heard : Text → ℕ
  pub repaired : Text → ℕ
  pub repairs : List Text → List Text
  pub repairing : ℕ
  pub replying : ℕ
  pub send : Request → Response
  pub arrival : List (Text × Bool) → List (Text × Bool)

-- The outcomes of a read: an error, no such key, or its entry.
pub data Reading : Type 0 where
  unreached : Reading
  absent : Reading
  present : Entry → Reading

-- `time.Duration(x) * time.Millisecond`
abbrev pub to_duration : ℤ → ℤ
to_duration x = mul64 x (pos ms)

unfoldable pub entry_of_resp : ℕ → GetResp → Entry
unfolding ◌+ℤ◌
entry_of_resp now g = record {
  value = g.value;
  expires_at = elim g.ttl_remaining_ms [
    | none ↦ 0
    | some t ↦ if ltb_ℤ (pos 0) t then pos_part (pos now +ℤ to_duration t) else 0
  ];
  written_at = g.written_at;
}

unfoldable pub reading : ℕ → Response → Reading
unfolding entry_of_resp
reading now no_answer = unreached
reading now (answered status body) =
    if status == 404
    then absent
    else if status == 200
    then elim body [
      | none ↦ unreached
      | some g ↦ if g.found then present (entry_of_resp now g) else absent
    ]
    else unreached

-- The read of a peer that is not down.
unfoldable pub ask : World → Node → Text → Text → Reading
ask w n id key = elim (text_dec (peer_url n id) []) [
  | yes _ ↦ unreached
  | no _ ↦ reading (w.heard id) (w.send (gets (trim_slashes (peer_url n id)) key))
]

abbrev pub local_reading : Option Entry → Reading
local_reading none = absent
local_reading (some ent) = present ent

unfoldable pub read_local : ℕ → Node → Text → Option (Node × Reading)
read_local now n key = elim (Store.get n.store now key) [
  | none ↦ none
  | some (s, e) ↦ some (record n { store = s }, local_reading e)
]

unfoldable pub read_owner : World → Node → Text → Text → Option (Node × Reading)
unfolding is_down
read_owner w n id key = elim (text_dec id n.cfg.id) [
  | yes _ ↦ read_local (w.asked id) n key
  | no _ ↦
      let (m, down) = is_down n (w.asked id) id in
      some (m, if down then unreached else ask w m id key)
]

-- A write of the local store; `false` is an error.
unfoldable pub write_local : ℕ → Node → Method → KvBody → Option (Node × Bool)
write_local now n http_put body =
    elim (Store.set n.store now body.key body.value (to_duration body.ttl_ms) body.written_at) [
      | none ↦ none
      | some (s, _) ↦ some (record n { store = s }, true)
    ]
write_local now n http_delete body = elim (Store.delete_key n.store body.key) [
  | none ↦ none
  | some (s, _) ↦ some (record n { store = s }, true)
]
write_local now n http_get body = some (n, false)
write_local now n http_post body = some (n, false)
write_local now n http_other body = some (n, false)

abbrev pub write_request : Method → Text → KvBody → Request
write_request http_delete url body = deletes url body.key
write_request http_get url body = puts url body
write_request http_put url body = puts url body
write_request http_post url body = puts url body
write_request http_other url body = puts url body

unfoldable pub is_acked : Response → Bool
is_acked no_answer = false
is_acked (answered status body) = ltb status 300

unfoldable pub write_peer : World → Node → Method → Text → KvBody → Bool
unfolding is_acked
write_peer w n method id body =
    let url = trim_slashes (peer_url n id) in
    elim (text_dec url []) [
      | yes _ ↦ false
      | no _ ↦ is_acked (w.send (write_request method url body))
    ]

unfoldable pub write_owner : World → ℕ → Node → Method → Text → KvBody → Option (Node × Bool)
write_owner w now n method id body = elim (text_dec id n.cfg.id) [
  | yes _ ↦ write_local now n method body
  | no _ ↦ some (n, write_peer w n method id body)
]

-- The goroutines that write the owners, with their results.
unfoldable pub write_all :
    World → (Text → ℕ) → Node → Method → List Text → KvBody → Option (Node × List (Text × Bool))
write_all w clock n method [] body = some (n, [])
write_all w clock n method (id ∷ ids) body = elim (write_owner w (clock id) n method id body) [
  | none ↦ none
  | some (m, ok) ↦ elim (write_all w clock m method ids body) [
    | none ↦ none
    | some (m', results) ↦ some (m', (id, ok) ∷ results)
  ]
]

-- The loop that takes the results from the channel.
unfoldable pub collect : World → Node → List (Text × Bool) → ℕ → List Text → Node × ℕ × List Text
collect w n [] acked failed = (n, acked, failed)
collect w n ((id, true) ∷ results) acked failed = collect w n results (acked + 1) failed
collect w n ((id, false) ∷ results) acked failed =
    collect w (mark_down n (w.heard id) id) results acked (failed ++ id ∷ [])

unfoldable pub fanout : World → Node → Method → List Text → KvBody → Option (Node × (ℕ × List Text))
fanout w n method owners body = elim (write_all w w.asked n method owners body) [
  | none ↦ none
  | some (m, results) ↦
      let (m', acked, failed) = collect w m (w.arrival results) 0 [] in
      some (m', (acked, sort text_ltb failed))
]

abbrev pub repair_body : Text → Entry → ℕ → KvBody
repair_body key ent ttl_ms = record {
  key = key;
  value = ent.value;
  ttl_ms = pos ttl_ms;
  written_at = ent.written_at;
}

abbrev pub others : Text → List Text → List Text
others id ids = filter_by (λ i. not (is_id i id)) ids

-- `readRepair` with those of its goroutines that are done before the reply; the others write with
-- `write_owner` later. Their results are logged.
unfoldable pub read_repair :
    World → Node → Text → Entry → List Text → Text → Option (Node × List (Text × Bool))
read_repair w n key ent owners served_by =
    let left = ms_until w.repairing ent.expires_at in
    if ent.expires_at == 0
    then write_all w w.repaired n http_put (w.repairs (others served_by owners))
        (repair_body key ent 0)
    else if left == 0
    then some (n, [])
    else write_all w w.repaired n http_put (w.repairs (others served_by owners))
        (repair_body key ent left)
