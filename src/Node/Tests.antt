-- ===== src/Node/Tests.antt =====
-- Runs of internal/node/node.go on a cluster of two, and its theorems at concrete nodes.
use mathlib.Core.List.{Perm, reverse, reverse_perm}
use mathlib.Core.List.Perm
use ringcache.Base.{
  ℕ, if◌then◌else◌, ◌+◌, ◌≡◌, ◌≢◌, ◌≤◌, ◌<◌, ◌⊎◌, inl, inr, refl, Bool, true, List, [], ◌∷◌, none,
  some, Option, arith, ℕ_discrete, length, ltb, ◌==◌, ◌||◌, false, All, erase, is_some, contains,
  lookup, delete, put,
}
use ringcache.Base.Int.{pos, negsuc, ◌*ℤ◌}
use ringcache.Go.Fnv.{sum32a}
use ringcache.Go.Search.{search}
use ringcache.Go.Sort.{sort, insert}
use ringcache.Go.Text.{Text, text_dec, text_ltb, itoa}
use ringcache.Go.Trim.{trim_space, trim_slashes, trim_left, strip_any, strip}
use ringcache.Go.Words.{inc64, mul64, wrap64, of_bits}
use ringcache.Node.{
  Node, Config, join, leave, change_ring, new, build, defaults, add_all, peer_url, mark_down,
  validate_key, validate_value, has_nul, get_payload, ms, not_found, all_unreachable, bad_method,
}
use ringcache.Node.Breaker.{read_owner-mark_down}
use ringcache.Node.Coherence.{handle_get-handle_set, written}
use ringcache.Node.Fanout.{count_acked, failures, fanout_lem, fanout-arrival, report}
use ringcache.Node.Handlers.{
  json, http_error, WriteResp, handle_get, handle_set, handle_delete, handle_internal_kv,
  handle_members, begin_members, end_members, stamp, is_write,
}
use ringcache.Node.Refusals.{refused-unchanged}
use ringcache.Node.Statuses.{Found, Tried, handle_get-Tried}
use ringcache.Node.Invariant.{IsValid}
use ringcache.Node.Limits.{IsFinite}
use ringcache.Node.Quota.{Body}
use ringcache.Node.Membership.{new-IsValid}
use ringcache.Node.Peers.{
  World, http_get, http_put, http_delete, KvBody, no_answer, ask, read_owner, write_local,
  write_owner, write_peer, write_all, is_acked, collect, fanout, unreached, to_duration,
  entry_of_resp,
}
use ringcache.Node.Changing.{IsServing}
use ringcache.Node.Run.{Served, HasFinite, serve_all-Served}
use ringcache.Node.Server.{
  Server, Call, gets, sets, deletes, internals, takes, internal_takes, repairs, begins, finishes,
  Answer, serve, serve_all, take_out,
}
use ringcache.Node.Ttl.{expiry-to_duration, entry_of_resp-get_payload, entry_of_resp-last_ms}
use ringcache.Ratelimit.{new_store}
use ringcache.Ratelimit.Capacity
use ringcache.Go.Whole.{whole}
use ringcache.Ring.{
  place, place_all, vnode_less, vnode_name, hash32, walk, start, at_least, rebuild, owners,
}
use ringcache.Ring
use ringcache.Store.{Store, Entry, expiry, zero_counters, update, push_front, make_room}
use ringcache.Store

-- What the runs below compute with.
program : Unit {0}
unfolding sum32a search sort insert text_dec text_ltb itoa Ring.new Ring.add rebuild place place_all
    vnode_less vnode_name hash32 owners walk start at_least contains lookup delete put ℕ_discrete
    new build defaults add_all Store.new Store.set update push_front make_room expiry inc64 mul64
    wrap64 of_bits ◌*ℤ◌ validate_key validate_value has_nul mark_down write_all write_owner
    handle_set is_write write_peer write_local is_acked fanout collect peer_url trim_slashes
    trim_left strip_any strip join leave change_ring begin_members end_members handle_members
    take_out serve serve_all erase trim_space Ring.remove
program = tt

abbrev a : Text
a = b'a' ∷ []

abbrev b : Text
b = b'b' ∷ []

abbrev key_1 : Text
key_1 = b'k' ∷ []

abbrev value_1 : Text
value_1 = b'v' ∷ []

abbrev url_a : Text
url_a = b'h' ∷ b'/' ∷ []

-- The cluster of "a" and "b", as "a" is configured.
abbrev cfg : Config
cfg = record {
  id = a;
  listen = [];
  peers = (a, url_a) ∷ (b, url_a) ∷ [];
  replicas = pos 9;
  capacity = pos 4;
  vnodes = pos 2;
  replica_timeout = pos 0;
  break_for = pos 100;
  rate_limit_capacity = pos 0;
  rate_limit_idle_ttl = negsuc 4;
}

abbrev node_a : Node
node_a = build (defaults cfg)

built : new cfg ≡ some node_a
unfolding program
built = refl

node_a-IsValid : IsValid node_a
node_a-IsValid = (new-IsValid cfg node_a built).0

-- No peer answers, and the results arrive in the owners' order.
abbrev silent : World
silent = record {
  asked = λ _. 10;
  heard = λ _. 20;
  repaired = λ _. 30;
  repairs = λ ids. ids;
  repairing = 25;
  replying = 26;
  send = λ _. no_answer;
  arrival = λ rs. rs;
}

in_order : (rs : List (Text × Bool)) → Perm (silent.arrival rs) rs
in_order rs = Perm.refl rs

abbrev body_1 : KvBody
body_1 = record { key = key_1; value = value_1; ttl_ms = pos 5; written_at = pos 7 }

owners_of_key_1 : owners node_a.ring key_1 node_a.cfg.replicas ≡ some (a ∷ b ∷ [])
unfolding program
owners_of_key_1 = refl

-- The peer does not answer, so that one write is acknowledged and "b" fails.
report-fanout : report (fanout silent node_a http_put (a ∷ b ∷ []) body_1) ≡ some (1, b ∷ [])
unfolding program
report-fanout = refl

fanout_lem_example :
    (m : Node) × (l : Node) × (rs : List (Text × Bool)) × (write_all silent silent.asked node_a
        http_put
        (a ∷ b ∷ [])
        body_1
      ≡ some (m, rs))
    × (fanout silent node_a http_put (a ∷ b ∷ []) body_1
        ≡ some (l, (count_acked rs, sort text_ltb (failures rs))))
    × (count_acked rs + length (sort text_ltb (failures rs)) ≡ length (a ∷ b ∷ []))
fanout_lem_example = fanout_lem silent node_a http_put (a ∷ b ∷ []) body_1 node_a-IsValid in_order

fanout-arrival_example :
    report (fanout (record silent { arrival = reverse }) node_a http_put (a ∷ b ∷ []) body_1)
    ≡ report (fanout (record silent { arrival = λ rs. rs }) node_a http_put (a ∷ b ∷ []) body_1)
fanout-arrival_example =
    fanout-arrival silent reverse (λ rs. rs) node_a http_put (a ∷ b ∷ []) body_1 node_a-IsValid
      reverse_perm in_order

abbrev stored : Store
stored = record {
  capacity = 4;
  ll =
      record {
        handle = 0;
        item = record { key = key_1; value = value_1; expires_at = 5000010; written_at = pos 7 };
      }
      ∷ [];
  items = (key_1, 0) ∷ [];
  next = 1;
  counters = record zero_counters { sets = 1 };
}

taken : Store.set node_a.store 10 key_1 value_1 (to_duration (pos 5)) (pos 7) ≡ some (stored, true)
unfolding program
taken = refl

key_ok : validate_key key_1 ≡ none
unfolding program
key_ok = refl

value_ok : validate_value value_1 ≡ none
unfolding program
value_ok = refl

a_owns : contains text_dec a (a ∷ b ∷ []) ≡ true
unfolding program
a_owns = refl

in_time : (expiry 10 (to_duration (pos 5)) ≡ 0) ⊎ (10 < expiry 10 (to_duration (pos 5)))
unfolding program
in_time = inr (omega arith)

handle_get-handle_set_example :
    (m : Node) × (l : Node) × (r : WriteResp) × (handle_set silent 99 node_a http_put (some body_1)
      ≡ some (m, json 200 r))
    × (handle_get silent m http_get key_1
        ≡ some (l, json 200 (get_payload 26 key_1 a (written 10 (stamp 99 body_1)))))
unfolding build defaults
handle_get-handle_set_example =
    handle_get-handle_set silent silent 99 node_a body_1 (a ∷ b ∷ []) stored node_a-IsValid key_ok
      value_ok refl owners_of_key_1 a_owns taken in_order in_time

abbrev quota : Body ℕ
quota = record { key = key_1; rate = 1; burst = 2; cost = 0 }

-- A node as it starts, with its buckets.
abbrev server_a : Server ℕ
server_a = record { node = node_a; buckets = new_store (pos 2) (pos 50); changing = []; raced = [] }

server_a-IsServing : IsServing whole server_a
server_a-IsServing = record {
  node_valid = node_a-IsValid;
  buckets_valid = Capacity.new_store-IsValid whole (pos 2) (pos 50);
  promised = tt;
}

-- "b" is on its way out while a limit is taken, and others are served.
abbrev requests : List (Call ℕ)
requests =
    sets silent 99 http_put (some body_1)
    ∷ begins (λ _. true) http_delete none b
    ∷ takes (λ _ _. none) 30 35 http_put (some quota)
    ∷ gets silent http_get key_1
    ∷ finishes 0
    ∷ internals 40 41 http_get key_1 none
    ∷ repairs silent 41 a body_1
    ∷ internal_takes 42 http_put (some quota)
    ∷ deletes silent http_delete key_1
    ∷ []

quota-IsFinite : IsFinite whole quota
quota-IsFinite = record { rate_finite = refl; burst_finite = refl; cost_finite = refl }

requests-HasFinite : All (HasFinite whole) requests
requests-HasFinite =
    (tt, (tt, (quota-IsFinite, (tt, (tt, (tt, (tt, (quota-IsFinite, (tt, tt)))))))))

serve_all-Served_example :
    Served whole {R = List (Answer ℕ)} server_a (serve_all whole server_a requests)
serve_all-Served_example =
    serve_all-Served whole server_a requests server_a-IsServing requests-HasFinite

-- A join and a leave of one id whose second steps come in the other order.
abbrev crossing : List (Call ℕ)
crossing =
    begins (λ _. true) http_put (some (key_1, url_a)) []
    ∷ begins (λ _. true) http_delete none key_1
    ∷ finishes 0
    ∷ finishes 0
    ∷ []

abbrev on_ring_and_peer : Option (Server ℕ × List (Answer ℕ)) → Option (Bool × Bool)
on_ring_and_peer none = none
on_ring_and_peer (some (s, _)) =
    some (contains text_dec key_1 s.node.ring.nodes, is_some (lookup text_dec key_1 s.node.peers))

-- The id is left on the ring without a peer.
crossed : on_ring_and_peer (serve_all whole server_a crossing) ≡ some (true, false)
unfolding program
crossed = refl

a_second : contains text_dec a (b ∷ a ∷ []) ≡ true
unfolding program
a_second = refl

b_is_peer : b ≢ a
b_is_peer e = ground arith

read_owner-mark_down_example :
    let m = mark_down node_a 50 b in
    let l = record m { down_until = delete text_dec b m.down_until } in
    read_owner silent m b key_1
    ≡ (if ltb 10 (50 + 100) then some (m, unreached) else some (l, ask silent l b key_1))
unfolding build defaults
read_owner-mark_down_example = read_owner-mark_down silent node_a 50 b key_1 b_is_peer

expiry-to_duration_example : expiry 10 (to_duration (pos 9223372036855)) ≡ 0
expiry-to_duration_example = expiry-to_duration 10 9223372036855 (omega arith) (omega arith)

abbrev entry_1 : Entry
entry_1 = record { value = value_1; expires_at = 5000010; written_at = pos 7 }

entry_of_resp-get_payload_example :
    let e = entry_of_resp 40 (get_payload 30 key_1 a entry_1) in
    (e.value ≡ value_1)
    × (e.written_at ≡ pos 7)
    × (e.expires_at + 30 ≤ 5000010 + 40)
    × (5000010 + 40 < e.expires_at + 30 + ms)
entry_of_resp-get_payload_example =
    entry_of_resp-get_payload 30 40 key_1 a entry_1 (omega arith) (omega arith)

entry_of_resp-last_ms_example :
    (entry_of_resp 4500000 (get_payload 4400000 key_1 a entry_1)).expires_at ≡ 0
entry_of_resp-last_ms_example =
    entry_of_resp-last_ms 4400000 4500000 key_1 a entry_1 (omega arith) (omega arith)

handle_get-Tried_example :
    (os : List Text) × (order : List Text) × (owners node_a.ring key_1 node_a.cfg.replicas
      ≡ some os)
    × (order ≡ (if contains text_dec a os then a ∷ erase text_dec a os else os))
    × (((f : Found silent node_a key_1 order) × (l : Node) × (handle_get silent node_a http_get
              key_1
            ≡ some (l, json 200 (get_payload 26 key_1 f.id f.ent))))
        ⊎ ((l : Node) × (b : Bool) × Tried silent key_1 node_a order l b
            × (handle_get silent node_a http_get key_1
                ≡ some
                    (l, if b then json 404 (not_found key_1) else http_error 503 all_unreachable))))
unfolding build defaults
handle_get-Tried_example = handle_get-Tried silent node_a key_1 node_a-IsValid key_ok

refused :
    (handle_set silent 99 node_a http_get (some body_1) ≡ some (node_a, http_error 405 bad_method))
    ⊎ ((handle_delete silent node_a http_get key_1 ≡ some (node_a, http_error 405 bad_method))
        ⊎ ((handle_internal_kv 99 100 node_a http_get key_1 (some body_1)
              ≡ some (node_a, http_error 405 bad_method))
            ⊎ (handle_members (λ _. true) node_a http_get none key_1
                ≡ (node_a, http_error 405 bad_method))))
unfolding program
refused = inl refl

refused-unchanged_example : (node_a ≡ node_a) × ((405 == 400 || 405 == 405) ≡ true)
refused-unchanged_example =
    refused-unchanged silent 99 100 (λ _. true) node_a node_a http_get key_1 (some body_1) none 405
      bad_method refused
