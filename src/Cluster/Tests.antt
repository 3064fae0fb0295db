-- ===== src/Cluster/Tests.antt =====
-- A cluster of three nodes of internal/node/node.go, two of which own the key.
use mathlib.Core.List.{Perm}
use mathlib.Core.List.Perm
use ringcache.Base.{
  ℕ, zero, suc, ◌+◌, ◌≡◌, ◌≢◌, inr, refl, Bool, true, false, List, [], ◌∷◌, none, some, Option,
  arith, ℕ_discrete, All, contains, lookup, delete, put,
}
use ringcache.Base.Int.{ℤ, pos, negsuc, ◌*ℤ◌}
use ringcache.Cluster.{
  Cluster, Clocks, address, cluster_set, cluster_get, cluster_delete, requests, deliver,
  deliver_all, receive, answer,
}
use ringcache.Cluster.Coherence.{cluster_get-cluster_set}
use ringcache.Cluster.Deliver.{Placed}
use ringcache.Cluster.Deletes.{Serves, Lacks, cluster_delete-Lacks}
use ringcache.Cluster.Writes.{Owner, Holds, cluster_set-Holds, stored-IsValid}
use ringcache.Go.Fnv.{sum32a}
use ringcache.Go.Search.{search}
use ringcache.Go.Sort.{sort, insert}
use ringcache.Go.Text.{Text, text_dec, text_ltb, itoa}
use ringcache.Go.Trim.{trim_slashes, trim_left, strip_any, strip}
use ringcache.Go.Words.{inc64, mul64, wrap64, of_bits}
use ringcache.Node
use ringcache.Node.{
  Node, new, build, defaults, add_all, peer_url, mark_down, is_down, validate_key, validate_value,
  has_nul, GetResp,
}
use ringcache.Node.Coherence.{written}
use ringcache.Node.Handlers.{
  json, WriteResp, handle_set, set_at_owners, stamp, is_write, handle_internal_kv, internal_put,
}
use ringcache.Node.Invariant.{IsValid}
use ringcache.Node.Membership.{new-IsValid}
use ringcache.Node.Peers.{
  World, KvBody, http_put, http_post, no_answer, write_local, write_owner, write_peer, write_all,
  is_acked, collect, fanout,
}
use ringcache.Ring.{
  place, place_all, vnode_less, vnode_name, hash32, walk, start, at_least, rebuild, owners,
}
use ringcache.Ring
use ringcache.Cluster.Limited.{decision, coordinate, verdict, serve-store_take}
use ringcache.Middleware.{Answer, Decision, Config, serve, over_cap}
use ringcache.Cluster.Quota.{to_primary, handle_take-primary}
use ringcache.Go.Whole.{whole}
use ringcache.Node.Quota.{
  Body, Reply, good, refuse, took, relayed, parse_body, handle_take, handle_internal_take,
}
use ringcache.Ratelimit
use ringcache.Ratelimit.{Result, new_store, store_take}
use ringcache.Store.{Store, expiry, zero_counters, update, push_front, make_room}
use ringcache.Store

program : Unit {0}
unfolding sum32a search sort insert text_dec text_ltb itoa Ring.new Ring.add rebuild place place_all
    vnode_less vnode_name hash32 owners walk start at_least contains lookup delete put ℕ_discrete
    new build defaults add_all Store.new Store.set update push_front make_room expiry inc64 mul64
    wrap64 of_bits ◌*ℤ◌ validate_key validate_value has_nul mark_down write_all write_owner
    write_peer write_local is_acked fanout collect peer_url trim_slashes trim_left strip_any strip
    cluster_set requests deliver deliver_all receive answer handle_set set_at_owners is_write
    handle_internal_kv internal_put is_down
program = tt

abbrev a : Text
a = b'a' ∷ []

abbrev b : Text
b = b'b' ∷ []

abbrev c : Text
c = b'c' ∷ []

-- `http:` and the id
abbrev site : Text → Text
site id = b'h' ∷ b':' ∷ id

apart : (i j : Text) → site i ≡ site j → i ≡ j
apart i j e = ground arith

abbrev cfg : Text → Node.Config
cfg id = record {
  id = id;
  listen = [];
  peers = (a, site a) ∷ (b, site b) ∷ (c, site c) ∷ [];
  replicas = pos 2;
  capacity = pos 4;
  vnodes = pos 2;
  replica_timeout = pos 0;
  break_for = pos 100;
  rate_limit_capacity = pos 0;
  rate_limit_idle_ttl = pos 0;
}

abbrev node_of : Text → Node
node_of id = build (defaults (cfg id))

abbrev cluster : Cluster
cluster = (site a, node_of a) ∷ (site b, node_of b) ∷ (site c, node_of c) ∷ []

abbrev key_1 : Text
key_1 = b'k' ∷ []

abbrev owner_ids : List Text
owner_ids = a ∷ b ∷ []

owned : (id : Text) → owners (node_of id).ring key_1 (node_of id).cfg.replicas ≡ some owner_ids
unfolding program
owned id = refl

node_of-IsValid : (id : Text) → new (cfg id) ≡ some (node_of id) → IsValid (node_of id)
node_of-IsValid id built = (new-IsValid (cfg id) (node_of id) built).0

a-IsValid : IsValid (node_of a)
unfolding program
a-IsValid = node_of-IsValid a refl

b-IsValid : IsValid (node_of b)
unfolding program
b-IsValid = node_of-IsValid b refl

c-IsValid : IsValid (node_of c)
unfolding program
c-IsValid = node_of-IsValid c refl

abbrev first : Clocks
first = record { now = λ _. 10; replying = λ _. 11 }

abbrev second : Clocks
second = record { now = λ _. 40; replying = λ _. 41 }

-- A handler that starts at `t`; its peers are the cluster's nodes.
abbrev world_at : ℕ → World
world_at t = record {
  asked = λ _. t;
  heard = λ _. t + 2;
  repaired = λ _. t + 3;
  repairs = λ ids. ids;
  repairing = t + 3;
  replying = t + 4;
  send = λ _. no_answer;
  arrival = λ rs. rs;
}

in_order : (rs : List (Text × Bool)) → Perm rs rs
in_order rs = Perm.refl rs

abbrev body_1 : KvBody
body_1 = record { key = key_1; value = b'v' ∷ []; ttl_ms = pos 5; written_at = pos 7 }

abbrev stored : Store
stored = record {
  capacity = 4;
  ll =
      record {
        handle = 0;
        item = record { key = key_1; value = b'v' ∷ []; expires_at = 5000010; written_at = pos 7 };
      }
      ∷ [];
  items = (key_1, 0) ∷ [];
  next = 1;
  counters = record zero_counters { sets = 1 };
}

owner :
    (id : Text)
    → IsValid (node_of id)
    → lookup text_dec (site id) cluster ≡ some (node_of id)
    → Owner first cluster (stamp 99 body_1) 40 (site id)
unfolding program
owner id valid serves = record {
  node = node_of id;
  store = stored;
  valid = valid;
  takes = record { serves = serves; takes = refl };
  live = inr (omega arith);
}

both : All (λ o. Owner first cluster (stamp 99 body_1) 40 (site o)) owner_ids
unfolding program
both = (owner a a-IsValid refl, (owner b b-IsValid refl, tt))

some_url : (id : Text) → site id ≢ []
some_url id e = cc

placed : (id : Text) → Placed site (node_of id) owner_ids
unfolding program
placed id = ((refl, some_url a), ((refl, some_url b), tt))

key_ok : validate_key key_1 ≡ none
unfolding program
key_ok = refl

value_ok : validate_value (b'v' ∷ []) ≡ none
unfolding program
value_ok = refl

a_serves : lookup text_dec (site a) cluster ≡ some (node_of a)
unfolding program
a_serves = refl

cluster_set-Holds_example :
    (c' : Cluster) × (r : WriteResp) × (cluster_set first (world_at 10) 99 cluster (site a) body_1
      ≡ some (c', json 200 r))
    × (r.acked ≡ 2)
    × (r.failed ≡ [])
    × All (λ o. Holds c' (site o) 40 key_1 (written 10 (stamp 99 body_1))) owner_ids
unfolding build defaults
cluster_set-Holds_example =
    cluster_set-Holds site first cluster (world_at 10) 99 (node_of a) body_1 owner_ids (λ _. 40)
      apart a-IsValid a_serves refl key_ok value_ok refl (owned a) (placed a) both in_order

-- The cluster after the SET: both owners have stored the entry.
abbrev after : Cluster
after =
    (site a, record (node_of a) { store = stored })
    ∷ (site b, record (node_of b) { store = stored })
    ∷ (site c, node_of c)
    ∷ []

abbrev wrote : WriteResp
wrote = record { key = key_1; acked = 2; replicas = owner_ids; failed = [] }

set_at_a : cluster_set first (world_at 10) 99 cluster (site a) body_1 ≡ some (after, json 200 wrote)
unfolding program
set_at_a = refl

c_serves : lookup text_dec (site c) after ≡ some (node_of c)
unfolding program
c_serves = refl

All-up : All (λ o. (is_down (node_of c) 40 o).1 ≡ false) owner_ids
unfolding program
All-up = (refl, (refl, tt))

cluster_get-cluster_set_example :
    (g : GetResp) × (cluster_get second (world_at 40) after (site c) key_1 ≡ some (json 200 g))
    × (contains text_dec g.served_by owner_ids ≡ true)
    × (g.found ≡ true)
    × (g.value ≡ b'v' ∷ [])
    × (g.written_at ≡ pos 7)
unfolding build defaults
cluster_get-cluster_set_example =
    cluster_get-cluster_set site first second cluster after (world_at 10) (world_at 40) 99
      (node_of a) (node_of c) body_1 owner_ids wrote apart a-IsValid a_serves refl key_ok value_ok
      refl (owned a) (placed a) both in_order set_at_a c-IsValid c_serves refl (owned c) (placed c)
      All-up

abbrev quota : Body ℕ
quota = record { key = key_1; rate = 1; burst = 2; cost = 0 }

abbrev accepted : Body ℕ
accepted = record quota { cost = 1 }

parse_quota : parse_body whole (some quota) ≡ good accepted
unfolding program parse_body
parse_quota = refl

primary_of : (id : Text) → Ring.primary (node_of id).ring key_1 ≡ some a
unfolding program Ring.primary
primary_of id = refl

a_named : a ≢ []
a_named e = cc

a_not_c : a ≢ c
a_not_c e = ground arith

a_at : address (node_of c) a ≡ site a
unfolding program
a_at = refl

-- The body of a reply, in short.
abbrev encode : Reply ℕ → Text
encode (refuse status p) = []
encode (took r primary) = primary
encode (relayed status out) = out

abbrev buckets : Ratelimit.Store ℕ
buckets = new_store (pos 2) (pos 50)

handle_take-primary_example :
    (s' : Ratelimit.Store ℕ) × (r : Result ℕ) × (store_take whole buckets 10 key_1 1 2 1 ≡ (s', r))
    × (handle_take whole
          (to_primary whole encode 10 (node_of a) buckets (site a))
          10
          20
          (node_of c)
          buckets
          http_put
          (some quota)
        ≡ some (node_of c, buckets, relayed 200 (encode (took r a))))
    × (handle_internal_take whole 10 (node_of a) buckets http_post (some accepted)
        ≡ (node_of a, s', took r a))
    × (handle_take whole (λ url body. none) 10 20 (node_of a) buckets http_put (some quota)
        ≡ some (node_of a, s', took r a))
unfolding build defaults is_write
handle_take-primary_example =
    handle_take-primary whole encode (λ url body. none) 10 20 (node_of c) (node_of a) buckets
      buckets (site a) http_put quota accepted refl parse_quota (primary_of c) (primary_of a)
      a_named a_not_c a_at (some_url a)

has_stored :
    (id : Text)
    → IsValid (node_of id)
    → lookup text_dec (site id) after ≡ some (record (node_of id) { store = stored })
    → Serves after (site id)
unfolding program
has_stored id valid serves = record {
  node = record (node_of id) { store = stored };
  serves = serves;
  valid = (stored-IsValid (node_of id) stored 10 (stamp 99 body_1) valid refl).valid;
}

both_serve : All (λ o. Serves after (site o)) owner_ids
unfolding program
both_serve = (has_stored a a-IsValid refl, (has_stored b b-IsValid refl, tt))

-- A DELETE at the node that owns nothing, of the key that both owners have stored.
cluster_delete-Lacks_example :
    (c' : Cluster) × (r : WriteResp) × (cluster_delete second (world_at 40) after (site c) key_1
      ≡ some (c', json 200 r))
    × (r.acked ≡ 2)
    × (r.failed ≡ [])
    × All (λ o. Lacks c' (site o) 50 key_1) owner_ids
unfolding build defaults
cluster_delete-Lacks_example =
    cluster_delete-Lacks site second after (world_at 40) (node_of c) key_1 owner_ids (λ _. 50) apart
      c-IsValid c_serves key_ok (owned c) (placed c) both_serve in_order

-- A body that holds the fields one after the other.
abbrev flag : Bool → ℕ
flag true = 1
flag false = 0

abbrev signed : ℤ → Text → Text
signed (pos k) rest = 0 ∷ k ∷ rest
signed (negsuc k) rest = 1 ∷ k ∷ rest

abbrev in_full : Reply ℕ → Text
in_full (refuse status p) = []
in_full (took r primary) = flag r.allowed ∷ r.remaining ∷ signed r.retry_after_ms primary
in_full (relayed status out) = out

abbrev is_set : ℕ → Bool
is_set zero = false
is_set (suc k) = true

abbrev sign_of : ℕ → ℕ → ℤ
sign_of zero k = pos k
sign_of (suc j) k = negsuc k

abbrev read_full : Text → Option (Decision ℕ)
read_full (x ∷ remaining ∷ sign ∷ ms ∷ primary) = some (
    decision
      (record { allowed = is_set x; remaining = remaining; retry_after_ms = sign_of sign ms })
      primary)
read_full other = none

round_trip :
    (allowed : Bool) (remaining : ℕ) (ms : ℤ) (primary : Text)
    → let r : Result ℕ = record { allowed = allowed; remaining = remaining; retry_after_ms = ms } in
      read_full (in_full (took r primary)) ≡ some (decision r primary)
round_trip true remaining (pos k) primary = refl
round_trip true remaining (negsuc k) primary = refl
round_trip false remaining (pos k) primary = refl
round_trip false remaining (negsuc k) primary = refl

abbrev guard : Config
guard = record {
  disabled = false;
  dry_run = false;
  max_in_flight = pos 0;
  addrs = some (site c ∷ []);
}

abbrev ask_near : Text → Answer ℕ
ask_near url = coordinate read_full (
    handle_take whole (to_primary whole in_full 10 (node_of a) buckets (site a)) 10 20 (node_of c)
      buckets http_put (some quota))

abbrev ask_home : Text → Answer ℕ
ask_home url =
    coordinate read_full
      (handle_take whole (λ u body. none) 10 20 (node_of a) buckets http_put (some quota))

serve-store_take_example :
    let r = (store_take whole buckets 10 key_1 1 2 1).1 in
    (serve guard ask_near 0 7 ≡ (7, verdict guard r))
    × (serve guard ask_home 0 7 ≡ (7, verdict guard r))
unfolding build defaults is_write over_cap
serve-store_take_example =
    serve-store_take whole guard 0 7 (site c) [] ask_near ask_home read_full in_full
      (λ u body. none) 10 20 (node_of c) (node_of a) buckets buckets (site a) http_put quota
      accepted refl refl refl
      (λ r primary. round_trip r.allowed r.remaining r.retry_after_ms primary) refl parse_quota
      (primary_of c) (primary_of a) a_named a_not_c a_at (some_url a) refl refl
