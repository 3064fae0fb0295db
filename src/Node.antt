-- ===== src/Node.antt =====
-- internal/node/node.go: a member of the cluster. The ring, the store and the maps `peers` and
-- `downUntil` are its state. Times and the clock are as in ringcache.Store.
pub mod Peers
pub mod Handlers
pub mod Invariant
pub mod Membership
pub mod Totality
pub mod Asking
pub mod Statuses
pub mod Refusals
pub mod Server
pub mod Changing
pub mod Finishing
pub mod Run
pub mod Fanout
pub mod Local
pub mod Coherence
pub mod Breaker
pub mod Ttl
pub mod Quota
pub mod Limits
mod Tests
use ringcache.Base.{
  ℕ, ◌+◌, ◌-◌, ◌*◌, ◌/◌, ◌^◌, min, Bool, true, false, not, ◌||◌, ◌&&◌, List, [], ◌∷◌, ◌++◌, Option,
  none, some, ite, ltb, leb, ◌==◌, if◌then◌else◌, length, contains, lookup, delete, put, keys,
  is_some, filter_by, map,
}
use ringcache.Base.Int.{ℤ, pos, negsuc, pos_part, ltb_ℤ}
use ringcache.Go.Sort.{sort}
use ringcache.Go.Text.{Text, text_dec, text_ltb}
use ringcache.Go.Trim.{trim_space}
use ringcache.Ring.{Ring}
use ringcache.Ring
use ringcache.Store.{Store, Entry}
use ringcache.Store

-- `peers` lists the configured map in the order that `range` takes. Durations are nanoseconds.
pub record Config : Type 0 where
  pub id : Text
  pub listen : Text
  pub peers : List (Text × Text)
  pub replicas : ℤ
  pub capacity : ℤ
  pub vnodes : ℤ
  pub replica_timeout : ℤ
  pub break_for : ℤ
  pub rate_limit_capacity : ℤ
  pub rate_limit_idle_ttl : ℤ

pub record Node : Type 0 where
  pub cfg : Config
  pub ring : Ring
  pub store : Store
  pub down_until : List (Text × ℕ)
  pub peers : List (Text × Text)

-- The errors of the handlers, each with its own text in the source.
pub data Problem : Type 0 where
  bad_method : Problem
  bad_json : Problem
  key_required : Problem
  key_too_long : Problem
  key_has_nul : Problem
  value_too_long : Problem
  negative_ttl : Problem
  empty_ring : Problem
  all_unreachable : Problem
  id_and_url_required : Problem
  bad_url : Problem
  id_required : Problem
  self_cannot_leave : Problem
  negative_limit : Problem
  negative_cost : Problem
  primary_unreachable : Problem

abbrev pub at_least_1 : ℤ → ℕ → ℤ
at_least_1 x d = if ltb_ℤ x (pos 1) then pos d else x

abbrev pub ms : ℕ
ms = 1000000

-- The defaults that `New` fills in.
unfoldable pub defaults : Config → Config
defaults cfg = record cfg {
  listen = ite (text_dec cfg.listen []) (b':' ∷ b'8' ∷ b'0' ∷ b'8' ∷ b'0' ∷ []) cfg.listen;
  replicas = at_least_1 cfg.replicas 1;
  capacity = at_least_1 cfg.capacity 1024;
  vnodes = at_least_1 cfg.vnodes 150;
  replica_timeout = at_least_1 cfg.replica_timeout (200 * ms);
  break_for = at_least_1 cfg.break_for (2000 * ms);
  rate_limit_capacity = at_least_1 cfg.rate_limit_capacity 10000;
  rate_limit_idle_ttl = at_least_1 cfg.rate_limit_idle_ttl (60000 * ms);
}

unfoldable pub add_all : Ring → List Text → Ring
add_all r [] = r
add_all r (id ∷ ids) = add_all (Ring.add r id) ids

-- The node that `New` makes of a configuration with its defaults.
unfoldable pub build : Config → Node
build cfg =
    let n = length cfg.peers in
    record {
      cfg = record cfg { replicas = if ltb_ℤ (pos n) cfg.replicas then pos n else cfg.replicas };
      ring = add_all (Ring.new cfg.vnodes) (sort text_ltb (keys cfg.peers));
      store = Store.new cfg.capacity;
      down_until = [];
      peers = cfg.peers;
    }

-- `New`; `none` is an error: no id, or no entry of `Peers` for it.
unfoldable pub new : Config → Option Node
new cfg = elim (text_dec cfg.id []) [
  | yes _ ↦ none
  | no _ ↦ if is_some (lookup text_dec cfg.id cfg.peers) then some (build (defaults cfg)) else none
]

unfoldable pub peer_url : Node → Text → Text
peer_url n id = elim (lookup text_dec id n.peers) [ none ↦ [] | some u ↦ u ]

unfoldable pub mark_down : Node → ℕ → Text → Node
mark_down n now id = elim (text_dec id n.cfg.id) [
  | yes _ ↦ n
  | no _ ↦ record n { down_until = put text_dec id (now + pos_part n.cfg.break_for) n.down_until }
]

unfoldable pub is_down : Node → ℕ → Text → Node × Bool
is_down n now id = elim (lookup text_dec id n.down_until) [
  | none ↦ (n, false)
  | some until ↦
      if ltb now until
      then (n, true)
      else (record n { down_until = delete text_dec id n.down_until }, false)
]

-- What a change of members does to the ring, under the lock of the ring.
pub data Change : Type 0 where
  adds : Text → Change
  removes : Text → Change

unfoldable pub change_ring : Node → Change → Node
change_ring n (adds id) = record n { ring = Ring.add n.ring id }
change_ring n (removes id) = record n { ring = Ring.remove n.ring id }

-- A change of members after its first part: an error, or what is left to do to the ring.
pub data Begun : Type 0 where
  fails : Problem → Begun
  leads_to : Change → Begun

-- `join` up to the end of its first critical section; `parses` is `url.ParseRequestURI` without
-- an error.
unfoldable pub join : (Text → Bool) → Node → Text → Text → Node × Begun
join parses n id_text url_text =
    let id = trim_space id_text in
    let url = trim_space url_text in
    elim (text_dec id []) [
      | yes _ ↦ (n, fails id_and_url_required)
      | no _ ↦ elim (text_dec url []) [
        | yes _ ↦ (n, fails id_and_url_required)
        | no _ ↦
            if parses url
            then (record n { peers = put text_dec id url n.peers }, leads_to (adds id))
            else (n, fails bad_url)
      ]
    ]

-- `leave` up to the end of its first critical section.
unfoldable pub leave : Node → Text → Node × Begun
leave n id_text =
    let id = trim_space id_text in
    elim (text_dec id []) [
      | yes _ ↦ (n, fails id_required)
      | no _ ↦ elim (text_dec id n.cfg.id) [
        | yes _ ↦ (n, fails self_cannot_leave)
        | no _ ↦ (
          record n {
            peers = delete text_dec id n.peers;
            down_until = delete text_dec id n.down_until;
          },
          leads_to (removes id),
        )
      ]
    ]

unfoldable pub is_id : Text → Text → Bool
is_id a b = ite (text_dec a b) true false

unfoldable pub prefer_local : List Text → Text → List Text
prefer_local owners self =
    filter_by (λ id. is_id id self) owners ++ filter_by (λ id. not (is_id id self)) owners

abbrev max_key_bytes : ℕ
max_key_bytes = 512

abbrev max_value_bytes : ℕ
max_value_bytes = 2 ^ 20

unfoldable pub has_nul : Text → Bool
has_nul [] = false
has_nul (c ∷ cs) = c == 0 || has_nul cs

unfoldable pub validate_key : Text → Option Problem
unfolding has_nul
validate_key [] = some key_required
validate_key (c ∷ cs) =
    if ltb max_key_bytes (length (c ∷ cs))
    then some key_too_long
    else if has_nul (c ∷ cs)
    then some key_has_nul
    else none

unfoldable pub validate_value : Text → Option Problem
validate_value v = if ltb max_value_bytes (length v) then some value_too_long else none

-- `getResp`
pub record GetResp : Type 0 where
  pub key : Text
  pub found : Bool
  pub value : Text
  pub served_by : Text
  pub ttl_remaining_ms : Option ℤ
  pub written_at : ℤ

abbrev pub not_found : Text → GetResp
not_found key = record {
  key = key;
  found = false;
  value = [];
  served_by = [];
  ttl_remaining_ms = none;
  written_at = pos 0;
}

-- `time.Until(t).Milliseconds()`, or 0 once `t` is past; `Until` saturates at 2^63 - 1.
unfoldable pub ms_until : ℕ → ℕ → ℕ
ms_until now t = min (t - now) (2 ^ 63 - 1) / ms

unfoldable pub get_payload : ℕ → Text → Text → Entry → GetResp
unfolding ms_until
get_payload now key served_by ent = record {
  key = key;
  found = true;
  value = ent.value;
  served_by = served_by;
  ttl_remaining_ms = if ent.expires_at == 0 then none else some (pos (ms_until now ent.expires_at));
  written_at = ent.written_at;
}
