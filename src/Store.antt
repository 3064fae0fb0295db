-- ===== src/Store.antt =====
-- internal/store/store.go: the LRU+TTL map of one node. The mutex makes each method one step.
-- A time is the nanoseconds since Go's zero time, so that 0 is the zero `time.Time`; the clock's
-- reading is an argument. A list element is known by a handle, which stands for its pointer:
-- `items` maps a key to a handle. `none` is a handle that is not in the list, or an eviction loop
-- that does not end; the invariant excludes both.
use ringcache.Base.{
  ℕ, zero, suc, ◌+◌, Bool, true, false, not, ◌&&◌, List, [], ◌∷◌, Option, none, some, ltb, leb,
  ◌==◌, if◌then◌else◌, length, ℕ_discrete, lookup, delete, put,
}
pub mod Links
pub mod Lru
pub mod Invariant
pub mod Refine
pub mod Admit
pub mod Sweep
pub mod Run
pub mod Reads
pub mod Writes
mod Tests
use mathlib.Core.List.{reverse}
use ringcache.Base.Int.{ℤ, pos, pos_part, ltb_ℤ}
use ringcache.Go.Text.{Text, text_dec}
use ringcache.Go.Words.{inc64}

pub record Item : Type 0 where
  pub key : Text
  pub value : Text
  pub expires_at : ℕ
  pub written_at : ℤ

-- `Entry`, what a caller of `Get` receives.
pub record Entry : Type 0 where
  pub value : Text
  pub expires_at : ℕ
  pub written_at : ℤ

pub record Counters : Type 0 where
  pub hits : ℕ
  pub misses : ℕ
  pub sets : ℕ
  pub deletes : ℕ
  pub evicts : ℕ
  pub expired : ℕ
  pub skipped : ℕ

pub record Element : Type 0 where
  pub handle : ℕ
  pub item : Item
  pub open item use {key, value, expires_at, written_at}

-- `ll` has the most recently used element in front; `next` is the handle of the next element.
pub record Store : Type 0 where
  pub capacity : ℕ
  pub ll : List Element
  pub items : List (Text × ℕ)
  pub next : ℕ
  pub counters : Counters

abbrev pub zero_counters : Counters
zero_counters = record {
  hits = 0;
  misses = 0;
  sets = 0;
  deletes = 0;
  evicts = 0;
  expired = 0;
  skipped = 0;
}

-- `New`
unfoldable pub new : ℤ → Store
new capacity = record {
  capacity = if ltb_ℤ capacity (pos 1) then 1 else pos_part capacity;
  ll = [];
  items = [];
  next = 0;
  counters = zero_counters;
}

unfoldable pub is_expired : Item → ℕ → Bool
is_expired it now = not (it.expires_at == 0) && not (ltb now it.expires_at)

-- `el.Value` through the pointer.
unfoldable pub deref : ℕ → List Element → Option Element
deref h [] = none
deref h (e ∷ es) = elim (ℕ_discrete e.handle h) [ yes _ ↦ some e | no _ ↦ deref h es ]

-- `list.Remove`
unfoldable pub unlink : ℕ → List Element → List Element
unlink h [] = []
unlink h (e ∷ es) = elim (ℕ_discrete e.handle h) [ yes _ ↦ es | no _ ↦ e ∷ unlink h es ]

unfoldable pub remove_elem : Store → Element → Store
remove_elem s el = record s { items = delete text_dec el.key s.items; ll = unlink el.handle s.ll }

-- `list.MoveToFront` of an element of the list, whose item may have been written.
abbrev to_front : Store → Element → List Element
to_front s el = el ∷ unlink el.handle s.ll

abbrev pub entry_of : Item → Entry
entry_of it = record { value = it.value; expires_at = it.expires_at; written_at = it.written_at }

abbrev pub miss : Store → Store
miss s = record s { counters = record s.counters { misses = inc64 s.counters.misses } }

-- `Get` once the element is at hand.
unfoldable pub get_elem : Store → ℕ → Element → Store × Option Entry
unfolding is_expired remove_elem
get_elem s now el =
    if is_expired el.item now
    then (let s' = remove_elem s el in
        (
          miss
              (record s' { counters = record s'.counters { expired = inc64 s'.counters.expired } }),
          none,
        ))
    else (
      record s {
        ll = to_front s el;
        counters = record s.counters { hits = inc64 s.counters.hits };
      },
      some (entry_of el.item),
    )

unfoldable pub get : Store → ℕ → Text → Option (Store × Option Entry)
get s now key = elim (lookup text_dec key s.items) [
  | none ↦ some (miss s, none)
  | some h ↦ elim (deref h s.ll) [ none ↦ none | some el ↦ some (get_elem s now el) ]
]

-- `list.Back`
unfoldable pub back : List Element → Option Element
back [] = none
back (e ∷ []) = some e
back (e ∷ f ∷ es) = back (f ∷ es)

unfoldable pub evict_lru : Store → Store
unfolding remove_elem back
evict_lru s = elim (back s.ll) [
  | none ↦ s
  | some el ↦
      let s' = remove_elem s el in
      record s' { counters = record s'.counters { evicts = inc64 s'.counters.evicts } }
]

-- `for len(s.items) >= s.capacity { s.evictLRU() }`
unfoldable pub make_room : ℕ → Store → Option Store
unfolding evict_lru
make_room zero s = none
make_room (suc fuel) s = elim (leb s.capacity (length s.items)) [
  | false ↦ some s
  | true ↦ make_room fuel (evict_lru s)
]

-- The expiry that `Set` stores; a `ttl` of 0 or less means none.
unfoldable pub expiry : ℕ → ℤ → ℕ
expiry now ttl = if ltb_ℤ (pos 0) ttl then now + pos_part ttl else 0

-- `Set` on a key that is there.
unfoldable pub update : Store → Element → Item → Store × Bool
update s el it =
    if ltb_ℤ it.written_at el.written_at
    then (record s { counters = record s.counters { skipped = inc64 s.counters.skipped } }, false)
    else (
      record s {
        ll = to_front s (record el { item = it });
        counters = record s.counters { sets = inc64 s.counters.sets };
      },
      true,
    )

-- `list.PushFront` of a new element, and the map entry for it.
unfoldable pub push_front : Store → Item → Store
push_front s it = record s {
  ll = record { handle = s.next; item = it } ∷ s.ll;
  items = put text_dec it.key s.next s.items;
  next = s.next + 1;
  counters = record s.counters { sets = inc64 s.counters.sets };
}

-- `Set`. The loop needs a round for each element, and one to leave.
unfoldable pub set : Store → ℕ → Text → Text → ℤ → ℤ → Option (Store × Bool)
unfolding update push_front expiry
set s now key value ttl written_at =
    let it : Item = record {
      key = key;
      value = value;
      expires_at = expiry now ttl;
      written_at = written_at;
    } in
    elim (lookup text_dec key s.items) [
      | some h ↦ elim (deref h s.ll) [ none ↦ none | some el ↦ some (update s el it) ]
      | none ↦ elim (make_room (suc (length s.ll)) s) [
        | none ↦ none
        | some s' ↦ some (push_front s' it, true)
      ]
    ]

unfoldable pub delete_key : Store → Text → Option (Store × Bool)
unfolding remove_elem
delete_key s key = elim (lookup text_dec key s.items) [
  | none ↦ some (s, false)
  | some h ↦ elim (deref h s.ll) [
    | none ↦ none
    | some el ↦
        let s' = remove_elem s el in
        some (
          record s' { counters = record s'.counters { deletes = inc64 s'.counters.deletes } },
          true,
        )
  ]
]

-- `Len`
abbrev pub len : Store → ℕ
len s = length s.items

-- `Stats`, the snapshot.
pub record Stats : Type 0 where
  pub keys : ℕ
  pub capacity : ℕ
  pub counters : Counters

abbrev pub stats : Store → Stats
stats s = record { keys = length s.items; capacity = s.capacity; counters = s.counters }

-- The loop of `sweep`, over the elements from back to front: `prev` is read before a removal.
unfoldable pub sweep_loop : ℕ → List Element → Store → Store
unfolding remove_elem is_expired
sweep_loop now [] s = s
sweep_loop now (el ∷ els) s = sweep_loop now els (
    if is_expired el.item now
    then (let s' = remove_elem s el in
        record s' { counters = record s'.counters { expired = inc64 s'.counters.expired } })
    else s)

unfoldable pub sweep : Store → ℕ → Store
unfolding sweep_loop
sweep s now = sweep_loop now (reverse s.ll) s
