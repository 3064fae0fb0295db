-- ===== src/Store/Admit.antt =====
-- `Set` of internal/store/store.go on a new key: the eviction loop, and the element pushed in front.
use ringcache.Base.Int.{ℤ}
use ringcache.Base.{
  ℕ, zero, suc, ◌+◌, ◌-◌, ◌≤◌, ◌<◌, ◌≡◌, refl, sym, ap, ◌∙◌, true, false, List, [], ◌∷◌, map, none,
  some, arith, length, take, take_of_length-le, map-take, length-map, is_some, Option-cases,
  Bool-cases, inl, inr, All-map, All, leb, if◌then◌else◌, ℕ_discrete, contains, Distinct,
  length-take,
}
use ringcache.Go.Text.{Text, text_dec}
use ringcache.Go.Words.{inc64}
use ringcache.Store.{
  Store, Element, Item, Counters, set, evict_lru, make_room, push_front, remove_elem, back, expiry,
}
use ringcache.Store.Invariant.{IsValid, IsMapped-front, length-items}
use ringcache.Store.Links.{
  find, without, find-without-none, back-last, contains-find, handles, element_keys,
}
use ringcache.Store.Lru.{Cache}
use ringcache.Store.Lru
use ringcache.Store.Refine.{
  view, view-without, Refines, remove_elem-IsValid, remove_elem-without, view-removed,
  update-Refines, lookup-absent, lookup-present, view-absent, view-present, deref-present,
}

-- The counters after an eviction.
abbrev evicted : Counters → Counters
evicted c = record c { evicts = inc64 c.evicts }

-- What the loop leaves: room for one more entry, and the least recent one gone if it was full.
record Room (s t : Store) : Type 0 where
  valid : IsValid t
  below : length t.ll < t.capacity
  seen : view t ≡ record (view s) {
    entries = take (s.capacity - 1) (view s).entries;
    counters = if leb s.capacity (length s.ll) then evicted s.counters else s.counters;
  }
  absent : (k : Text) → find k s.ll ≡ none → find k t.ll ≡ none

roomy : (s : Store) → IsValid s → length s.ll < s.capacity → Room s s
roomy s v lt = record {
  valid = v;
  below = lt;
  seen =
      let all : take (s.capacity - 1) (view s).entries ≡ (view s).entries =
        take_of_length-le (s.capacity - 1) (view s).entries
          (omega (arith, length-map (λ (e : Element). e.item) s.ll)) in
      let spare : leb s.capacity (length s.ll) ≡ false = ground arith in rw (all, spare);
  absent = λ k h. h;
}

-- The element that the loop evicts.
back_of :
    (n : ℕ) (es : List Element)
    → length es ≡ n
    → 1 ≤ n
    → Distinct text_dec (element_keys es)
    → (e : Element) × (back es ≡ some e)
      × (find e.key es ≡ some e)
      × (without e.key es ≡ take (n - 1) es)
back_of n [] len pos d = absurd (omega arith)
back_of n (f ∷ es) len pos d =
    let (e, last, at, dropped) = back-last f es d in
    (e, last, at, dropped ∙ ap (λ m. take m (f ∷ es)) (omega arith))

evict_lru-Room : (s : Store) → IsValid s → length s.ll ≡ s.capacity → Room s (evict_lru s)
unfolding evict_lru
evict_lru-Room s v full =
    let (e, last, at, dropped) = back_of s.capacity s.ll full v.room v.linked.keys_distinct in
    let gone = remove_elem-without s e.key v e at in
    let entries : Lru.without e.key (view s).entries ≡ take (s.capacity - 1) (view s).entries =
      sym (view-without e.key s.ll)
      ∙ ap (map (λ (e : Element). e.item)) dropped
      ∙ map-take (λ (e : Element). e.item) (s.capacity - 1) s.ll in
    let count : leb s.capacity (length s.ll) ≡ true = ground arith in
    rw (last, evict_lru)
      (record {
        valid = remove_elem-IsValid s e.key v e at _;
        below = omega (
          arith,
          v.room,
          ap (λ t. length t.ll) gone,
          ap length dropped,
          length-take (s.capacity - 1) s.ll,
        );
        seen = view-removed s e.key v e at _ ∙ rw (entries, count, remove_elem);
        absent = λ k h. rw (ap (λ t. t.ll) gone) (find-without-none e.key k s.ll h);
      })

make_room_done : (s t : Store) → Room s t → (fuel : ℕ) → 1 ≤ fuel → make_room fuel t ≡ some t
unfolding make_room
make_room_done s t r zero h = elim h [ ]
make_room_done s t r (suc fuel) h =
    let size = length-items t.items t.ll r.valid.linked.keys_distinct r.valid.mapped in
    let spare : leb t.capacity (length t.items) ≡ false = ground (arith, r.below) in
    rw (spare, make_room) refl

make_room-Room :
    (s : Store) → IsValid s → (t : Store) × (make_room (suc (length s.ll)) s ≡ some t) × Room s t
unfolding make_room
make_room-Room s v =
    let size = length-items s.items s.ll v.linked.keys_distinct v.mapped in
    elim (Bool-cases (leb s.capacity (length s.items))) [
      | inr spare ↦ rw (spare, make_room) (s, refl, roomy s v (ground arith))
      | inl full ↦
          let r = evict_lru-Room s v (ground (arith, v.bounded)) in
          rw (full, make_room)
            (
              evict_lru s,
              make_room_done s (evict_lru s) r (length s.ll) (ground (arith, v.room)),
              r,
            )
    ]

handles-below :
    (next : ℕ) (es : List Element)
    → All (λ e. e.handle < next) es
    → contains ℕ_discrete next (handles es) ≡ false
unfolding contains
handles-below next [] h = refl
handles-below next (e ∷ es) h = ground (arith, handles-below next es h.1)

push_front-IsValid :
    (s : Store) (it : Item)
    → IsValid s
    → length s.ll < s.capacity
    → find it.key s.ll ≡ none
    → IsValid (push_front s it)
unfolding push_front
push_front-IsValid s it v lt absent = record {
  room = v.room;
  bounded = omega arith;
  linked = record {
    keys_distinct = (contains-find it.key s.ll ∙ ap is_some absent, v.linked.keys_distinct);
    handles_distinct = (handles-below s.next s.ll v.linked.below, v.linked.handles_distinct);
    below = (
      omega arith,
      All-map (λ (e : Element). e.handle < s.next) (λ e. e.handle < s.next + 1)
          (λ (e : Element) (h : e.handle < s.next). omega arith) s.ll v.linked.below,
    );
  };
  mapped = IsMapped-front s.items s.ll (record { handle = s.next; item = it }) v.mapped;
}

abbrev pushed : Cache → Item → Cache
pushed c it = record c {
  entries = it ∷ c.entries;
  counters = record c.counters { sets = inc64 c.counters.sets };
}

admitted : (s t : Store) → Room s t → (it : Item) → view (push_front t it) ≡ Lru.admit (view s) it
unfolding push_front Lru.admit
admitted s t r it =
    ap (λ c. pushed c it) r.seen ∙ ground (arith, length-map (λ (e : Element). e.item) s.ll)

-- `Set` of a valid store returns, for every input: its reply, the order that it leaves, what it
-- evicts and its counts are those of the list of items, and the store it leaves is valid.
pub set-Refines :
    (s : Store) (now : ℕ) (key value : Text) (ttl written_at : ℤ)
    → IsValid s
    → Refines (set s now key value ttl written_at) (
        Lru.set (view s) (record {
          key = key;
          value = value;
          expires_at = expiry now ttl;
          written_at = written_at;
        }))
unfolding set Lru.set
set-Refines s now key value ttl written_at v = elim (Option-cases (find key s.ll)) [
  | inr (e, at) ↦
      rw
        (
          lookup-present s key v e at,
          set,
          deref-present s key v e at,
          set,
          view-present s key v e at,
          Lru.set,
        )
        (update-Refines s _ v e at)
  | inl absent ↦
      let (t, made, r) = make_room-Room s v in
      rw (lookup-absent s key v absent, set, made, set, view-absent s key v absent, Lru.set)
        (_, refl, admitted s t r _, push_front-IsValid t _ r.valid r.below (r.absent key absent))
]
