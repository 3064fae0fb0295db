-- ===== src/Store/Refine.antt =====
-- The pointer structure of internal/store/store.go implements the list of Store/Lru.antt.
use mathlib.Core.Option
use ringcache.Base.Int.{ltb_ℤ}
use ringcache.Base.{
  ℕ, ◌≡◌, refl, ap, ◌∙◌, List, [], ◌∷◌, map, Option, none, some, arith, lookup, delete,
  Option-cases, Bool-cases, inl, inr,
}
use ringcache.Go.Text.{Text, text_dec}
use ringcache.Store.{
  Store, Element, Item, Counters, get, get_elem, remove_elem, delete_key, update, is_expired, deref,
  unlink, miss,
}
use ringcache.Store.Invariant.{IsValid, IsMapped-without, IsMapped-moved, IsLinked-moved}
use ringcache.Store.Links.{
  find, without, find-key, deref-find, unlink-find, length-without, without-IsLinked,
}
use ringcache.Store.Lru.{Cache}
use ringcache.Store.Lru

-- The items in order, with the pointers forgotten.
abbrev pub view : Store → Cache
view s = record { capacity = s.capacity; entries = map (λ e. e.item) s.ll; counters = s.counters }

-- The call returns: its result is the specification's, and its store a valid one that looks like
-- the specification's cache.
abbrev pub Refines : {R : Type 0} → Option (Store × R) → Cache × R → Type 0
Refines r c = (s : Store) × (r ≡ some (s, c.1)) × (view s ≡ c.0) × IsValid s

find-view :
    (k : Text) (es : List Element)
    → Lru.find k (map (λ e. e.item) es) ≡ Option.map (λ e. e.item) (find k es)
unfolding find Lru.find
find-view k [] = refl
find-view k (e ∷ es) = ground (arith, find-view k es)

pub view-without :
    (k : Text) (es : List Element)
    → map (λ e. e.item) (without k es) ≡ Lru.without k (map (λ e. e.item) es)
unfolding without Lru.without
view-without k [] = refl
view-without k (e ∷ es) = ground (arith, view-without k es)

recount-IsValid : (s : Store) (c : Counters) → IsValid s → IsValid (record s { counters = c })
recount-IsValid s c v = record {
  room = v.room;
  bounded = v.bounded;
  linked = v.linked;
  mapped = v.mapped;
}

-- What the map and the list say of a key, from what the list says.
module _ (s : Store) (k : Text) (v : IsValid s) where
  module _ (absent : find k s.ll ≡ none) where
    pub lookup-absent : lookup text_dec k s.items ≡ none
    lookup-absent = v.mapped.leads k ∙ ap (Option.map (λ (e : Element). e.handle)) absent

    pub view-absent : Lru.find k (map (λ e. e.item) s.ll) ≡ none
    view-absent = find-view k s.ll ∙ ap (Option.map (λ (e : Element). e.item)) absent

  module _ (e : Element) (at : find k s.ll ≡ some e) where
    pub lookup-present : lookup text_dec k s.items ≡ some e.handle
    lookup-present = v.mapped.leads k ∙ ap (Option.map (λ (e : Element). e.handle)) at

    pub deref-present : deref e.handle s.ll ≡ some e
    deref-present = deref-find k s.ll v.linked.handles_distinct at

    pub view-present : Lru.find k (map (λ e. e.item) s.ll) ≡ some e.item
    view-present = find-view k s.ll ∙ ap (Option.map (λ (e : Element). e.item)) at

    unlink-present : unlink e.handle s.ll ≡ without k s.ll
    unlink-present = unlink-find k s.ll v.linked.keys_distinct v.linked.handles_distinct at

    -- `removeElem` drops the key from the map and from the list.
    pub remove_elem-without :
        remove_elem s e ≡ record s { items = delete text_dec k s.items; ll = without k s.ll }
    unfolding remove_elem
    remove_elem-without = rw (unlink-present, find-key k s.ll at)

    pub remove_elem-IsValid : (c : Counters) → IsValid (record (remove_elem s e) { counters = c })
    remove_elem-IsValid c = rw remove_elem-without (record {
      room = v.room;
      bounded = omega (arith, length-without k s.ll v.linked.keys_distinct at, v.bounded);
      linked = without-IsLinked {next = s.next} k s.ll v.linked;
      mapped = IsMapped-without s.items s.ll k v.mapped;
    })

    -- The element moved to the front, its item written anew.
    to_front-IsValid :
        (it : Item) (c : Counters)
        → it.key ≡ k
        → IsValid (record s { ll = record e { item = it } ∷ unlink e.handle s.ll; counters = c })
    to_front-IsValid it c same = rw unlink-present (record {
      room = v.room;
      bounded = omega (arith, length-without k s.ll v.linked.keys_distinct at, v.bounded);
      linked = IsLinked-moved {next = s.next} s.ll k e it at same v.linked;
      mapped = IsMapped-moved s.items s.ll k e it at same v.mapped;
    })

-- The view after `removeElem`.
pub view-removed :
    (s : Store) (k : Text) (v : IsValid s) (e : Element) (at : find k s.ll ≡ some e) (c : Counters)
    → view (record (remove_elem s e) { counters = c })
      ≡ record (view s) { entries = Lru.without k (view s).entries; counters = c }
view-removed s k v e at c =
    ap (λ t. view (record t { counters = c })) (remove_elem-without s k v e at)
    ∙ ap (λ es. record (view s) { entries = es; counters = c }) (view-without k s.ll)

-- The view after a move to the front.
view-moved :
    (s : Store) (k : Text) (v : IsValid s) (e : Element) (at : find k s.ll ≡ some e) (it : Item)
    (c : Counters)
    → view (record s { ll = record e { item = it } ∷ unlink e.handle s.ll; counters = c })
      ≡ record (view s) { entries = it ∷ Lru.without k (view s).entries; counters = c }
view-moved s k v e at it c =
    ap (λ es. record (view s) { entries = it ∷ map (λ (e : Element). e.item) es; counters = c })
      (unlink-present s k v e at)
    ∙ ap (λ es. record (view s) { entries = it ∷ es; counters = c }) (view-without k s.ll)

at_own_key :
    (k : Text) (es : List Element) (e : Element) → find k es ≡ some e → find e.key es ≡ some e
at_own_key k es e at = ap (λ j. find j es) (find-key k es at) ∙ at

get_elem-Refines :
    (s : Store) (now : ℕ) (v : IsValid s) (e : Element) (at : find e.key s.ll ≡ some e)
    → Refines (some (get_elem s now e)) (Lru.get_found (view s) now e.item)
unfolding get_elem Lru.get_found remove_elem
get_elem-Refines s now v e at = elim (Bool-cases (is_expired e.item now)) [
  | inl dead ↦
      rw (dead, get_elem, Lru.get_found)
        (_, refl, view-removed s e.key v e at _, remove_elem-IsValid s e.key v e at _)
  | inr live ↦
      rw (live, get_elem, Lru.get_found)
        (_, refl, view-moved s e.key v e at e.item _, to_front-IsValid s e.key v e at e.item _ refl)
]

-- `Get` of a valid store returns, for every key: its reply, the order that it leaves and its counts
-- are those of the list of items, and the store it leaves is valid.
pub get-Refines :
    (s : Store) (now : ℕ) (k : Text) → IsValid s → Refines (get s now k) (Lru.get (view s) now k)
unfolding get Lru.get
get-Refines s now k v = elim (Option-cases (find k s.ll)) [
  | inl absent ↦
      rw (lookup-absent s k v absent, get, view-absent s k v absent, Lru.get)
        (miss s, refl, refl, recount-IsValid s _ v)
  | inr (e, at) ↦
      rw
        (
          lookup-present s k v e at,
          get,
          deref-present s k v e at,
          get,
          view-present s k v e at,
          Lru.get,
        )
        (get_elem-Refines s now v e (at_own_key k s.ll e at))
]

-- `Delete` of a valid store returns, for every key: it replies whether the key was there, leaves
-- the list of items without it, counts it if it was there, and leaves a valid store.
pub delete_key-Refines :
    (s : Store) (k : Text) → IsValid s → Refines (delete_key s k) (Lru.delete (view s) k)
unfolding delete_key remove_elem Lru.delete
delete_key-Refines s k v = elim (Option-cases (find k s.ll)) [
  | inl absent ↦
      rw (lookup-absent s k v absent, delete_key, view-absent s k v absent, Lru.delete)
        (s, refl, refl, v)
  | inr (e, at) ↦
      rw
        (
          lookup-present s k v e at,
          delete_key,
          deref-present s k v e at,
          delete_key,
          view-present s k v e at,
          Lru.delete,
        )
        (_, refl, view-removed s k v e at _, remove_elem-IsValid s k v e at _)
]

pub update-Refines :
    (s : Store) (it : Item) (v : IsValid s) (e : Element) (at : find it.key s.ll ≡ some e)
    → Refines (some (update s e it)) (Lru.replace (view s) e.item it)
unfolding update Lru.replace
update-Refines s it v e at = elim (Bool-cases (ltb_ℤ it.written_at e.written_at)) [
  | inl stale ↦ rw (stale, update, Lru.replace) (_, refl, refl, recount-IsValid s _ v)
  | inr newer ↦
      rw (newer, update, Lru.replace)
        (_, refl, view-moved s it.key v e at it _, to_front-IsValid s it.key v e at it _ refl)
]
