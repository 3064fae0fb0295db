-- ===== src/Store/Writes.antt =====
-- Last-writer-wins, and what a `Set` of internal/store/store.go leaves alone.
use ringcache.Base.Int.{ℤ, ltb_ℤ, ◌<ℤ◌}
use ringcache.Base.{
  ℕ, zero, suc, ◌-◌, ◌≡◌, inl, inr, refl, sym, ap, ◌∙◌, List, [], ◌∷◌, none, some, arith, take, map,
  map-take, if◌then◌else◌, Option-cases, Bool-cases,
}
use ringcache.Go.Text.{Text}
use ringcache.Store.{Store, Item, expiry}
use ringcache.Store.Invariant.{IsValid}
use ringcache.Store.Lru.{Cache}
use ringcache.Store.Lru
use ringcache.Store.Refine.{view}
use ringcache.Store.Run.{sets, Reply, run, spec_run, run-Refines}

find-take :
    (k : Text) (n : ℕ) (its : List Item) → Lru.find k its ≡ none → Lru.find k (take n its) ≡ none
unfolding Lru.find
find-take k zero its h = refl
find-take k (suc n) [] h = refl
find-take k (suc n) (it ∷ its) h = ground (arith, find-take k n its)

without_absent : (k : Text) (its : List Item) → Lru.find k its ≡ none → Lru.without k its ≡ its
unfolding Lru.find Lru.without
without_absent k [] h = refl
without_absent k (it ∷ its) h = ground (arith, without_absent k its)

without_idem : (k : Text) (its : List Item) → Lru.without k (Lru.without k its) ≡ Lru.without k its
unfolding Lru.without
without_idem k [] = refl
without_idem k (it ∷ its) = ground (arith, without_idem k its)

-- The entries after a write of the key `k`.
written : ℕ → Text → List Item → Item → List Item
written cap k es it = elim (Lru.find k es) [
  | none ↦ it ∷ take (cap - 1) es
  | some old ↦ if ltb_ℤ it.written_at old.written_at then es else it ∷ Lru.without k es
]

set-written :
    (c : Cache) (it : Item)
    → ((Lru.set c it).0.entries ≡ written c.capacity it.key c.entries it)
      × ((Lru.set c it).0.capacity ≡ c.capacity)
unfolding Lru.set Lru.replace Lru.admit written
set-written c it = ground arith

module _ (cap : ℕ) (k : Text) (es : List Item) (a b : Item) (ka : a.key ≡ k) (kb : b.key ≡ k)
    (older : a.written_at <ℤ b.written_at) where
  written_last : (rest : List Item) → written cap k (a ∷ rest) b ≡ b ∷ Lru.without k rest
  unfolding written Lru.find Lru.without
  written_last rest = ground arith

  written_first : (rest : List Item) → written cap k (b ∷ rest) a ≡ b ∷ rest
  unfolding written Lru.find Lru.without
  written_first rest = ground arith

  -- Both writes took effect at first, over the same rest.
  order_of_both :
      (rest : List Item)
      → written cap k es a ≡ a ∷ rest
      → written cap k es b ≡ b ∷ rest
      → Lru.without k rest ≡ rest
      → written cap k (written cap k es a) b ≡ written cap k (written cap k es b) a
  order_of_both rest wa wb clean =
      ap (λ l. written cap k l b) wa
      ∙ written_last rest
      ∙ ap (◌∷◌ b) clean
      ∙ sym (ap (λ l. written cap k l a) wb ∙ written_first rest)

  order_of_known :
      (old : Item)
      → Lru.find k es ≡ some old
      → written cap k (written cap k es a) b ≡ written cap k (written cap k es b) a
  unfolding written
  order_of_known old there = elim (Bool-cases (ltb_ℤ a.written_at old.written_at)) [
    | inl stale ↦ ground (arith, there, written_first (Lru.without k es))
    | inr fresh ↦
        order_of_both (Lru.without k es) (ground (arith, there)) (ground (arith, there))
          (without_idem k es)
  ]

  -- Two writes of one key, the later of them applied last or first.
  written_order : written cap k (written cap k es a) b ≡ written cap k (written cap k es b) a
  unfolding written
  written_order = elim (Option-cases (Lru.find k es)) [
    | inl absent ↦
        let rest = take (cap - 1) es in
        order_of_both rest (rw (absent, written)) (rw (absent, written))
          (without_absent k rest (find-take k (cap - 1) es absent))
    | inr (old, there) ↦ order_of_known old there
  ]

twice :
    (c : Cache) (a b : Item)
    → b.key ≡ a.key
    → (Lru.set (Lru.set c a).0 b).0.entries
      ≡ written c.capacity a.key (written c.capacity a.key c.entries a) b
twice c a b same =
    let (first, cap) = set-written c a in
    let (second, _) = set-written (Lru.set c a).0 b in rw (second, cap, first, same)

-- An entry but for its expiry, which each store computes from its own clock.
abbrev pub timeless : Item → Item
timeless it = record it { expires_at = 0 }

find-timeless :
    (k : Text) (es : List Item)
    → Lru.find k (map timeless es)
      ≡ elim (Lru.find k es) [ none ↦ none | some it ↦ some (timeless it) ]
unfolding Lru.find
find-timeless k [] = refl
find-timeless k (it ∷ es) = ground (arith, find-timeless k es)

without-timeless :
    (k : Text) (es : List Item) → map timeless (Lru.without k es) ≡ Lru.without k (map timeless es)
unfolding Lru.without
without-timeless k [] = refl
without-timeless k (it ∷ es) = ground (arith, without-timeless k es)

-- Which entries a write leaves does not depend on their expiry.
written-timeless :
    (cap : ℕ) (k : Text) (es : List Item) (it : Item)
    → map timeless (written cap k es it) ≡ written cap k (map timeless es) (timeless it)
unfolding written
written-timeless cap k es it = elim (Option-cases (Lru.find k es)) [
  | inl absent ↦ ground (arith, absent, find-timeless k es, map-take timeless (cap - 1) es)
  | inr (old, there) ↦ ground (arith, there, find-timeless k es, without-timeless k es)
]

twice-timeless :
    (c : Cache) (a b : Item)
    → b.key ≡ a.key
    → map timeless (Lru.set (Lru.set c a).0 b).0.entries
      ≡ written c.capacity a.key
          (written c.capacity a.key (map timeless c.entries) (timeless a))
          (timeless b)
twice-timeless c a b same =
    ap (map timeless) (twice c a b same)
    ∙ written-timeless c.capacity a.key (written c.capacity a.key c.entries a) b
    ∙ ap (λ es. written c.capacity a.key es (timeless b))
        (written-timeless c.capacity a.key c.entries a)

-- Two writes of a key with different versions, `v` before `w`, in either order on the same valid
-- store, each at a time of its own in each order: both orders return, and end with the same
-- entries but for the expiries, which follow the clock at each receipt.
pub set_converges :
    (s : Store) (k x y : Text) (now later now' later' : ℕ) (ttl ttl' v w : ℤ)
    → IsValid s
    → v <ℤ w
    → (t : Store) × (u : Store) × (rs : List Reply) × (qs : List Reply) × (run s
          (sets now k x ttl v ∷ sets later k y ttl' w ∷ [])
        ≡ some (t, rs))
      × (run s (sets now' k y ttl' w ∷ sets later' k x ttl v ∷ []) ≡ some (u, qs))
      × (map timeless (view t).entries ≡ map timeless (view u).entries)
unfolding spec_run
set_converges s k x y now later now' later' ttl ttl' v w valid older =
    let item : Text → ℕ → ℤ → ℤ → Item = λ value at life version. record {
      key = k;
      value = value;
      expires_at = expiry at life;
      written_at = version;
    } in
    let c = view s in
    let (t, e, seen, _) = run-Refines s (sets now k x ttl v ∷ sets later k y ttl' w ∷ []) valid in
    let (u, f, then_seen, _) =
      run-Refines s (sets now' k y ttl' w ∷ sets later' k x ttl v ∷ []) valid in
    (
      t,
      u,
      _,
      _,
      e,
      f,
      ap (λ (d : Cache). map timeless d.entries) seen
          ∙ twice-timeless c (item x now ttl v) (item y later ttl' w) refl
          ∙ written_order c.capacity k (map timeless c.entries) (timeless (item x now ttl v))
              (timeless (item y later ttl' w)) refl refl older
          ∙ sym (
              ap (λ (d : Cache). map timeless d.entries) then_seen
              ∙ twice-timeless c (item y now' ttl' w) (item x later' ttl v) refl),
    )
