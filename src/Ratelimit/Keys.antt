-- ===== src/Ratelimit/Keys.antt =====
-- The key lists of the store of buckets in internal/ratelimit/store.go: what `touchLocked`,
-- `evictIfNeededLocked` and `sweep` do to the map and to the order of use.
use ringcache.Base.{
  ℕ, ◌≡◌, ◌≤◌, ◌<◌, refl, sym, subst, ap, ◌∙◌, true, false, ◌||◌, List, [], ◌∷◌, ◌++◌, none, some,
  arith, length, leb, lookup, delete, put, contains, erase, Distinct, is_some, by_if,
  contains-append, erase_absent, contains-erase_self, contains-erase_ne, erase-Distinct,
  lookup-delete_self, lookup-delete_ne, lookup-put_ne, lookup-put_self,
}
use ringcache.Go.Text.{Text, text_dec}
use ringcache.Ratelimit.{Slot, evict, cut, touch}

pub cut-erase :
    (key : Text) (ks : List Text) → Distinct text_dec ks → cut key ks ≡ erase text_dec key ks
unfolding cut erase
cut-erase key [] d = refl
cut-erase key (k ∷ ks) d = elim (text_dec k key) [
  | yes p ↦
      let gone = subst (λ j. contains text_dec j ks ≡ false) p d.0 in
      ground (arith, erase_absent text_dec key ks gone)
  | no ne ↦ ground (arith, cut-erase key ks d.1)
]

snoc-Distinct :
    (k : Text) (ks : List Text)
    → Distinct text_dec ks
    → contains text_dec k ks ≡ false
    → Distinct text_dec (ks ++ k ∷ [])
unfolding contains
snoc-Distinct k [] d h = (refl, tt)
snoc-Distinct k (j ∷ js) d h = (
  ground (arith, contains-append text_dec j js (k ∷ []), d.0),
  snoc-Distinct k js d.1 (ground arith),
)

module _ {ℓ} {V : Type ℓ} where
  pub length-delete-le : (k : Text) (m : List (Text × V)) → length (delete text_dec k m) ≤ length m
  unfolding delete
  length-delete-le k [] = omega arith
  length-delete-le k ((j, v) ∷ m) = ground (arith, length-delete-le k m)

  pub length-delete-lt :
      (k : Text) (m : List (Text × V))
      → is_some (lookup text_dec k m) ≡ true
      → length (delete text_dec k m) < length m
  unfolding delete lookup
  length-delete-lt k [] h = absurd (ground arith)
  length-delete-lt k ((j, v) ∷ m) h = ground (arith, length-delete-le k m, length-delete-lt k m)

  -- The order lists each key of the map once, and no other.
  pub record Agree (items : List (Text × V)) (order : List Text) : Type ℓ where
    pub distinct : Distinct text_dec order
    pub same : (k : Text) → contains text_dec k order ≡ is_some (lookup text_dec k items)

  Agree-nil : (items : List (Text × V)) → Agree items [] → length items ≡ 0
  unfolding contains lookup
  Agree-nil [] a = refl
  Agree-nil ((k, v) ∷ m) a = absurd (ground (arith, a.same k))

  -- A key leaves the order and the map.
  pub Agree-tail :
      (k : Text) (items : List (Text × V)) (order : List Text)
      → Agree items (k ∷ order)
      → Agree (delete text_dec k items) order
  unfolding contains
  Agree-tail k items order a = record {
    distinct = a.distinct.1;
    same = λ j. elim (text_dec k j) [
      | yes p ↦
          subst
            (λ i. contains text_dec i order ≡ is_some (lookup text_dec i (delete text_dec k items)))
            p (a.distinct.0 ∙ sym (ap is_some (lookup-delete_self text_dec k items)))
      | no ne ↦ ground (arith, a.same j, lookup-delete_ne text_dec k j items ne)
    ];
  }

  -- The key of a request, new or known, goes to the end of the order.
  pub Agree-touch :
      (k : Text) (v : V) (items : List (Text × V)) (order : List Text)
      → Agree items order
      → Agree (put text_dec k v items) (touch k order)
  unfolding contains
  Agree-touch k v items order a = record {
    distinct = rw (cut-erase k order a.distinct) (
        snoc-Distinct k (erase text_dec k order) (erase-Distinct text_dec k order a.distinct)
          (contains-erase_self text_dec k order));
    same = λ j.
        rw
          (
            cut-erase k order a.distinct,
            contains-append text_dec j (erase text_dec k order) (k ∷ []),
          )
          (at_key j);
  }
    where
      at_key :
          (j : Text)
          → contains text_dec j (erase text_dec k order) || contains text_dec j (k ∷ [])
            ≡ is_some (lookup text_dec j (put text_dec k v items))
      at_key j = elim (text_dec k j) [
        | yes p ↦
            let found =
              subst (λ i. lookup text_dec i (put text_dec k v items) ≡ some v) p
                (lookup-put_self text_dec k v items) in
            ground (arith, found, p)
        | no ne ↦ ground (
          arith,
          a.same j,
          contains-erase_ne text_dec k j order (λ e. ne (sym e)),
          lookup-put_ne text_dec k j v items ne,
        )
      ]

module _ {F : Type 0} where
  -- What an eviction leaves: room for a key, an order that agrees with the map, and no entry that
  -- was not there before.
  pub record Evicted (capacity : ℕ) (items : List (Text × Slot F))
      (r : List (Text × Slot F) × List Text) : Type 0 where
    pub agree : Agree r.0 r.1
    pub room : length r.0 < capacity
    pub old :
        (k : Text) (slot : Slot F)
        → lookup text_dec k r.0 ≡ some slot
        → lookup text_dec k items ≡ some slot

  lookup_of_delete :
      (k j : Text) (items : List (Text × Slot F)) (slot : Slot F)
      → lookup text_dec j (delete text_dec k items) ≡ some slot
      → lookup text_dec j items ≡ some slot
  lookup_of_delete k j items slot h = elim (text_dec k j) [
    | yes p ↦ absurd (
        none-ne-some (
          sym (lookup-delete_self text_dec k items)
          ∙ subst (λ i. lookup text_dec i (delete text_dec k items) ≡ some slot) (sym p) h))
    | no ne ↦ sym (lookup-delete_ne text_dec k j items ne) ∙ h
  ]
    where
      none-ne-some : none ≡ some slot → ⊥
      none-ne-some e = cc

  pub evict-Evicted :
      (capacity : ℕ) (order : List Text) (items : List (Text × Slot F))
      → 1 ≤ capacity
      → Agree items order
      → Evicted capacity items (evict capacity items order)
  unfolding evict
  evict-Evicted capacity [] items c a = record {
    agree = a;
    room = omega (arith, Agree-nil items a);
    old = λ k slot h. h;
  }
  evict-Evicted capacity (victim ∷ order) items c a =
      by_if (Evicted capacity items) (leb capacity (length items))
        (λ full.
          let e =
            evict-Evicted capacity order (delete text_dec victim items) c
              (Agree-tail victim items order a) in
          record {
            agree = e.agree;
            room = e.room;
            old = λ k slot h. lookup_of_delete victim k items slot (e.old k slot h);
          })
        (λ some_room. record { agree = a; room = ground arith; old = λ k slot h. h })

-- A key that the order does not hold is touched by putting it at the end.
pub touch_absent :
    {F : Type 0} (k : Text) (items : List (Text × Slot F)) (order : List Text)
    → Agree items order
    → lookup text_dec k items ≡ none
    → touch k order ≡ order ++ k ∷ []
touch_absent k items order a h =
    ap (λ ks. ks ++ k ∷ [])
      (cut-erase k order a.distinct ∙ erase_absent text_dec k order (a.same k ∙ ap is_some h))
