-- ===== src/Store/Invariant.antt =====
-- The invariant of internal/store/store.go: the map and the list agree, and fit the capacity.
use ringcache.Base.{
  ℕ, suc, ◌≤◌, ◌≡◌, refl, sym, ap, ◌∙◌, List, [], ◌∷◌, Option, none, some, arith, length, contains,
  Distinct, is_some, lookup, delete, put, keys, lookup-delete_self, lookup-delete_ne,
  lookup-put_self, lookup-put_ne, delete-Distinct, put-Distinct, contains-keys, length-eq_of_same,
}
use ringcache.Base.Int.{ℤ}
use mathlib.Core.Option
use ringcache.Go.Text.{Text, text_dec}
use ringcache.Store.{Store, Element, Item, new}
use ringcache.Store.Links.{
  IsLinked, find, without, element_keys, contains-find, find-without_self, find-without_ne,
  length-keys, handle-without, find-below, without-IsLinked,
}

-- The map leads each key of the list to its element, and holds no other key.
pub record IsMapped (items : List (Text × ℕ)) (es : List Element) : Type 0 where
  pub leads : (k : Text) → lookup text_dec k items ≡ Option.map (λ e. e.handle) (find k es)
  pub once : Distinct text_dec (keys items)

pub record IsValid (s : Store) : Type 0 where
  pub room : 1 ≤ s.capacity
  pub bounded : length s.ll ≤ s.capacity
  pub linked : IsLinked s.next s.ll
  pub mapped : IsMapped s.items s.ll

pub new-IsValid : (capacity : ℤ) → IsValid (new capacity)
unfolding new find lookup
new-IsValid capacity = record {
  room = ground arith;
  bounded = ground arith;
  linked = record { keys_distinct = tt; handles_distinct = tt; below = tt };
  mapped = record { leads = λ k. refl; once = tt };
}

length-keys_map : (m : List (Text × ℕ)) → length (keys m) ≡ length m
length-keys_map [] = refl
length-keys_map (e ∷ m) = ap suc (length-keys_map m)

is_some-map {ℓ κ} :
    {A : Type ℓ} {B : Type κ} (f : A → B) (o : Option A) → is_some (Option.map f o) ≡ is_some o
is_some-map f none = refl
is_some-map f (some a) = refl

module _ (items : List (Text × ℕ)) (es : List Element) where
  -- `len(s.items)` is the length of the list.
  pub length-items :
      Distinct text_dec (element_keys es) → IsMapped items es → length items ≡ length es
  length-items d m =
      sym (length-keys_map items)
      ∙ length-eq_of_same text_dec (keys items) (element_keys es) m.once d same
      ∙ length-keys es
    where
      same : (k : Text) → contains text_dec k (keys items) ≡ contains text_dec k (element_keys es)
      same k =
          contains-keys text_dec k items
          ∙ ap is_some (m.leads k)
          ∙ is_some-map _ (find k es)
          ∙ sym (contains-find k es)

  pub IsMapped-without :
      (k : Text) → IsMapped items es → IsMapped (delete text_dec k items) (without k es)
  IsMapped-without k m = record {
    leads = λ j. elim (text_dec k j) [
      | yes p ↦ rw (← p, lookup-delete_self text_dec k items, find-without_self k es)
      | no n ↦ rw (find-without_ne k j es n, lookup-delete_ne text_dec k j items n) (m.leads j)
    ];
    once = delete-Distinct text_dec k items m.once;
  }

  -- A new element in front, under a new handle.
  pub IsMapped-front :
      (e : Element) → IsMapped items es → IsMapped (put text_dec e.key e.handle items) (e ∷ es)
  unfolding find
  IsMapped-front e m = record {
    leads = λ j. elim (text_dec e.key j) [
      | yes p ↦ ground (arith, lookup-put_self text_dec j e.handle items)
      | no n ↦ ground (arith, lookup-put_ne text_dec e.key j e.handle items n, m.leads j)
    ];
    once = put-Distinct text_dec e.key e.handle items m.once;
  }

  -- The element of a key, moved to the front, its item written.
  pub IsMapped-moved :
      (k : Text) (e : Element) (it : Item)
      → find k es ≡ some e
      → it.key ≡ k
      → IsMapped items es
      → IsMapped items (record e { item = it } ∷ without k es)
  unfolding find
  IsMapped-moved k e it at same m = record {
    leads = λ j. elim (text_dec it.key j) [
      | yes p ↦ ground (arith, m.leads j, ap (λ i. find i es) (sym p ∙ same))
      | no n ↦ ground (arith, m.leads j, find-without_ne k j es (λ q. n (same ∙ q)))
    ];
    once = m.once;
  }

pub IsLinked-moved :
    {next : ℕ} (es : List Element) (k : Text) (e : Element) (it : Item)
    → find k es ≡ some e
    → it.key ≡ k
    → IsLinked next es
    → IsLinked next (record e { item = it } ∷ without k es)
IsLinked-moved {next} es k e it at same l =
    let rest = without-IsLinked {next = next} k es l in
    record {
      keys_distinct = (
        contains-find it.key (without k es)
            ∙ ap is_some (ap (λ j. find j (without k es)) same ∙ find-without_self k es),
        rest.keys_distinct,
      );
      handles_distinct =
          (handle-without k es l.keys_distinct l.handles_distinct at, rest.handles_distinct);
      below = (find-below {next = next} k es l.below at, rest.below);
    }
