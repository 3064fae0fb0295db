-- ===== src/Store/Sweep.antt =====
-- `sweep` of internal/store/store.go: from the back of the list to the front, over a list that
-- shrinks, against a filter.
use mathlib.Core.Bool.{false≢true}
use mathlib.Core.List.{reverse, reverse-cons}
use ringcache.Base.{
  ℕ, ◌≡◌, ◌≢◌, refl, sym, ap, ◌∙◌, Bool, true, not, List, [], ◌∷◌, ◌++◌, map, some, arith,
  filter_by, contains, Distinct, Bool-cases, inl, inr, append_assoc, if◌then◌else◌, subst,
}
use ringcache.Go.Text.{text_dec}
use ringcache.Go.Words.{inc64}
use ringcache.Store.{Store, Element, Item, Counters, sweep, sweep_loop, is_expired}
use ringcache.Store.Invariant.{IsValid}
use ringcache.Store.Links.{find, without, element_keys, without_absent}
use ringcache.Store.Lru.{Cache}
use ringcache.Store.Lru
use ringcache.Store.Refine.{view, remove_elem-IsValid, remove_elem-without}

abbrev is_live : ℕ → Element → Bool
is_live now e = not (is_expired e.item now)

sweep_loop-append :
    (now : ℕ) (xs ys : List Element) (s : Store)
    → sweep_loop now (xs ++ ys) s ≡ sweep_loop now ys (sweep_loop now xs s)
unfolding sweep_loop
sweep_loop-append now [] ys s = refl
sweep_loop-append now (x ∷ xs) ys s = sweep_loop-append now xs ys _

count_expired-inc :
    (now n : ℕ) (its : List Item)
    → Lru.count_expired now (inc64 n) its ≡ inc64 (Lru.count_expired now n its)
unfolding Lru.count_expired
count_expired-inc now n [] = refl
count_expired-inc now n (it ∷ its) =
    ground (arith, count_expired-inc now n its, count_expired-inc now (inc64 n) its)

contains-middle :
    (pre : List Element) (f : Element) (rest : List Element)
    → contains text_dec f.key (element_keys (pre ++ f ∷ rest)) ≡ true
unfolding contains
contains-middle [] f rest = ground arith
contains-middle (g ∷ pre) f rest = ground (arith, contains-middle pre f rest)

count_expired-cons :
    (now n : ℕ) (it : Item) (its : List Item)
    → (if is_expired it now
        then inc64 (Lru.count_expired now n its)
        else Lru.count_expired now n its)
      ≡ Lru.count_expired now n (it ∷ its)
unfolding Lru.count_expired
count_expired-cons now n it its = ground (arith, count_expired-inc now n its)

-- An element amid a list whose keys are distinct: it is found, and to drop its key drops it alone.
middle :
    (pre : List Element) (f : Element) (rest : List Element)
    → Distinct text_dec (element_keys (pre ++ f ∷ rest))
    → (find f.key (pre ++ f ∷ rest) ≡ some f) × (without f.key (pre ++ f ∷ rest) ≡ pre ++ rest)
unfolding find without
middle [] f rest d = (ground arith, ground (arith, without_absent f.key rest d.0))
middle (g ∷ pre) f rest d =
    let other : g.key ≢ f.key = λ p. false≢true (
      sym d.0
      ∙ ap (λ k. contains text_dec k (element_keys (pre ++ f ∷ rest))) p
      ∙ contains-middle pre f rest) in
    ground (arith, middle pre f rest d.1)

-- What the loop has done when it has passed the elements behind `pre`.
record Swept (now : ℕ) (pre es : List Element) (s t : Store) : Type 0 where
  valid : IsValid t
  kept : t.ll ≡ pre ++ filter_by (is_live now) es
  count : t.counters ≡ record s.counters {
    expired = Lru.count_expired now s.counters.expired (map (λ e. e.item) es);
  }
  capacity : t.capacity ≡ s.capacity

sweep_one :
    (now : ℕ) (pre rest : List Element) (f : Element) (s : Store)
    → IsValid s
    → s.ll ≡ pre ++ f ∷ rest
    → let t = sweep_loop now (f ∷ []) s in
      IsValid t
      × (t.ll ≡ pre ++ (if is_live now f then f ∷ rest else rest))
      × (t.counters ≡ record s.counters {
        expired = if is_expired f.item now then inc64 s.counters.expired else s.counters.expired;
      })
      × (t.capacity ≡ s.capacity)
unfolding sweep_loop
sweep_one now pre rest f s v e =
    let d = subst (λ es. Distinct text_dec (element_keys es)) e v.linked.keys_distinct in
    let (found, dropped) = middle pre f rest d in
    let at : find f.key s.ll ≡ some f = ap (find f.key) e ∙ found in
    elim (Bool-cases (is_expired f.item now)) [
      | inr live ↦ rw live (v, e, refl, refl)
      | inl dead ↦ rw dead (
        remove_elem-IsValid s f.key v f at _,
        ap (λ t. t.ll) (remove_elem-without s f.key v f at) ∙ ap (without f.key) e ∙ dropped,
        refl,
        refl,
      )
    ]

sweep_none :
    (now : ℕ) (pre : List Element) (s : Store)
    → IsValid s
    → s.ll ≡ pre ++ []
    → Swept now pre [] s (sweep_loop now [] s)
unfolding sweep_loop Lru.count_expired
sweep_none now pre s v e = record { valid = v; kept = e; count = refl; capacity = refl }

sweep_loop-Swept :
    (now : ℕ) (pre es : List Element) (s : Store)
    → IsValid s
    → s.ll ≡ pre ++ es
    → Swept now pre es s (sweep_loop now (reverse es) s)
sweep_loop-Swept now pre [] s v e = sweep_none now pre s v e
sweep_loop-Swept now pre (f ∷ es) s v e =
    let w = sweep_loop-Swept now (pre ++ f ∷ []) es s v (e ∙ sym (append_assoc pre (f ∷ []) es)) in
    let t = sweep_loop now (reverse es) s in
    let live = filter_by (is_live now) es in
    let one = sweep_one now pre live f t w.valid (w.kept ∙ append_assoc pre (f ∷ []) live) in
    let split : sweep_loop now (reverse (f ∷ es)) s ≡ sweep_loop now (f ∷ []) t =
      ap (λ l. sweep_loop now l s) (reverse-cons f es)
      ∙ sweep_loop-append now (reverse es) (f ∷ []) s in
    rw split (record {
      valid = one.0;
      kept = one.1;
      count =
          one.2
          ∙ ap {A = Counters} {B = Counters}
              (λ c. record c {
                expired = if is_expired f.item now then inc64 c.expired else c.expired;
              })
              w.count
          ∙ ap {B = Counters} (λ n. record s.counters { expired = n })
              (count_expired-cons now s.counters.expired f.item (map (λ e. e.item) es));
      capacity = one.3 ∙ w.capacity;
    })

items-filter_by :
    (now : ℕ) (es : List Element)
    → map (λ e. e.item) (filter_by (is_live now) es)
      ≡ filter_by (λ it. not (is_expired it now)) (map (λ e. e.item) es)
items-filter_by now [] = refl
items-filter_by now (e ∷ es) = ground (arith, items-filter_by now es)

-- `sweep` of a valid store drops the expired entries, keeps the others in order, counts what it
-- drops, and leaves a valid store.
pub sweep-Refines :
    (s : Store) (now : ℕ)
    → IsValid s
    → IsValid (sweep s now) × (view (sweep s now) ≡ Lru.sweep (view s) now)
unfolding sweep Lru.sweep
sweep-Refines s now v =
    let w = sweep_loop-Swept now [] s.ll s v refl in
    (
      w.valid,
      λ i. record {
        capacity = w.capacity i;
        entries = (ap (map (λ (e : Element). e.item)) w.kept ∙ items-filter_by now s.ll) i;
        counters = w.count i;
      },
    )
