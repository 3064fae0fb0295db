-- ===== src/Store/Lru.antt =====
-- What internal/store/store.go promises: a bounded list of items, the most recently used first,
-- with a time to live and last-writer-wins, and no pointers.
use ringcache.Base.{
  ℕ, ◌-◌, Bool, true, false, not, List, [], ◌∷◌, Option, none, some, leb, if◌then◌else◌, length,
  take, filter_by,
}
use ringcache.Base.Int.{ltb_ℤ}
use ringcache.Go.Text.{Text, text_dec}
use ringcache.Go.Words.{inc64}
use ringcache.Store.{Item, Entry, Counters, entry_of, is_expired}

pub record Cache : Type 0 where
  pub capacity : ℕ
  pub entries : List Item
  pub counters : Counters

unfoldable pub find : Text → List Item → Option Item
find k [] = none
find k (it ∷ its) = elim (text_dec it.key k) [ yes _ ↦ some it | no _ ↦ find k its ]

unfoldable pub without : Text → List Item → List Item
without k [] = []
without k (it ∷ its) = elim (text_dec it.key k) [
  | yes _ ↦ without k its
  | no _ ↦ it ∷ without k its
]

-- A live entry becomes the most recent one; an expired entry is dropped and counts as a miss.
unfoldable pub get_found : Cache → ℕ → Item → Cache × Option Entry
get_found c now it =
    if is_expired it now
    then (
      record c {
        entries = without it.key c.entries;
        counters = record c.counters {
          expired = inc64 c.counters.expired;
          misses = inc64 c.counters.misses;
        };
      },
      none,
    )
    else (
      record c {
        entries = it ∷ without it.key c.entries;
        counters = record c.counters { hits = inc64 c.counters.hits };
      },
      some (entry_of it),
    )

unfoldable pub get : Cache → ℕ → Text → Cache × Option Entry
get c now k = elim (find k c.entries) [
  | none ↦ (record c { counters = record c.counters { misses = inc64 c.counters.misses } }, none)
  | some it ↦ get_found c now it
]

-- An entry that is strictly newer stays; otherwise the new one takes its place, in front.
unfoldable pub replace : Cache → Item → Item → Cache × Bool
replace c old it =
    if ltb_ℤ it.written_at old.written_at
    then (record c { counters = record c.counters { skipped = inc64 c.counters.skipped } }, false)
    else (
      record c {
        entries = it ∷ without it.key c.entries;
        counters = record c.counters { sets = inc64 c.counters.sets };
      },
      true,
    )

-- The least recent entry makes room for a new key.
unfoldable pub admit : Cache → Item → Cache
admit c it = record c {
  entries = it ∷ take (c.capacity - 1) c.entries;
  counters = record c.counters {
    sets = inc64 c.counters.sets;
    evicts =
        if leb c.capacity (length c.entries) then inc64 c.counters.evicts else c.counters.evicts;
  };
}

unfoldable pub set : Cache → Item → Cache × Bool
set c it = elim (find it.key c.entries) [ some old ↦ replace c old it | none ↦ (admit c it, true) ]

unfoldable pub delete : Cache → Text → Cache × Bool
delete c k = elim (find k c.entries) [
  | none ↦ (c, false)
  | some _ ↦ (
    record c {
      entries = without k c.entries;
      counters = record c.counters { deletes = inc64 c.counters.deletes };
    },
    true,
  )
]

-- Adds one to `expired` for each entry that a sweep drops.
unfoldable pub count_expired : ℕ → ℕ → List Item → ℕ
count_expired now n [] = n
count_expired now n (it ∷ its) = count_expired now (if is_expired it now then inc64 n else n) its

unfoldable pub sweep : Cache → ℕ → Cache
sweep c now = record c {
  entries = filter_by (λ it. not (is_expired it now)) c.entries;
  counters = record c.counters { expired = count_expired now c.counters.expired c.entries };
}
