-- ===== src/Store/Tests.antt =====
-- Runs of internal/store/store.go, and its theorems at concrete stores.
use ringcache.Base.{
  map, ◌≡◌, ◌≤◌, refl, true, false, List, [], ◌∷◌, Option, none, some, arith, ℕ_discrete, lookup,
  delete, put,
}
use ringcache.Base.Int.{pos}
use ringcache.Go.Text.{Text, text_dec}
use ringcache.Go.Words.{inc64}
use ringcache.Store.{
  Store, zero_counters, new, get, get_elem, set, update, delete_key, sweep, sweep_loop, is_expired,
  deref, unlink, remove_elem, back, evict_lru, make_room, push_front, expiry, len,
}
use ringcache.Store.Invariant.{IsValid, new-IsValid}
use ringcache.Store.Reads.{Refines-inv}
use ringcache.Store.Refine.{view, Refines}
use ringcache.Store.Run.{
  Call, gets, sets, deletes, sweeps, Reply, got, done, swept, run, spec_run, run-Refines,
  run-new-len-le,
}
use ringcache.Store.Writes.{timeless, set_converges}

-- What the runs below compute with.
program : Unit {0}
unfolding new get get_elem set update delete_key sweep sweep_loop is_expired deref unlink
    remove_elem back evict_lru make_room push_front expiry run lookup delete put text_dec ℕ_discrete
    inc64
program = tt

abbrev a : Text
a = b'a' ∷ []

abbrev b : Text
b = b'b' ∷ []

abbrev c : Text
c = b'c' ∷ []

abbrev v1 : Text
v1 = b'1' ∷ []

abbrev v2 : Text
v2 = b'2' ∷ []

-- `TestLRUOrder` of store_test.go: the key that was read stays, the other one is evicted.
abbrev lru_calls : List Call
lru_calls =
    sets 1 a v1 (pos 0) (pos 1)
    ∷ sets 2 b v1 (pos 0) (pos 2)
    ∷ gets 3 a
    ∷ sets 4 c v1 (pos 0) (pos 3)
    ∷ gets 5 b
    ∷ gets 6 a
    ∷ []

replies : Option (Store × List Reply) → List Reply
replies none = []
replies (some (s, rs)) = rs

lru_order :
    replies (run (new (pos 2)) lru_calls)
    ≡ done true
      ∷ done true
      ∷ got (some (record { value = v1; expires_at = 0; written_at = pos 1 }))
      ∷ done true
      ∷ got none
      ∷ got (some (record { value = v1; expires_at = 0; written_at = pos 1 }))
      ∷ []
unfolding program replies
lru_order = refl

-- An older write is ignored, and an entry ends with its time.
lww_and_ttl :
    replies (
      run (new (pos 2)) (
        sets 10 a v2 (pos 5) (pos 9)
        ∷ sets 11 a v1 (pos 0) (pos 8)
        ∷ gets 14 a
        ∷ gets 15 a
        ∷ sweeps 20
        ∷ deletes a
        ∷ []))
    ≡ done true
      ∷ done false
      ∷ got (some (record { value = v2; expires_at = 15; written_at = pos 9 }))
      ∷ got none
      ∷ swept
      ∷ done false
      ∷ []
unfolding program replies
lww_and_ttl = refl

-- A store that is full, `a` with a time to live.
abbrev full : Store
full = record {
  capacity = 2;
  ll =
      record {
        handle = 1;
        item = record { key = b; value = v1; expires_at = 0; written_at = pos 2 };
      }
      ∷ record {
        handle = 0;
        item = record { key = a; value = v1; expires_at = 9; written_at = pos 1 };
      }
      ∷ [];
  items = (b, 1) ∷ (a, 0) ∷ [];
  next = 2;
  counters = record zero_counters { sets = 2 };
}

abbrev fill : List Call
fill = sets 1 a v1 (pos 8) (pos 1) ∷ sets 2 b v1 (pos 0) (pos 2) ∷ []

filled : run (new (pos 2)) fill ≡ some (full, done true ∷ done true ∷ [])
unfolding program
filled = refl

full-IsValid : IsValid full
full-IsValid =
    (Refines-inv (run (new (pos 2)) fill) (spec_run (view (new (pos 2))) fill) full
      (done true ∷ done true ∷ []) (run-Refines (new (pos 2)) fill (new-IsValid (pos 2))) filled).2

run-Refines_example : Refines (run full lru_calls) (spec_run (view full) lru_calls)
run-Refines_example = run-Refines full lru_calls full-IsValid

run-new-len-le_example :
    (t : Store) × (rs : List Reply) × (run (new (pos 1)) lru_calls ≡ some (t, rs))
    × (len t ≤ (new (pos 1)).capacity)
run-new-len-le_example = run-new-len-le (pos 1) lru_calls

abbrev after_get : Store
after_get = record full {
  ll =
      record {
        handle = 0;
        item = record { key = a; value = v1; expires_at = 9; written_at = pos 1 };
      }
      ∷ record {
        handle = 1;
        item = record { key = b; value = v1; expires_at = 0; written_at = pos 2 };
      }
      ∷ [];
  counters = record zero_counters { sets = 2; hits = 1 };
}

hit :
    get full 5 a
    ≡ some (after_get, some (record { value = v1; expires_at = 9; written_at = pos 1 }))
unfolding program
hit = refl

-- `c` takes the place of `a`, the least recently used.
abbrev after_set : Store
after_set = record full {
  ll =
      record {
        handle = 2;
        item = record { key = c; value = v2; expires_at = 8; written_at = pos 7 };
      }
      ∷ record {
        handle = 1;
        item = record { key = b; value = v1; expires_at = 0; written_at = pos 2 };
      }
      ∷ [];
  items = (c, 2) ∷ (b, 1) ∷ [];
  next = 3;
  counters = record zero_counters { sets = 3; evicts = 1 };
}

set_done : set full 5 c v2 (pos 3) (pos 7) ≡ some (after_set, true)
unfolding program
set_done = refl

set_converges_example :
    (t : Store) × (u : Store) × (rs : List Reply) × (qs : List Reply) × (run full
        (sets 5 a v1 (pos 0) (pos 3) ∷ sets 6 a v2 (pos 4) (pos 7) ∷ [])
      ≡ some (t, rs))
    × (run full (sets 8 a v2 (pos 4) (pos 7) ∷ sets 9 a v1 (pos 0) (pos 3) ∷ []) ≡ some (u, qs))
    × (map timeless (view t).entries ≡ map timeless (view u).entries)
set_converges_example =
    set_converges full a v1 v2 5 6 8 9 (pos 0) (pos 4) (pos 3) (pos 7) full-IsValid (omega arith)
