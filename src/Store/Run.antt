-- ===== src/Store/Run.antt =====
-- Any history of calls on a store of internal/store/store.go, the janitor's sweeps among them,
-- against the same history of the list of items.
use ringcache.Base.{ℕ, ◌≤◌, ◌≡◌, refl, ap, ◌∙◌, Bool, List, [], ◌∷◌, Option, none, some, arith}
use ringcache.Base.Int.{ℤ}
use ringcache.Go.Text.{Text}
use ringcache.Store.{Store, Entry, new, get, set, delete_key, sweep, expiry, len}
use ringcache.Store.Admit.{set-Refines}
use ringcache.Store.Invariant.{IsValid, new-IsValid, length-items}
use ringcache.Store.Lru.{Cache}
use ringcache.Store.Lru
use ringcache.Store.Refine.{view, Refines, get-Refines, delete_key-Refines}
use ringcache.Store.Sweep.{sweep-Refines}

-- The calls, each with the clock's reading where it reads the clock.
pub data Call : Type 0 where
  gets : ℕ → Text → Call
  sets : ℕ → Text → Text → ℤ → ℤ → Call
  deletes : Text → Call
  sweeps : ℕ → Call

pub data Reply : Type 0 where
  got : Option Entry → Reply
  done : Bool → Reply
  swept : Reply

abbrev answer {ℓ} : {R : Type ℓ} → (R → Reply) → Option (Store × R) → Option (Store × Reply)
answer f none = none
answer f (some (s, r)) = some (s, f r)

unfoldable pub step : Store → Call → Option (Store × Reply)
step s (gets now k) = answer got (get s now k)
step s (sets now k v ttl w) = answer done (set s now k v ttl w)
step s (deletes k) = answer done (delete_key s k)
step s (sweeps now) = some (sweep s now, swept)

unfoldable pub run : Store → List Call → Option (Store × List Reply)
unfolding step
run s [] = some (s, [])
run s (c ∷ cs) = elim (step s c) [
  | none ↦ none
  | some (t, r) ↦ elim (run t cs) [ none ↦ none | some (u, rs) ↦ some (u, r ∷ rs) ]
]

unfoldable spec_step : Cache → Call → Cache × Reply
spec_step c (gets now k) = let (d, r) = Lru.get c now k in (d, got r)
spec_step c (sets now k v ttl w) =
    let (d, r) =
      Lru.set c (record { key = k; value = v; expires_at = expiry now ttl; written_at = w }) in
    (d, done r)
spec_step c (deletes k) = let (d, r) = Lru.delete c k in (d, done r)
spec_step c (sweeps now) = (Lru.sweep c now, swept)

unfoldable pub spec_run : Cache → List Call → Cache × List Reply
unfolding spec_step
spec_run c [] = (c, [])
spec_run c (call ∷ cs) = let (d, r) = spec_step c call in let (e, rs) = spec_run d cs in (e, r ∷ rs)

step-Refines : (s : Store) (c : Call) → IsValid s → Refines (step s c) (spec_step (view s) c)
unfolding step spec_step
step-Refines s (gets now k) v =
    let (t, e, seen, w) = get-Refines s now k v in (t, ap (answer got) e, seen, w)
step-Refines s (sets now k x ttl w) v =
    let (t, e, seen, u) = set-Refines s now k x ttl w v in (t, ap (answer done) e, seen, u)
step-Refines s (deletes k) v =
    let (t, e, seen, w) = delete_key-Refines s k v in (t, ap (answer done) e, seen, w)
step-Refines s (sweeps now) v =
    let (w, seen) = sweep-Refines s now v in (sweep s now, refl, seen, w)

run-cons :
    (s : Store) (c : Call) (cs : List Call) {t u : Store} {r : Reply} {rs : List Reply}
    → step s c ≡ some (t, r)
    → run t cs ≡ some (u, rs)
    → run s (c ∷ cs) ≡ some (u, r ∷ rs)
unfolding run
run-cons s c cs e f = rw (e, run, f, run)

-- From a valid store every history returns, gives the replies that the list of items gives, and
-- leaves a valid store that looks like the list.
pub run-Refines :
    (s : Store) (cs : List Call) → IsValid s → Refines (run s cs) (spec_run (view s) cs)
unfolding run spec_run
run-Refines s [] v = (s, refl, refl, v)
run-Refines s (c ∷ cs) v =
    let (t, e, seen, w) = step-Refines s c v in
    let (u, f, then_seen, x) = run-Refines t cs w in
    (
      u,
      run-cons s c cs e f ∙ ap (λ d. some (u, (spec_step (view s) c).1 ∷ (spec_run d cs).1)) seen,
      then_seen ∙ ap (λ d. (spec_run d cs).0) seen,
      x,
    )

capacity-step : (c : Cache) (call : Call) → (spec_step c call).0.capacity ≡ c.capacity
unfolding spec_step Lru.get Lru.get_found Lru.set Lru.replace Lru.admit Lru.delete Lru.sweep
capacity-step c (gets now k) = ground arith
capacity-step c (sets now k v ttl w) = ground arith
capacity-step c (deletes k) = ground arith
capacity-step c (sweeps now) = refl

capacity-run : (c : Cache) (cs : List Call) → (spec_run c cs).0.capacity ≡ c.capacity
unfolding spec_run
capacity-run c [] = refl
capacity-run c (call ∷ cs) = capacity-run (spec_step c call).0 cs ∙ capacity-step c call

-- A new store returns from every history of calls, and never holds more keys than the capacity it
-- was made with.
pub run-new-len-le :
    (capacity : ℤ) (cs : List Call)
    → (t : Store) × (rs : List Reply) × (run (new capacity) cs ≡ some (t, rs))
      × (len t ≤ (new capacity).capacity)
run-new-len-le capacity cs =
    let (t, e, seen, v) = run-Refines (new capacity) cs (new-IsValid capacity) in
    let same : t.capacity ≡ (new capacity).capacity =
      ap (λ c. c.capacity) seen ∙ capacity-run (view (new capacity)) cs in
    (
      t,
      _,
      e,
      omega (arith, length-items t.items t.ll v.linked.keys_distinct v.mapped, v.bounded, same),
    )
