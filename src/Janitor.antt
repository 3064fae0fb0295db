-- ===== src/Janitor.antt =====
-- The goroutine that both stores start in `New`, and `Close`, which ends it: `janitor` and `Close`
-- of internal/store/store.go, which internal/ratelimit/store.go has too. Any goroutine may take
-- the next step, and a `select` with two channels ready takes either.
pub mod Closing
pub mod Ending
mod Tests
use ringcache.Base.{ℕ, zero, suc, ◌+◌, ◌-◌, ◌<◌, ◌≤◌, ◌≡◌, Bool, true, false, List, [], ◌∷◌, ◌++◌}
use ringcache.Ratelimit
use ringcache.Store

-- A goroutine that calls `Close`: before `closeOnce.Do`, in it and past `close(s.stop)`, or back.
pub data Closer : Type 0 where
  calls : Closer
  awaits : Closer
  closed : Closer

-- `closeOnce`: its function has not been called, runs, or has returned.
pub data Once : Type 0 where
  unused : Once
  busy : Once
  over : Once

-- `stops` is how often `s.stop` has been closed, of which a second time would panic; `stopped`
-- is whether `s.stopped` is closed; `swept` counts the sweeps.
pub record Shop {ℓ} (S : Type ℓ) : Type ℓ where
  pub store : S
  pub stops : ℕ
  pub stopped : Bool
  pub running : Bool
  pub once : Once
  pub closers : List Closer
  pub swept : ℕ

module _ {ℓ} {S : Type ℓ} (sweep : S → ℕ → S) where
  pub data Step : Shop S → Shop S → Type ℓ where
    sweeps :
        {s : Shop S} (now : ℕ)
        → s.running ≡ true
        → Step s (record s { store = sweep s.store now; swept = s.swept + 1 })
    quits :
        {s : Shop S}
        → s.running ≡ true
        → 0 < s.stops
        → Step s (record s { running = false; stopped = true })
    -- Any other call on the store.
    uses : {s : Shop S} (op : S → S) → Step s (record s { store = op s.store })
    enters :
        {s : Shop S} (before behind : List Closer)
        → s.closers ≡ before ++ calls ∷ behind
        → s.once ≡ unused
        → Step s
            (record s { once = busy; stops = s.stops + 1; closers = before ++ awaits ∷ behind })
    finishes :
        {s : Shop S} (before behind : List Closer)
        → s.closers ≡ before ++ awaits ∷ behind
        → s.stopped ≡ true
        → Step s (record s { once = over; closers = before ++ closed ∷ behind })
    passes :
        {s : Shop S} (before behind : List Closer)
        → s.closers ≡ before ++ calls ∷ behind
        → s.once ≡ over
        → Step s (record s { closers = before ++ closed ∷ behind })

  -- So many steps.
  pub data Run : ℕ → Shop S → Shop S → Type ℓ where
    stop : {s : Shop S} → Run zero s s
    step : {k : ℕ} {s t u : Shop S} → Run k s t → Step t u → Run (suc k) s u

abbrev pub all_call : ℕ → List Closer
all_call zero = []
all_call (suc n) = calls ∷ all_call n

-- `New` has started the goroutine; `n` goroutines are about to call `Close`.
abbrev pub opened {ℓ} : {S : Type ℓ} → S → ℕ → Shop S
opened s n = record {
  store = s;
  stops = 0;
  stopped = false;
  running = true;
  once = unused;
  closers = all_call n;
  swept = 0;
}

-- The steps on a store of internal/store, and on one of internal/ratelimit.
abbrev pub StoreStep : Shop Store.Store → Shop Store.Store → Type 0
StoreStep = Step Store.sweep

abbrev pub LimitsStep : {F : Type 0} → Shop (Ratelimit.Store F) → Shop (Ratelimit.Store F) → Type 0
LimitsStep = Step Ratelimit.sweep
