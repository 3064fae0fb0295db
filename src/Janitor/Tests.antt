-- ===== src/Janitor/Tests.antt =====
-- The theorems on `Close` at a store that two goroutines close.
use ringcache.Base.{◌+◌, ◌*◌, ◌<◌, ◌≤◌, ◌≡◌, refl, true, false, [], ◌∷◌, arith}
use ringcache.Base.Int.{pos}
use ringcache.Janitor.{
  calls, awaits, closed, busy, over, Shop, StoreStep, quits, enters, finishes, passes, Run, stop,
  step, opened,
}
use ringcache.Janitor.Closing.{done, Run-closed}
use ringcache.Janitor.Ending.{Returns, Run-Returns}
use ringcache.Store
use ringcache.Store.{Store}

abbrev small : Store
small = Store.new (pos 2)

-- The second of the two goroutines has entered `Close`.
abbrev entered : Shop Store
entered = record (opened small 2) { once = busy; stops = 1; closers = calls ∷ awaits ∷ [] }

abbrev quitted : Shop Store
quitted = record entered { running = false; stopped = true }

abbrev one_back : Shop Store
one_back = record quitted { once = over; closers = calls ∷ closed ∷ [] }

abbrev both_back : Shop Store
both_back = record one_back { closers = closed ∷ closed ∷ [] }

enter : StoreStep (opened small 2) entered
enter = enters (calls ∷ []) [] refl refl

to_entered : Run Store.sweep 1 (opened small 2) entered
to_entered = step stop enter

to_one_back : Run Store.sweep 3 (opened small 2) one_back
to_one_back = step (step to_entered (quits refl (omega arith))) (finishes (calls ∷ []) [] refl refl)

to_both_back : Run Store.sweep 1 one_back both_back
to_both_back = step stop (passes [] (closed ∷ []) refl refl)

Run-closed_example :
    (both_back.stops ≤ 1)
    × (0 < done one_back.closers
        → (one_back.running ≡ false)
          × (both_back.running ≡ false)
          × (both_back.swept ≡ one_back.swept))
Run-closed_example = Run-closed Store.sweep small 2 3 1 one_back both_back to_one_back to_both_back

Run-Returns_example : Returns Store.sweep (2 * 2 + 1) entered
Run-Returns_example = Run-Returns Store.sweep small 2 1 entered to_entered
