-- ===== src/Middleware/Held.antt =====
-- The gate of pkg/ratelimit/middleware.go over histories of requests that come in, get their
-- decision and are served, in any interleaving, for all keys at once.
use ringcache.Base.{ℕ, suc, ◌≡◌, ◌≤◌, List, [], ◌∷◌}
use ringcache.Base.Int.{pos_part}
use ringcache.Go.Text.{Text, text_dec}
use ringcache.Middleware.{Answer}
use ringcache.Middleware.Handler.{Settings, Gate, Entry, count, enter, settle, leave}

-- How many requests with the key hold the gate.
unfoldable pub occurs : Text → List Text → ℕ
occurs k [] = 0
occurs k (j ∷ js) = let rest = occurs k js in elim (text_dec j k) [ yes _ ↦ suc rest | no _ ↦ rest ]

-- What happens to the middleware: a request comes in; one that did, with this key, gets the
-- answers of the cluster; and one with the key has been served.
pub data Event (F : Type 0) : Type 0 where
  comes : (Text → Text) → Event F
  decides : (Text → Answer F) → Text → Entry → Event F
  goes : Text → Event F

unfoldable pub run : {F : Type 0} → Settings F → Gate → List (Event F) → Gate
unfolding enter settle leave
run st g [] = g
run st g (comes headers ∷ es) = run st (enter st headers g).0 es
run st g (decides send key e ∷ es) = run st (settle st send key g e).0 es
run st g (goes key ∷ es) = run st (leave st key g) es

-- Each counter is the number of requests with its key that hold the gate, and at most the cap.
abbrev pub Balanced : {F : Type 0} → Settings F → Gate → Text → Type 0
Balanced st g key =
    (count key g.counts ≡ occurs key g.held) × (occurs key g.held ≤ pos_part st.max_in_flight)

-- The gate before the first request.
abbrev pub empty_gate : Gate
empty_gate = record { counts = []; fail_open = 0; held = [] }
