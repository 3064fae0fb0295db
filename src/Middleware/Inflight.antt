-- ===== src/Middleware/Inflight.antt =====
-- `acquireInflight` of pkg/ratelimit/middleware.go: the requests for one key share a counter, which
-- they read and write by atomic operations in any interleaving.
use ringcache.Base.{ℕ, ◌+◌, ◌-◌, ◌≡◌, ◌≢◌, ◌≤◌, ◌<◌, refl, List, [], ◌∷◌, arith, All}

-- Where a request stands: before the load, with the value it loaded, served, or gone.
pub data Request : Type 0 where
  trying : Request
  loaded : ℕ → Request
  holding : Request
  refused : Request
  released : Request

-- One atomic operation of one request: the counter and the request before and after it.
pub data Move (limit : ℕ) : ℕ → Request → ℕ → Request → Type 0 where
  load_free : {c : ℕ} → c < limit → Move limit c trying c (loaded c)
  load_full : {c : ℕ} → limit ≤ c → Move limit c trying c refused
  swap_done : {c : ℕ} → Move limit c (loaded c) (c + 1) holding
  swap_lost : {c cur : ℕ} → cur ≢ c → Move limit c (loaded cur) c trying
  release : {c : ℕ} → Move limit c holding (c - 1) released

-- A step of the program: some request moves, or a new one arrives.
pub data Step (limit : ℕ) : ℕ → List Request → ℕ → List Request → Type 0 where
  moves :
      {c d : ℕ} {r s : Request} {rs : List Request}
      → Move limit c r d s
      → Step limit c (r ∷ rs) d (s ∷ rs)
  later :
      {c d : ℕ} {r : Request} {rs ss : List Request}
      → Step limit c rs d ss
      → Step limit c (r ∷ rs) d (r ∷ ss)
  arrives : {c : ℕ} {rs : List Request} → Step limit c rs c (trying ∷ rs)

-- The states that the program reaches from an empty gate.
pub data Reach (limit : ℕ) : ℕ → List Request → Type 0 where
  empty : Reach limit 0 []
  next :
      {c d : ℕ} {rs ss : List Request} → Reach limit c rs → Step limit c rs d ss → Reach limit d ss

-- How many requests are being served.
unfoldable weight : Request → ℕ
weight trying = 0
weight (loaded c) = 0
weight holding = 1
weight refused = 0
weight released = 0

unfoldable pub holders : List Request → ℕ
unfolding weight
holders [] = 0
holders (r ∷ rs) = weight r + holders rs

-- A loaded value was below the limit.
unfoldable Fits : ℕ → Request → Type 0
Fits limit trying = Unit
Fits limit (loaded c) = c < limit
Fits limit holding = Unit
Fits limit refused = Unit
Fits limit released = Unit

Counted : ℕ → ℕ → List Request → ℕ → Type 0
Counted limit c rs others = All (Fits limit) rs × (c ≡ others + holders rs) × (c ≤ limit)

Move-Counted :
    (limit : ℕ) {c d : ℕ} {r s : Request} (rs : List Request) (others : ℕ)
    → Move limit c r d s
    → Counted limit c (r ∷ rs) others
    → Counted limit d (s ∷ rs) others
unfolding Counted holders weight Fits
Move-Counted limit rs others (load_free h) (f, e, b) = ((h, f.1), e, b)
Move-Counted limit rs others (load_full h) (f, e, b) = ((tt, f.1), e, b)
Move-Counted limit rs others swap_done (f, e, b) = ((tt, f.1), omega arith, omega (arith, f.0))
Move-Counted limit rs others (swap_lost h) (f, e, b) = ((tt, f.1), e, b)
Move-Counted limit rs others release (f, e, b) = ((tt, f.1), omega arith, omega arith)

Step-Counted :
    (limit : ℕ) {c d : ℕ} {rs ss : List Request} (others : ℕ)
    → Step limit c rs d ss
    → Counted limit c rs others
    → Counted limit d ss others
unfolding Counted holders weight Fits
Step-Counted limit others (moves {rs = rs} m) k = Move-Counted limit rs others m k
Step-Counted limit others (later {r = r} st) (f, e, b) =
    let (g, e', b') = Step-Counted limit (others + weight r) st (f.1, omega arith, b) in
    ((f.0, g), omega (arith, e'), b')
Step-Counted limit others arrives (f, e, b) = ((tt, f), omega arith, b)

Reach-Counted : (limit : ℕ) {c : ℕ} {rs : List Request} → Reach limit c rs → Counted limit c rs 0
unfolding Counted holders
Reach-Counted limit empty = (tt, refl, omega arith)
Reach-Counted limit (next r st) = Step-Counted limit 0 st (Reach-Counted limit r)

-- In every state that an interleaving reaches, the counter is the number of requests being
-- served, and that is never above the limit.
pub Reach-holders :
    (limit c : ℕ) (rs : List Request) → Reach limit c rs → (c ≡ holders rs) × (holders rs ≤ limit)
unfolding Counted
Reach-holders limit c rs r =
    let (f, e, b) = Reach-Counted limit r in (omega (arith, e), omega (arith, e, b))
