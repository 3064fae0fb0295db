-- ===== src/Bench.antt =====
-- cmd/bench/main.go and what cmd/ratebench/main.go has in common with it: the load generators.
-- A phase is its workers, which take indices from one atomic counter; any of them may take the
-- next step.
pub mod Workers
pub mod Percentile
pub mod Health
pub mod Jobs
pub mod Primary
pub mod Offered
mod Tests
use ringcache.Base.{
  ℕ, zero, suc, ◌+◌, ◌-◌, ◌%◌, ◌<◌, ◌≤◌, ◌≡◌, Bool, true, false, List, [], ◌∷◌, ◌++◌, Option, none,
  some, get_elem?, length, ltb, ◌==◌, if◌then◌else◌,
}
use ringcache.Base.Int.{ℤ, pos, negsuc}
use ringcache.Go.Sort.{sort}
use ringcache.Go.Split.{split}
use ringcache.Go.Text.{Text, text_dec, itoa}
use ringcache.Go.Trim.{trim_space, trim_slashes}

-- Where a worker of `runPhase` stands: about to take an index, in the call for one, or returned.
pub data Worker : Type 0 where
  ready : Worker
  calling : ℕ → Worker
  returned : Worker

-- The variables that the workers share. `calls` are the indices that `fn` has been called with.
pub record Phase : Type 0 where
  pub idx : ℕ
  pub workers : List Worker
  pub calls : List ℕ
  pub lats : List ℕ
  pub errs : ℕ

-- A step of one worker in a phase of `n` calls: it takes an index and calls `fn` with it, or
-- returns, as no index is left; a call ends with its latency, or with an error.
pub data Step (n : ℕ) : Phase → Phase → Type 0 where
  takes :
      {s : Phase} (before behind : List Worker)
      → s.workers ≡ before ++ ready ∷ behind
      → s.idx < n
      → Step n s (record s {
        idx = s.idx + 1;
        workers = before ++ calling s.idx ∷ behind;
        calls = s.calls ++ s.idx ∷ [];
      })
  returns :
      {s : Phase} (before behind : List Worker)
      → s.workers ≡ before ++ ready ∷ behind
      → n ≤ s.idx
      → Step n s (record s { idx = s.idx + 1; workers = before ++ returned ∷ behind })
  succeeds :
      {s : Phase} (before behind : List Worker) (i dt : ℕ)
      → s.workers ≡ before ++ calling i ∷ behind
      → Step n s (record s { workers = before ++ ready ∷ behind; lats = s.lats ++ dt ∷ [] })
  fails :
      {s : Phase} (before behind : List Worker) (i : ℕ)
      → s.workers ≡ before ++ calling i ∷ behind
      → Step n s (record s { workers = before ++ ready ∷ behind; errs = s.errs + 1 })

abbrev pub all_ready : ℕ → List Worker
all_ready zero = []
all_ready (suc conc) = ready ∷ all_ready conc

-- The phase as `conc` workers begin.
abbrev pub begin : ℕ → Phase
begin conc = record { idx = 0; workers = all_ready conc; calls = []; lats = []; errs = 0 }

-- A run of so many steps.
pub data Run (n : ℕ) : ℕ → Phase → Phase → Type 0 where
  stop : {s : Phase} → Run n zero s s
  step : {k : ℕ} {s t u : Phase} → Run n k s t → Step n t u → Run n (suc k) s u

-- `wg.Wait` returns.
abbrev pub AllReturned : List Worker → Type 0
AllReturned [] = Unit
AllReturned (w ∷ ws) = (w ≡ returned) × AllReturned ws

-- The index that `p` looks at, where `x` is `int(math.Round(q * float64(len(lats)-1)))`.
abbrev pub clamp : ℤ → ℕ → ℕ
clamp (negsuc x) size = 0
clamp (pos x) size = if ltb x size then x else size - 1

-- `p` on latencies that are sorted.
unfoldable pub latency_at : List ℕ → ℤ → Option ℕ
latency_at lats x = get_elem? lats (clamp x (length lats))

-- `percentiles`, with what the rounding makes of 0.50 and of 0.99; `none` is an index out of
-- range.
unfoldable pub percentiles : (ℕ → ℤ) → (ℕ → ℤ) → List ℕ → Option (ℕ × ℕ)
unfolding latency_at sort
percentiles r50 r99 [] = some (0, 0)
percentiles r50 r99 (d ∷ ds) =
    let lats = sort ltb (d ∷ ds) in
    elim (latency_at lats (r50 (length lats - 1))) [
      | none ↦ none
      | some p50 ↦ elim (latency_at lats (r99 (length lats - 1))) [
        | none ↦ none
        | some p99 ↦ some (p50, p99)
      ]
    ]

unfoldable pub parts_of : List Text → List Text
parts_of [] = []
parts_of (p ∷ ps) =
    let rest = parts_of ps in
    elim (text_dec (trim_space p) []) [ yes _ ↦ rest | no _ ↦ trim_slashes (trim_space p) ∷ rest ]

unfoldable pub split_csv : Text → List Text
unfolding parts_of split
split_csv s = parts_of (split b',' s)

-- `"bench:"` and the number.
unfoldable pub key_of : ℕ → ℕ → Text
key_of i keyn = b'b' ∷ b'e' ∷ b'n' ∷ b'c' ∷ b'h' ∷ b':' ∷ itoa (i % keyn)

abbrev pub count_ok : Option ℕ → ℕ → ℕ
count_ok none rest = rest
count_ok (some status) rest = if status == 200 then rest + 1 else rest

-- The servers that answer `/health` with 200, as `fetch` finds them.
unfoldable pub healthy : (Text → Option ℕ) → List Text → ℕ
healthy fetch [] = 0
healthy fetch (b ∷ bases) = count_ok (fetch (trim_slashes b)) (healthy fetch bases)

-- `waitHealthy` from a round on: the clock and what the servers answer, by the round. `none` is
-- no end within the fuel, `some false` is the error.
unfoldable pub wait_healthy : ℕ → (ℕ → ℕ) → (ℕ → Text → Option ℕ) → List Text → ℕ → ℕ → Option Bool
unfolding healthy
wait_healthy zero clock fetch bases deadline round = none
wait_healthy (suc fuel) clock fetch bases deadline round =
    let rest = wait_healthy fuel clock fetch bases deadline (round + 1) in
    if ltb (clock round) deadline
    then if healthy (fetch round) bases == length bases then some true else rest
    else some false
