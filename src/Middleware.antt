-- ===== src/Middleware.antt =====
-- pkg/ratelimit/middleware.go: the client that asks the cluster, the decision of the middleware,
-- and the in-process cap on concurrent requests. `F` is float64, which is only passed on here.
pub mod FailOpen
pub mod Inflight
pub mod Handler
pub mod Held
pub mod Reply
mod Tests
use ringcache.Base.{
  ℕ, ◌+◌, ◌/◌, Bool, true, false, not, ◌&&◌, List, [], ◌∷◌, Option, none, some, leb, ◌==◌,
  if◌then◌else◌,
}
use ringcache.Base.Int.{ℤ, pos, pos_part, ltb_ℤ}
use ringcache.Go.Text.{Text}
use ringcache.Go.Trim.{trim_slashes}

pub record Decision (F : Type 0) : Type 0 where
  pub allowed : Bool
  pub remaining : F
  pub retry_after_ms : ℤ
  pub primary : Text
  pub served_by : Text

-- What comes back from a coordinator: no answer in time, or a status with the body, decoded if it
-- is a `Decision`.
pub data Answer (F : Type 0) : Type 0 where
  no_answer : Answer F
  answered : ℕ → Option (Decision F) → Answer F

-- The settings that decide; `addrs` is `none` without a client.
pub record Config : Type 0 where
  pub disabled : Bool
  pub dry_run : Bool
  pub max_in_flight : ℤ
  pub addrs : Option (List Text)

-- What the middleware does with a request: it serves it, or answers 429 because of the cap, or
-- 429 with the seconds of `Retry-After`.
pub data Outcome : Type 0 where
  served : Outcome
  too_many : Outcome
  limited : ℕ → Outcome

-- The milliseconds in seconds, rounded up, and 1 at least; exact below 2^53.
unfoldable pub retry_sec : ℤ → ℕ
retry_sec ms = let secs = (pos_part ms + 999) / 1000 in if secs == 0 then 1 else secs

-- The cap for a key with `count` requests in flight.
unfoldable pub over_cap : Config → ℕ → Bool
over_cap cfg count = ltb_ℤ (pos 0) cfg.max_in_flight && leb (pos_part cfg.max_in_flight) count

module _ {F : Type 0} where
  unfoldable pub usable : Answer F → Option (Decision F)
  usable no_answer = none
  usable (answered status body) = if status == 200 then body else none

  -- `Client.Take`: the addresses in turn until one gives a decision.
  unfoldable pub client_take : (Text → Answer F) → List Text → Option (Decision F)
  unfolding usable
  client_take send [] = none
  client_take send (addr ∷ addrs) = elim (usable (send (trim_slashes addr))) [
    | some d ↦ some d
    | none ↦ client_take send addrs
  ]

  unfoldable pub decide : Config → Option (Decision F) → Outcome
  unfolding retry_sec
  decide cfg none = served
  decide cfg (some d) =
      if d.allowed
      then served
      else if cfg.dry_run
      then served
      else limited (retry_sec d.retry_after_ms)

  -- A request, with the counter of failed decisions before and after it.
  unfoldable pub serve : Config → (Text → Answer F) → ℕ → ℕ → ℕ × Outcome
  unfolding decide over_cap client_take
  serve cfg send count fail_open =
      if cfg.disabled
      then (fail_open, served)
      else if over_cap cfg count && not cfg.dry_run
      then (fail_open, too_many)
      else elim cfg.addrs [
        | none ↦ (fail_open, served)
        | some addrs ↦
            let d = client_take send addrs in
            (elim d [ none ↦ fail_open + 1 | some _ ↦ fail_open ], decide cfg d)
      ]
