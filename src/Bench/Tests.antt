-- ===== src/Bench/Tests.antt =====
-- Phases, percentiles and waits of the load generators at concrete inputs.
use ringcache.Base.{
  ℕ, suc, ◌+◌, ◌-◌, ◌*◌, ◌<◌, ◌≤◌, ◌≡◌, ◌⊎◌, refl, true, false, [], ◌∷◌, Option, none, some, arith,
  length, min, ltb, if◌then◌else◌,
}
use ringcache.Base.Int.{pos}
use ringcache.Bench.{
  Phase, returned, Step, takes, returns, succeeds, begin, Run, stop, step, AllReturned, percentiles,
  latency_at, healthy, wait_healthy, split_csv, parts_of, key_of,
}
use ringcache.Bench.Health.{AllHealthy, wait_healthy_lem}
use ringcache.Bench.Jobs.{
  Jobs, left, replied, offers, closes, receives, replies, leaves, Reach, begins, next,
}
use ringcache.Bench.Offered.{Reach-AllLeft}
use ringcache.Bench.Workers.{under_way, upto, run-AllReturned, run-Counted-begin, run-returned}
use ringcache.Go.Sort.{sort, insert}
use ringcache.Go.Split.{split}
use ringcache.Go.Text.{Text, text_dec, itoa}
use ringcache.Go.Trim.{trim_space, trim_slashes, trim_left, strip_any, strip}

program : Unit {0}
unfolding percentiles latency_at sort insert healthy wait_healthy split_csv parts_of split text_dec
    trim_space trim_slashes trim_left strip_any strip key_of itoa
program = tt

-- "u/, ,v"
split_two :
    split_csv (b'u' ∷ b'/' ∷ b',' ∷ b' ' ∷ b',' ∷ b'v' ∷ []) ≡ (b'u' ∷ []) ∷ (b'v' ∷ []) ∷ []
unfolding program
split_two = refl

key_of_7 : key_of 7 5 ≡ b'b' ∷ b'e' ∷ b'n' ∷ b'c' ∷ b'h' ∷ b':' ∷ b'2' ∷ []
unfolding program
key_of_7 = refl

-- One worker makes the only call, which takes 9, and returns.
one_call :
    Run 1 3
      (begin 1)
      (record { idx = 2; workers = returned ∷ []; calls = 0 ∷ []; lats = 9 ∷ []; errs = 0 })
one_call =
    step (step (step stop (takes [] [] refl (omega arith))) (succeeds [] [] 0 9 refl))
      (returns [] [] refl (omega arith))

abbrev ended : Phase
ended = record { idx = 2; workers = returned ∷ []; calls = 0 ∷ []; lats = 9 ∷ []; errs = 0 }

run-AllReturned_example :
    (3 ≤ 2 * 1 + 1) × (AllReturned ended.workers ⊎ ((u : Phase) × Step 1 ended u))
run-AllReturned_example = run-AllReturned 1 1 3 ended one_call

run-Counted-begin_example :
    (ended.calls ≡ upto (min ended.idx 1))
    × (under_way ended.workers + length ended.lats + ended.errs ≡ min ended.idx 1)
run-Counted-begin_example = run-Counted-begin 1 1 3 ended one_call

run-returned_example :
    (ended.calls ≡ upto 1) × (length ended.lats + ended.errs ≡ 1) × (3 ≡ 2 * 1 + 1)
run-returned_example = run-returned 1 1 3 ended (omega arith) one_call (refl, tt)

percentiles_run : percentiles (λ m. pos 1) (λ m. pos m) (7 ∷ 3 ∷ 9 ∷ []) ≡ some (7, 9)
unfolding program
percentiles_run = refl

-- The server answers from the third round on.
abbrev late : ℕ → Text → Option ℕ
late round url = if ltb round 2 then none else some 200

wait_healthy_lem_example :
    ((wait_healthy (suc (50 - 0)) (λ i. 10 * i) late ((b'u' ∷ []) ∷ []) 50 0 ≡ some true)
      × ((r : ℕ) × (10 * r < 50) × AllHealthy (late r) ((b'u' ∷ []) ∷ [])))
    ⊎ ((wait_healthy (suc (50 - 0)) (λ i. 10 * i) late ((b'u' ∷ []) ∷ []) 50 0 ≡ some false)
        × ((r : ℕ) → 10 * r < 50 → ¬ AllHealthy (late r) ((b'u' ∷ []) ∷ [])))
wait_healthy_lem_example =
    wait_healthy_lem (λ i. 10 * i) late ((b'u' ∷ []) ∷ []) 50 (λ i. omega arith)

-- One worker and one tick, whose request is answered with 429 after 5.
abbrev one_job : Jobs
one_job = record {
  queued = 0;
  closed = true;
  senders = left ∷ [];
  allowed = 0;
  denied = 1;
  lats = 5 ∷ [];
  ticks = 1;
  dropped = 0;
  errors = 0;
}

one_job_runs : Reach 1 one_job
unfolding replied
one_job_runs =
    next
      (next
        (next (next (next begins (offers refl (omega arith))) (closes refl))
          (receives [] [] refl (omega arith)))
        (replies [] [] 5 429 refl))
      (leaves [] [] refl refl refl)

Reach-AllLeft_example :
    (one_job.closed ≡ true)
    × (one_job.queued ≡ 0)
    × (one_job.ticks ≡ one_job.dropped + length one_job.lats + one_job.errors)
Reach-AllLeft_example = Reach-AllLeft 1 one_job (omega arith) one_job_runs (refl, tt)
