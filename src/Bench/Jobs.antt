-- ===== src/Bench/Jobs.antt =====
-- `runPhase` of cmd/ratebench/main.go: a producer that offers a job at each tick, and drops it
-- when the channel is full, and workers that send a request for each job. Any of them may take
-- the next step. `ticks` and `dropped` only count: the source has no variables for them.
use ringcache.Base.{
  ℕ, zero, suc, ◌+◌, ◌-◌, ◌<◌, ◌≤◌, ◌≡◌, Bool, true, false, List, [], ◌∷◌, ◌++◌, ◌==◌,
  if◌then◌else◌,
}

-- A worker waits for a job, has sent a request, or has left the loop.
pub data Sender : Type 0 where
  waiting : Sender
  sending : Sender
  left : Sender

-- The capacity of the channel `jobs`.
abbrev pub backlog : ℕ
backlog = 1024

pub record Jobs : Type 0 where
  pub queued : ℕ
  pub closed : Bool
  pub senders : List Sender
  pub allowed : ℕ
  pub denied : ℕ
  pub lats : List ℕ
  pub ticks : ℕ
  pub dropped : ℕ
  pub errors : ℕ

-- A reply with its latency and its status.
unfoldable pub replied : Jobs → ℕ → ℕ → Jobs
replied s dt status = record s {
  lats = s.lats ++ dt ∷ [];
  denied = if status == 429 then s.denied + 1 else s.denied;
  allowed = if status == 429 then s.allowed else if status == 200 then s.allowed + 1 else s.allowed;
}

pub data Step : Jobs → Jobs → Type 0 where
  offers :
      {s : Jobs}
      → s.closed ≡ false
      → s.queued < backlog
      → Step s (record s { queued = s.queued + 1; ticks = s.ticks + 1 })
  drops :
      {s : Jobs}
      → s.closed ≡ false
      → backlog ≤ s.queued
      → Step s (record s { ticks = s.ticks + 1; dropped = s.dropped + 1 })
  closes : {s : Jobs} → s.closed ≡ false → Step s (record s { closed = true })
  receives :
      {s : Jobs} (before behind : List Sender)
      → s.senders ≡ before ++ waiting ∷ behind
      → 0 < s.queued
      → Step s (record s { queued = s.queued - 1; senders = before ++ sending ∷ behind })
  replies :
      {s : Jobs} (before behind : List Sender) (dt status : ℕ)
      → s.senders ≡ before ++ sending ∷ behind
      → Step s (record (replied s dt status) { senders = before ++ waiting ∷ behind })
  fails :
      {s : Jobs} (before behind : List Sender)
      → s.senders ≡ before ++ sending ∷ behind
      → Step s (record s { senders = before ++ waiting ∷ behind; errors = s.errors + 1 })
  leaves :
      {s : Jobs} (before behind : List Sender)
      → s.senders ≡ before ++ waiting ∷ behind
      → s.closed ≡ true
      → s.queued ≡ 0
      → Step s (record s { senders = before ++ left ∷ behind })

abbrev pub all_waiting : ℕ → List Sender
all_waiting zero = []
all_waiting (suc n) = waiting ∷ all_waiting n

-- The phase before the first tick, with so many workers (128 in the source).
abbrev pub start : ℕ → Jobs
start workers = record {
  queued = 0;
  closed = false;
  senders = all_waiting workers;
  allowed = 0;
  denied = 0;
  lats = [];
  ticks = 0;
  dropped = 0;
  errors = 0;
}

pub data Reach (workers : ℕ) : Jobs → Type 0 where
  begins : Reach workers (start workers)
  next : {s t : Jobs} → Reach workers s → Step s t → Reach workers t

-- `workerWg.Wait` returns.
abbrev pub AllLeft : List Sender → Type 0
AllLeft [] = Unit
AllLeft (w ∷ ws) = (w ≡ left) × AllLeft ws
