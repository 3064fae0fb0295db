-- ===== src/Bench/Offered.antt =====
-- What becomes of the jobs that cmd/ratebench/main.go offers.
use ringcache.Base.{
  ℕ, zero, suc, ◌+◌, ◌<◌, ◌≤◌, ◌≡◌, refl, ◌∙◌, ap, true, List, [], ◌∷◌, ◌++◌, arith, length,
  length-append,
}
use ringcache.Bench.Jobs.{
  Sender, waiting, sending, left, Jobs, backlog, replied, Step, offers, drops, closes, receives,
  replies, fails, leaves, all_waiting, Reach, begins, next, AllLeft,
}

-- How many requests are under way, and how many workers have left.
unfoldable pub in_flight : List Sender → ℕ
in_flight [] = 0
in_flight (waiting ∷ ws) = in_flight ws
in_flight (sending ∷ ws) = suc (in_flight ws)
in_flight (left ∷ ws) = in_flight ws

unfoldable pub gone : List Sender → ℕ
gone [] = 0
gone (waiting ∷ ws) = gone ws
gone (sending ∷ ws) = gone ws
gone (left ∷ ws) = suc (gone ws)

in_flight-append : (ws vs : List Sender) → in_flight (ws ++ vs) ≡ in_flight ws + in_flight vs
unfolding in_flight
in_flight-append [] vs = omega arith
in_flight-append (waiting ∷ ws) vs = in_flight-append ws vs
in_flight-append (sending ∷ ws) vs = omega (arith, in_flight-append ws vs)
in_flight-append (left ∷ ws) vs = in_flight-append ws vs

gone-append : (ws vs : List Sender) → gone (ws ++ vs) ≡ gone ws + gone vs
unfolding gone
gone-append [] vs = omega arith
gone-append (waiting ∷ ws) vs = gone-append ws vs
gone-append (sending ∷ ws) vs = gone-append ws vs
gone-append (left ∷ ws) vs = omega (arith, gone-append ws vs)

pub record Accounted (s : Jobs) : Type 0 where
  pub within : s.queued ≤ backlog
  pub kept : s.ticks ≡ s.dropped + s.queued + in_flight s.senders + length s.lats + s.errors
  pub answered : s.allowed + s.denied ≤ length s.lats
  pub drained : 0 < gone s.senders → (s.closed ≡ true) × (s.queued ≡ 0)

replied-counts :
    (s : Jobs) (dt status : ℕ)
    → s.allowed + s.denied ≤ length s.lats
    → ((replied s dt status).allowed + (replied s dt status).denied
        ≤ length (replied s dt status).lats)
      × (length (replied s dt status).lats ≡ suc (length s.lats))
unfolding replied
replied-counts s dt status h =
    let more = length-append s.lats (dt ∷ []) in (ground (arith, more, h), omega (arith, more))

Step-Accounted : {s t : Jobs} → Step s t → Accounted s → Accounted t
unfolding in_flight gone replied
Step-Accounted (offers {s} opened room) a = record {
  within = omega arith;
  kept = omega (arith, a.kept);
  answered = a.answered;
  drained = λ some_gone. absurd (ground (arith, a.drained some_gone));
}
Step-Accounted (drops {s} opened full) a = record {
  within = a.within;
  kept = omega (arith, a.kept);
  answered = a.answered;
  drained = a.drained;
}
Step-Accounted (closes {s} opened) a = record {
  within = a.within;
  kept = a.kept;
  answered = a.answered;
  drained = λ some_gone. (refl, (a.drained some_gone).1);
}
Step-Accounted (receives {s} before behind e job) a =
    let f = ap in_flight e ∙ in_flight-append before (waiting ∷ behind) in
    let f' = in_flight-append before (sending ∷ behind) in
    let g = ap gone e ∙ gone-append before (waiting ∷ behind) in
    let g' = gone-append before (sending ∷ behind) in
    record {
      within = omega (arith, a.within);
      kept = omega (arith, a.kept, f, f');
      answered = a.answered;
      drained =
          λ some_gone. absurd (omega (arith, (a.drained (omega (arith, some_gone, g, g'))).1));
    }
Step-Accounted (replies {s} before behind dt status e) a =
    let f = ap in_flight e ∙ in_flight-append before (sending ∷ behind) in
    let f' = in_flight-append before (waiting ∷ behind) in
    let g = ap gone e ∙ gone-append before (sending ∷ behind) in
    let g' = gone-append before (waiting ∷ behind) in
    let (counts, more) = replied-counts s dt status a.answered in
    record {
      within = a.within;
      kept = omega (arith, a.kept, f, f', more);
      answered = counts;
      drained = λ some_gone. a.drained (omega (arith, some_gone, g, g'));
    }
Step-Accounted (fails {s} before behind e) a =
    let f = ap in_flight e ∙ in_flight-append before (sending ∷ behind) in
    let f' = in_flight-append before (waiting ∷ behind) in
    let g = ap gone e ∙ gone-append before (sending ∷ behind) in
    let g' = gone-append before (waiting ∷ behind) in
    record {
      within = a.within;
      kept = omega (arith, a.kept, f, f');
      answered = a.answered;
      drained = λ some_gone. a.drained (omega (arith, some_gone, g, g'));
    }
Step-Accounted (leaves {s} before behind e closed empty) a =
    let f = ap in_flight e ∙ in_flight-append before (waiting ∷ behind) in
    let f' = in_flight-append before (left ∷ behind) in
    record {
      within = a.within;
      kept = omega (arith, a.kept, f, f');
      answered = a.answered;
      drained = λ _. (closed, empty);
    }

start-counts : (n : ℕ) → (in_flight (all_waiting n) ≡ 0) × (gone (all_waiting n) ≡ 0)
unfolding in_flight gone
start-counts zero = (refl, refl)
start-counts (suc n) = start-counts n

Reach-Accounted : (workers : ℕ) {s : Jobs} → Reach workers s → Accounted s
Reach-Accounted workers begins =
    let (f, g) = start-counts workers in
    record {
      within = omega arith;
      kept = omega (arith, f);
      answered = omega arith;
      drained = λ some_gone. absurd (omega (arith, some_gone, g));
    }
Reach-Accounted workers (next r st) = Step-Accounted st (Reach-Accounted workers r)

swapped :
    (before behind : List Sender) (v w : Sender) (ws : List Sender)
    → ws ≡ before ++ v ∷ behind
    → length (before ++ w ∷ behind) ≡ length ws
swapped before behind v w ws e =
    omega (arith, ap length e, length-append before (v ∷ behind), length-append before (w ∷ behind))

Step-senders : {s t : Jobs} → Step s t → length t.senders ≡ length s.senders
Step-senders (offers opened room) = refl
Step-senders (drops opened full) = refl
Step-senders (closes opened) = refl
Step-senders (receives {s} before behind e job) = swapped before behind waiting sending s.senders e
Step-senders (replies {s} before behind dt status e) =
    swapped before behind sending waiting s.senders e
Step-senders (fails {s} before behind e) = swapped before behind sending waiting s.senders e
Step-senders (leaves {s} before behind e closed empty) =
    swapped before behind waiting left s.senders e

length-all_waiting : (n : ℕ) → length (all_waiting n) ≡ n
length-all_waiting zero = refl
length-all_waiting (suc n) = ap suc (length-all_waiting n)

Reach-senders : (workers : ℕ) {s : Jobs} → Reach workers s → length s.senders ≡ workers
Reach-senders workers begins = length-all_waiting workers
Reach-senders workers (next r st) = Step-senders st ∙ Reach-senders workers r

AllLeft-counts : (ws : List Sender) → AllLeft ws → (gone ws ≡ length ws) × (in_flight ws ≡ 0)
unfolding in_flight gone
AllLeft-counts [] h = (refl, refl)
AllLeft-counts (waiting ∷ ws) h = absurd (ground arith)
AllLeft-counts (sending ∷ ws) h = absurd (ground arith)
AllLeft-counts (left ∷ ws) h = let (g, f) = AllLeft-counts ws h.1 in (ap suc g, f)

-- At every moment of the phase at most 1024 jobs wait, each tick has been dropped or is a job
-- that waits, is under way, was answered or failed, and no answer counts both as allowed and as
-- denied.
pub Reach-jobs :
    (workers : ℕ) (s : Jobs)
    → Reach workers s
    → (s.queued ≤ backlog)
      × (s.ticks ≡ s.dropped + s.queued + in_flight s.senders + length s.lats + s.errors)
      × (s.allowed + s.denied ≤ length s.lats)
Reach-jobs workers s r = let a = Reach-Accounted workers r in (a.within, a.kept, a.answered)

-- When all the workers, one or more, have left, the channel was closed and is empty, and each
-- tick was dropped, answered or failed: no job is lost.
pub Reach-AllLeft :
    (workers : ℕ) (s : Jobs)
    → 0 < workers
    → Reach workers s
    → AllLeft s.senders
    → (s.closed ≡ true) × (s.queued ≡ 0) × (s.ticks ≡ s.dropped + length s.lats + s.errors)
Reach-AllLeft workers s some_worker r all =
    let a = Reach-Accounted workers r in
    let (g, f) = AllLeft-counts s.senders all in
    let (closed, empty) = a.drained (omega (arith, g, some_worker, Reach-senders workers r)) in
    (closed, empty, omega (arith, a.kept, f, empty))
