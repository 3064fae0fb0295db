-- ===== src/Bench/Workers.antt =====
-- A phase of cmd/bench/main.go, whichever worker takes the next step.
use ringcache.Base.{
  ℕ, zero, suc, ◌+◌, ◌-◌, ◌*◌, ◌<◌, ◌≤◌, ◌≡◌, ◌≢◌, ◌⊎◌, inl, inr, refl, sym, ◌∙◌, ap, List, [], ◌∷◌,
  ◌++◌, arith, length, length-append, min, ltb, Bool-cases,
}
use ringcache.Bench.{
  Worker, ready, calling, returned, Phase, Step, takes, returns, succeeds, fails, all_ready, begin,
  Run, stop, step, AllReturned,
}

-- How many calls are under way.
unfoldable pub under_way : List Worker → ℕ
under_way [] = 0
under_way (ready ∷ ws) = under_way ws
under_way (calling i ∷ ws) = suc (under_way ws)
under_way (returned ∷ ws) = under_way ws

-- How many workers have returned.
unfoldable pub ended : List Worker → ℕ
ended [] = 0
ended (ready ∷ ws) = ended ws
ended (calling i ∷ ws) = ended ws
ended (returned ∷ ws) = suc (ended ws)

-- The steps that the workers still have to take, beyond those for indices that are left.
unfoldable to_do : List Worker → ℕ
to_do [] = 0
to_do (ready ∷ ws) = 1 + to_do ws
to_do (calling i ∷ ws) = 2 + to_do ws
to_do (returned ∷ ws) = to_do ws

-- 0, 1, ... up to `n`.
unfoldable pub upto : ℕ → List ℕ
upto zero = []
upto (suc n) = upto n ++ n ∷ []

under_way-append : (ws vs : List Worker) → under_way (ws ++ vs) ≡ under_way ws + under_way vs
unfolding under_way
under_way-append [] vs = omega arith
under_way-append (ready ∷ ws) vs = under_way-append ws vs
under_way-append (calling i ∷ ws) vs = omega (arith, under_way-append ws vs)
under_way-append (returned ∷ ws) vs = under_way-append ws vs

ended-append : (ws vs : List Worker) → ended (ws ++ vs) ≡ ended ws + ended vs
unfolding ended
ended-append [] vs = omega arith
ended-append (ready ∷ ws) vs = ended-append ws vs
ended-append (calling i ∷ ws) vs = ended-append ws vs
ended-append (returned ∷ ws) vs = omega (arith, ended-append ws vs)

to_do-append : (ws vs : List Worker) → to_do (ws ++ vs) ≡ to_do ws + to_do vs
unfolding to_do
to_do-append [] vs = omega arith
to_do-append (ready ∷ ws) vs = omega (arith, to_do-append ws vs)
to_do-append (calling i ∷ ws) vs = omega (arith, to_do-append ws vs)
to_do-append (returned ∷ ws) vs = to_do-append ws vs

-- The indices below the counter and below `n` have each been called once, in order, and each
-- call is under way, has its latency or is counted as an error.
pub record Counted (n : ℕ) (s : Phase) : Type 0 where
  pub in_order : s.calls ≡ upto (min s.idx n)
  pub accounted : under_way s.workers + length s.lats + s.errs ≡ min s.idx n
  pub left : 0 < ended s.workers → n ≤ s.idx

-- What is left of the run.
unfoldable measure : ℕ → Phase → ℕ
unfolding to_do
measure n s = 2 * (n - s.idx) + to_do s.workers

taken_in_order :
    (n idx : ℕ) (calls : List ℕ)
    → idx < n
    → calls ≡ upto (min idx n)
    → calls ++ idx ∷ [] ≡ upto (min (idx + 1) n)
unfolding upto
taken_in_order n idx calls h e =
    let now : min idx n ≡ idx = omega arith in
    let next : min (idx + 1) n ≡ suc idx = omega arith in
    ap (λ cs. cs ++ idx ∷ []) (e ∙ ap upto now) ∙ sym (ap upto next)

Step-Counted : (n : ℕ) {s t : Phase} → Step n s t → Counted n s → Counted n t
unfolding under_way ended
Step-Counted n (takes {s} before behind e h) c =
    let u = under_way-append before (calling s.idx ∷ behind) in
    let u' = ap under_way e ∙ under_way-append before (ready ∷ behind) in
    let r = ended-append before (calling s.idx ∷ behind) in
    let r' = ap ended e ∙ ended-append before (ready ∷ behind) in
    record {
      in_order = taken_in_order n s.idx s.calls h c.in_order;
      accounted = omega (arith, c.accounted, u, u');
      left = λ some_ended. omega (arith, c.left (omega (arith, some_ended, r, r')));
    }
Step-Counted n (returns {s} before behind e h) c =
    let u = under_way-append before (returned ∷ behind) in
    let u' = ap under_way e ∙ under_way-append before (ready ∷ behind) in
    record {
      in_order = c.in_order ∙ ap upto (omega arith);
      accounted = omega (arith, c.accounted, u, u');
      left = λ some_ended. omega arith;
    }
Step-Counted n (succeeds {s} before behind i dt e) c =
    let u = under_way-append before (ready ∷ behind) in
    let u' = ap under_way e ∙ under_way-append before (calling i ∷ behind) in
    let r = ended-append before (ready ∷ behind) in
    let r' = ap ended e ∙ ended-append before (calling i ∷ behind) in
    record {
      in_order = c.in_order;
      accounted = omega (arith, c.accounted, u, u', length-append s.lats (dt ∷ []));
      left = λ some_ended. c.left (omega (arith, some_ended, r, r'));
    }
Step-Counted n (fails {s} before behind i e) c =
    let u = under_way-append before (ready ∷ behind) in
    let u' = ap under_way e ∙ under_way-append before (calling i ∷ behind) in
    let r = ended-append before (ready ∷ behind) in
    let r' = ap ended e ∙ ended-append before (calling i ∷ behind) in
    record {
      in_order = c.in_order;
      accounted = omega (arith, c.accounted, u, u');
      left = λ some_ended. c.left (omega (arith, some_ended, r, r'));
    }

-- Each step brings the end one step nearer.
Step-measure : (n : ℕ) {s t : Phase} → Step n s t → suc (measure n t) ≡ measure n s
unfolding measure to_do
Step-measure n (takes {s} before behind e h) = omega (
  arith,
  ap to_do e,
  to_do-append before (ready ∷ behind),
  to_do-append before (calling s.idx ∷ behind),
)
Step-measure n (returns {s} before behind e h) = omega (
  arith,
  ap to_do e,
  to_do-append before (ready ∷ behind),
  to_do-append before (returned ∷ behind),
)
Step-measure n (succeeds {s} before behind i dt e) = omega (
  arith,
  ap to_do e,
  to_do-append before (calling i ∷ behind),
  to_do-append before (ready ∷ behind),
)
Step-measure n (fails {s} before behind i e) = omega (
  arith,
  ap to_do e,
  to_do-append before (calling i ∷ behind),
  to_do-append before (ready ∷ behind),
)

under_way-all_ready : (conc : ℕ) → under_way (all_ready conc) ≡ 0
unfolding under_way
under_way-all_ready zero = refl
under_way-all_ready (suc conc) = under_way-all_ready conc

ended-all_ready : (conc : ℕ) → ended (all_ready conc) ≡ 0
unfolding ended
ended-all_ready zero = refl
ended-all_ready (suc conc) = ended-all_ready conc

to_do-all_ready : (conc : ℕ) → to_do (all_ready conc) ≡ conc
unfolding to_do
to_do-all_ready zero = refl
to_do-all_ready (suc conc) = omega (arith, to_do-all_ready conc)

length-all_ready : (conc : ℕ) → length (all_ready conc) ≡ conc
length-all_ready zero = refl
length-all_ready (suc conc) = ap suc (length-all_ready conc)

begin-Counted : (n conc : ℕ) → Counted n (begin conc)
unfolding upto
begin-Counted n conc = record {
  in_order = let none_yet : 0 ≡ min 0 n = omega arith in ap upto none_yet;
  accounted = omega (arith, under_way-all_ready conc);
  left = λ some_ended. absurd (omega (arith, some_ended, ended-all_ready conc));
}

run-Counted : (n : ℕ) {k : ℕ} {s t : Phase} → Run n k s t → Counted n s → Counted n t
run-Counted n stop c = c
run-Counted n (step r x) c = Step-Counted n x (run-Counted n r c)

run-measure : (n : ℕ) {k : ℕ} {s t : Phase} → Run n k s t → k + measure n t ≡ measure n s
run-measure n stop = omega arith
run-measure n (step r x) = omega (arith, run-measure n r, Step-measure n x)

swapped :
    (before behind : List Worker) (v w : Worker) (ws : List Worker)
    → ws ≡ before ++ v ∷ behind
    → length (before ++ w ∷ behind) ≡ length ws
swapped before behind v w ws e =
    omega (arith, ap length e, length-append before (v ∷ behind), length-append before (w ∷ behind))

Step-workers : (n : ℕ) {s t : Phase} → Step n s t → length t.workers ≡ length s.workers
Step-workers n (takes {s} before behind e h) =
    swapped before behind ready (calling s.idx) s.workers e
Step-workers n (returns {s} before behind e h) = swapped before behind ready returned s.workers e
Step-workers n (succeeds {s} before behind i dt e) =
    swapped before behind (calling i) ready s.workers e
Step-workers n (fails {s} before behind i e) = swapped before behind (calling i) ready s.workers e

run-workers : (n : ℕ) {k : ℕ} {s t : Phase} → Run n k s t → length t.workers ≡ length s.workers
run-workers n stop = refl
run-workers n (step r x) = Step-workers n x ∙ run-workers n r

AllReturned-counts :
    (ws : List Worker)
    → AllReturned ws
    → (ended ws ≡ length ws) × (under_way ws ≡ 0) × (to_do ws ≡ 0)
unfolding ended under_way to_do
AllReturned-counts [] h = (refl, refl, refl)
AllReturned-counts (ready ∷ ws) h = absurd (no_worker h.0)
  where
    no_worker : ready ≡ returned → ⊥
    no_worker e = cc
AllReturned-counts (calling i ∷ ws) h = absurd (no_worker h.0)
  where
    no_worker : calling i ≡ returned → ⊥
    no_worker e = cc
AllReturned-counts (returned ∷ ws) h = let (e, u, d) = AllReturned-counts ws h.1 in (ap suc e, u, d)

-- The workers have all returned, or one of them has not.
next_worker :
    (ws : List Worker)
    → AllReturned ws
      ⊎ ((before : List Worker) × (w : Worker) × (behind : List Worker) × (ws
            ≡ before ++ w ∷ behind)
          × (w ≢ returned))
next_worker [] = inl tt
next_worker (ready ∷ ws) = inr ([], ready, ws, refl, λ e. cc)
next_worker (calling i ∷ ws) = inr ([], calling i, ws, refl, λ e. cc)
next_worker (returned ∷ ws) = elim (next_worker ws) [
  | inl h ↦ inl (refl, h)
  | inr (before, w, behind, e, active) ↦
      inr (returned ∷ before, w, behind, ap (◌∷◌ returned) e, active)
]

worker_steps :
    (n : ℕ) (s : Phase) (before : List Worker) (w : Worker) (behind : List Worker)
    → s.workers ≡ before ++ w ∷ behind
    → w ≢ returned
    → (t : Phase) × Step n s t
worker_steps n s before ready behind e active = elim (Bool-cases (ltb s.idx n)) [
  | inl h ↦ (_, takes before behind e (ground arith))
  | inr h ↦ (_, returns before behind e (ground arith))
]
worker_steps n s before (calling i) behind e active = (_, fails before behind i e)
worker_steps n s before returned behind e active = absurd (active refl)

-- A phase of `n` calls ends, whichever worker takes the next step: a run of it has at most
-- `2 * n + conc` steps, and until all the workers have returned one of them can take a step.
pub run-AllReturned :
    (n conc k : ℕ) (t : Phase)
    → Run n k (begin conc) t
    → (k ≤ 2 * n + conc) × (AllReturned t.workers ⊎ ((u : Phase) × Step n t u))
unfolding measure
run-AllReturned n conc k t r = (
  omega (arith, run-measure n r, to_do-all_ready conc),
  elim (next_worker t.workers) [
    | inl h ↦ inl h
    | inr (before, w, behind, e, active) ↦ inr (worker_steps n t before w behind e active)
  ],
)

-- At every moment of a phase the indices below the counter, up to `n`, have been called, each
-- once and in order, and each call is under way, has its latency or is counted as an error.
pub run-Counted-begin :
    (n conc k : ℕ) (t : Phase)
    → Run n k (begin conc) t
    → (t.calls ≡ upto (min t.idx n)) × (under_way t.workers + length t.lats + t.errs ≡ min t.idx n)
run-Counted-begin n conc k t r =
    let c = run-Counted n r (begin-Counted n conc) in (c.in_order, c.accounted)

-- When the workers of a phase have all returned, and there was one, each index below `n` has
-- been called once, the latencies and the errors add up to `n`, and the workers have taken
-- exactly `2 * n + conc` steps.
pub run-returned :
    (n conc k : ℕ) (t : Phase)
    → 0 < conc
    → Run n k (begin conc) t
    → AllReturned t.workers
    → (t.calls ≡ upto n) × (length t.lats + t.errs ≡ n) × (k ≡ 2 * n + conc)
unfolding measure
run-returned n conc k t some_worker r all =
    let c = run-Counted n r (begin-Counted n conc) in
    let (e, u, d) = AllReturned-counts t.workers all in
    let size = run-workers n r ∙ length-all_ready conc in
    let past : n ≤ t.idx = c.left (omega (arith, e, size)) in
    let last : min t.idx n ≡ n = omega (arith, past) in
    (
      c.in_order ∙ ap upto last,
      omega (arith, c.accounted, u, last),
      omega (arith, run-measure n r, to_do-all_ready conc, d, past),
    )
