-- ===== src/Janitor/Ending.antt =====
-- `Close` of both stores returns: from every state that can come about, the goroutine and the
-- callers can go on until each call is back.
use ringcache.Base.{
  ℕ, zero, suc, ◌+◌, ◌*◌, ◌<◌, ◌≤◌, ◌≡◌, refl, ap, Bool, true, false, List, [], ◌∷◌, ◌++◌, arith,
  ◌⊎◌, inl, inr,
}
use ringcache.Janitor.{
  Closer, calls, awaits, closed, Once, unused, busy, over, Shop, Step, sweeps, quits, uses, enters,
  finishes, passes, Run, stop, step, all_call, opened,
}
use ringcache.Janitor.Closing.{waiting, done, Fits, IsOrderly, Step-IsOrderly, opened-IsOrderly}

abbrev pub AllClosed : List Closer → Type 0
AllClosed [] = Unit
AllClosed (c ∷ cs) = (c ≡ closed) × AllClosed cs

-- A caller of this kind, with those before and behind it.
abbrev At : Closer → List Closer → Type 0
At c cs = (before : List Closer) × (behind : List Closer) × (cs ≡ before ++ c ∷ behind)

At-cons : (c d : Closer) (cs : List Closer) → At c cs → At c (d ∷ cs)
At-cons c d cs (before, behind, e) = (d ∷ before, behind, ap (◌∷◌ d) e)

find_waiting : (cs : List Closer) → 0 < waiting cs → At awaits cs
unfolding waiting
find_waiting [] h = absurd (omega arith)
find_waiting (calls ∷ cs) h = At-cons awaits calls cs (find_waiting cs h)
find_waiting (awaits ∷ cs) h = ([], cs, refl)
find_waiting (closed ∷ cs) h = At-cons awaits closed cs (find_waiting cs h)

find_call : (cs : List Closer) → waiting cs ≡ 0 → AllClosed cs ⊎ At calls cs
unfolding waiting
find_call [] h = inl tt
find_call (calls ∷ cs) h = inr ([], cs, refl)
find_call (awaits ∷ cs) h = absurd (omega arith)
find_call (closed ∷ cs) h = elim (find_call cs h) [
  | inl all ↦ inl (refl, all)
  | inr c ↦ inr (At-cons calls closed cs c)
]

-- The steps that callers have left.
unfoldable to_go : List Closer → ℕ
to_go [] = 0
to_go (calls ∷ cs) = 2 + to_go cs
to_go (awaits ∷ cs) = 1 + to_go cs
to_go (closed ∷ cs) = to_go cs

to_go-append : (cs ds : List Closer) → to_go (cs ++ ds) ≡ to_go cs + to_go ds
unfolding to_go
to_go-append [] ds = omega arith
to_go-append (calls ∷ cs) ds = omega (arith, to_go-append cs ds)
to_go-append (awaits ∷ cs) ds = omega (arith, to_go-append cs ds)
to_go-append (closed ∷ cs) ds = to_go-append cs ds

-- A caller that goes on has fewer steps left.
to_go-lt :
    (c d : Closer) (cs before behind : List Closer)
    → cs ≡ before ++ c ∷ behind
    → to_go (d ∷ []) < to_go (c ∷ [])
    → to_go (before ++ d ∷ behind) < to_go cs
to_go-lt c d cs before behind e h = omega (
  arith,
  h,
  ap to_go e,
  to_go-append before (c ∷ behind),
  to_go-append before (d ∷ behind),
  to_go-append (c ∷ []) behind,
  to_go-append (d ∷ []) behind,
)

to_go-all_call : (n : ℕ) → to_go (all_call n) ≡ 2 * n
unfolding to_go
to_go-all_call zero = omega arith
to_go-all_call (suc n) = omega (arith, to_go-all_call n)

unfoldable one_if : Bool → ℕ
one_if true = 1
one_if false = 0

module _ {ℓ} {S : Type ℓ} (sweep : S → ℕ → S) where
  abbrev measure : Shop S → ℕ
  measure s = to_go s.closers + one_if s.running

  Step-measure : {s t : Shop S} → Step sweep s t → measure t ≤ measure s
  unfolding to_go one_if
  Step-measure (sweeps {s} now h) = omega arith
  Step-measure (quits {s} h some) = omega arith
  Step-measure (uses {s} op) = omega arith
  Step-measure (enters {s} before behind e h) =
      omega (arith, to_go-lt calls awaits s.closers before behind e (omega arith))
  Step-measure (finishes {s} before behind e h) =
      omega (arith, to_go-lt awaits closed s.closers before behind e (omega arith))
  Step-measure (passes {s} before behind e h) =
      omega (arith, to_go-lt calls closed s.closers before behind e (omega arith))

  Run-measure : {k : ℕ} {s t : Shop S} → Run sweep k s t → measure t ≤ measure s
  Run-measure stop = omega arith
  Run-measure (step r x) = omega (arith, Run-measure r, Step-measure x)

  -- A step that brings the end nearer.
  Nearer : Shop S → Type ℓ
  Nearer s = (t : Shop S) × Step sweep s t × (measure t < measure s)

  Nearer-enters : (s : Shop S) → At calls s.closers → s.once ≡ unused → Nearer s
  unfolding to_go Nearer
  Nearer-enters s (before, behind, e) h = (
    _,
    enters before behind e h,
    omega (arith, to_go-lt calls awaits s.closers before behind e (omega arith)),
  )

  Nearer-finishes : (s : Shop S) → At awaits s.closers → s.stopped ≡ true → Nearer s
  unfolding to_go Nearer
  Nearer-finishes s (before, behind, e) h = (
    _,
    finishes before behind e h,
    omega (arith, to_go-lt awaits closed s.closers before behind e (omega arith)),
  )

  Nearer-passes : (s : Shop S) → At calls s.closers → s.once ≡ over → Nearer s
  unfolding to_go Nearer
  Nearer-passes s (before, behind, e) h = (
    _,
    passes before behind e h,
    omega (arith, to_go-lt calls closed s.closers before behind e (omega arith)),
  )

  Nearer-quits : (s : Shop S) → s.running ≡ true → 0 < s.stops → Nearer s
  unfolding one_if Nearer
  Nearer-quits s h some = (_, quits h some, omega (arith, ap one_if h))

  -- Every call is back, or some goroutine can go on.
  next_step :
      (s : Shop S) (o : Once)
      → s.once ≡ o
      → Fits o s.stops s.stopped (waiting s.closers) (done s.closers)
      → (s.stopped ≡ true) ⊎ (s.running ≡ true)
      → AllClosed s.closers ⊎ Nearer s
  next_step s unused e f g = elim (find_call s.closers f.2) [
    | inl all ↦ inl all
    | inr c ↦ inr (Nearer-enters s c e)
  ]
  next_step s busy e f (inl stopped) =
      inr (Nearer-finishes s (find_waiting s.closers (omega (arith, f.1))) stopped)
  next_step s busy e f (inr running) = inr (Nearer-quits s running (omega (arith, f.0)))
  next_step s over e f g = elim (find_call s.closers f.2) [
    | inl all ↦ inl all
    | inr c ↦ inr (Nearer-passes s c e)
  ]

  Run-cons : {k : ℕ} {s t u : Shop S} → Step sweep s t → Run sweep k t u → Run sweep (suc k) s u
  Run-cons x stop = step stop x
  Run-cons x (step r y) = step (Run-cons x r) y

  -- A run of at most so many steps to where each call is back.
  abbrev pub Returns : ℕ → Shop S → Type ℓ
  Returns bound s = (m : ℕ) × (u : Shop S) × (m ≤ bound) × Run sweep m s u × AllClosed u.closers

  Returns-later :
      (bound : ℕ) {s t : Shop S} → Step sweep s t → Returns bound t → Returns (suc bound) s
  Returns-later bound x (m, u, h, r, all) = (suc m, u, omega (arith, h), Run-cons x r, all)

  Returns-within : (bound : ℕ) (s : Shop S) → measure s ≤ bound → IsOrderly s → Returns bound s
  unfolding Nearer
  Returns-within zero s h i = elim (next_step s s.once refl i.fits i.ended) [
    | inl all ↦ (0, s, omega arith, stop, all)
    | inr (t, x, lt) ↦ absurd (omega (arith, h, lt))
  ]
  Returns-within (suc bound) s h i = elim (next_step s s.once refl i.fits i.ended) [
    | inl all ↦ (0, s, omega arith, stop, all)
    | inr (t, x, lt) ↦
        Returns-later bound x
          (Returns-within bound t (omega (arith, h, lt)) (Step-IsOrderly sweep x i))
  ]

  -- With `n` goroutines that call `Close` on a store, each call can return, whatever has happened
  -- before: at most `2 * n + 1` more steps of these goroutines and of the janitor are needed.
  pub Run-Returns :
      (s : S) (n k : ℕ) (t : Shop S) → Run sweep k (opened s n) t → Returns (2 * n + 1) t
  unfolding one_if
  Run-Returns s n k t r =
      Returns-within (2 * n + 1) t (omega (arith, Run-measure r, to_go-all_call n))
        (opened-IsOrderly sweep s n k t r)
