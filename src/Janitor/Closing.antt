-- ===== src/Janitor/Closing.antt =====
-- What `Close` of both stores promises: the goroutine has ended, and it is safe to call twice.
use ringcache.Base.{
  ℕ, zero, suc, ◌≤◌, inr, ◌+◌, ◌<◌, ◌≡◌, refl, sym, ◌∙◌, ap, Bool, true, false, List, [], ◌∷◌, ◌++◌,
  arith, ◌⊎◌, inl,
}
use ringcache.Janitor.{
  Closer, calls, awaits, closed, Once, unused, busy, over, Shop, Step, sweeps, quits, uses, enters,
  finishes, passes, Run, stop, step, all_call, opened,
}

-- How many callers wait for the goroutine to end, and how many are back.
unfoldable pub waiting : List Closer → ℕ
waiting [] = 0
waiting (calls ∷ cs) = waiting cs
waiting (awaits ∷ cs) = suc (waiting cs)
waiting (closed ∷ cs) = waiting cs

unfoldable pub done : List Closer → ℕ
done [] = 0
done (calls ∷ cs) = done cs
done (awaits ∷ cs) = done cs
done (closed ∷ cs) = suc (done cs)

pub waiting-append : (cs ds : List Closer) → waiting (cs ++ ds) ≡ waiting cs + waiting ds
unfolding waiting
waiting-append [] ds = omega arith
waiting-append (calls ∷ cs) ds = waiting-append cs ds
waiting-append (awaits ∷ cs) ds = omega (arith, waiting-append cs ds)
waiting-append (closed ∷ cs) ds = waiting-append cs ds

done-append : (cs ds : List Closer) → done (cs ++ ds) ≡ done cs + done ds
unfolding done
done-append [] ds = omega arith
done-append (calls ∷ cs) ds = done-append cs ds
done-append (awaits ∷ cs) ds = done-append cs ds
done-append (closed ∷ cs) ds = omega (arith, done-append cs ds)

-- How `closeOnce`, the channels and the numbers of callers that wait and that are back hang
-- together.
abbrev pub Fits : Once → ℕ → Bool → ℕ → ℕ → Type 0
Fits unused stops stopped w d = (stops ≡ 0) × (stopped ≡ false) × (w ≡ 0) × (d ≡ 0)
Fits busy stops stopped w d = (stops ≡ 1) × (w ≡ 1) × (d ≡ 0)
Fits over stops stopped w d = (stops ≡ 1) × (stopped ≡ true) × (w ≡ 0)

Fits-quits : (o : Once) (n w d : ℕ) (b : Bool) → Fits o n b w d → 0 < n → Fits o n true w d
Fits-quits unused n w d b f h = absurd (omega (arith, f.0, h))
Fits-quits busy n w d b f h = f
Fits-quits over n w d b f h = (f.0, refl, f.2)

Fits-enters :
    (o : Once) (n w d v c : ℕ) (b : Bool)
    → Fits o n b w d
    → o ≡ unused
    → v ≡ suc w
    → c ≡ d
    → Fits busy (n + 1) b v c
Fits-enters unused n w d v c b f h e g =
    let (stops, stopped, none_waits, none_back) = f in
    (omega (arith, stops), omega (arith, e, none_waits), omega (arith, g, none_back))
Fits-enters busy n w d v c b f h e g = absurd (ground arith)
Fits-enters over n w d v c b f h e g = absurd (ground arith)

Fits-finishes :
    (o : Once) (n w d v c : ℕ) (b : Bool)
    → Fits o n b w d
    → b ≡ true
    → w ≡ suc v
    → Fits over n b v c
Fits-finishes unused n w d v c b f h e = absurd (omega (arith, f.2, e))
Fits-finishes busy n w d v c b f h e = (f.0, h, omega (arith, f.1, e))
Fits-finishes over n w d v c b f h e = absurd (omega (arith, f.2, e))

Fits-passes :
    (o : Once) (n w d v c : ℕ) (b : Bool) → Fits o n b w d → o ≡ over → v ≡ w → Fits o n b v c
Fits-passes unused n w d v c b f h e = absurd (ground arith)
Fits-passes busy n w d v c b f h e = absurd (ground arith)
Fits-passes over n w d v c b f h e = (f.0, f.1, e ∙ f.2)

module _ {ℓ} {S : Type ℓ} where
  pub record IsOrderly (s : Shop S) : Type ℓ where
    pub fits : Fits s.once s.stops s.stopped (waiting s.closers) (done s.closers)
    pub ended : (s.stopped ≡ true) ⊎ (s.running ≡ true)
    pub alone : s.stopped ≡ true → s.running ≡ false

module _ {ℓ} {S : Type ℓ} (sweep : S → ℕ → S) where
  pub Step-IsOrderly : {s t : Shop S} → Step sweep s t → IsOrderly s → IsOrderly t
  unfolding waiting done
  Step-IsOrderly (sweeps {s} now h) i = record { fits = i.fits; ended = i.ended; alone = i.alone }
  Step-IsOrderly (uses {s} op) i = record { fits = i.fits; ended = i.ended; alone = i.alone }
  Step-IsOrderly (quits {s} h some) i = record {
    fits = Fits-quits s.once s.stops (waiting s.closers) (done s.closers) s.stopped i.fits some;
    ended = inl refl;
    alone = λ e. refl;
  }
  Step-IsOrderly (enters {s} before behind e h) i =
      let w = ap waiting e ∙ waiting-append before (calls ∷ behind) in
      let w' = waiting-append before (awaits ∷ behind) in
      let d = ap done e ∙ done-append before (calls ∷ behind) in
      let d' = done-append before (awaits ∷ behind) in
      record {
        fits =
            Fits-enters s.once s.stops (waiting s.closers) (done s.closers) _ _ s.stopped i.fits h
              (omega (arith, w, w')) (d' ∙ sym d);
        ended = i.ended;
        alone = i.alone;
      }
  Step-IsOrderly (finishes {s} before behind e h) i =
      let w = ap waiting e ∙ waiting-append before (awaits ∷ behind) in
      let w' = waiting-append before (closed ∷ behind) in
      record {
        fits =
            Fits-finishes s.once s.stops (waiting s.closers) (done s.closers)
              (waiting (before ++ closed ∷ behind)) (done (before ++ closed ∷ behind)) s.stopped
              i.fits h (omega (arith, w, w'));
        ended = i.ended;
        alone = i.alone;
      }
  Step-IsOrderly (passes {s} before behind e h) i =
      let w = ap waiting e ∙ waiting-append before (calls ∷ behind) in
      let w' = waiting-append before (closed ∷ behind) in
      record {
        fits =
            Fits-passes s.once s.stops (waiting s.closers) (done s.closers) _ _ s.stopped i.fits h
              (w' ∙ sym w);
        ended = i.ended;
        alone = i.alone;
      }

  pub Run-IsOrderly : {k : ℕ} {s t : Shop S} → Run sweep k s t → IsOrderly s → IsOrderly t
  Run-IsOrderly stop i = i
  Run-IsOrderly (step r x) i = Step-IsOrderly x (Run-IsOrderly r i)

  waiting-all_call : (n : ℕ) → waiting (all_call n) ≡ 0
  unfolding waiting
  waiting-all_call zero = refl
  waiting-all_call (suc n) = waiting-all_call n

  done-all_call : (n : ℕ) → done (all_call n) ≡ 0
  unfolding done
  done-all_call zero = refl
  done-all_call (suc n) = done-all_call n

  pub opened-IsOrderly : (s : S) (n k : ℕ) (t : Shop S) → Run sweep k (opened s n) t → IsOrderly t
  opened-IsOrderly s n k t r = Run-IsOrderly r (record {
    fits = (refl, refl, waiting-all_call n, done-all_call n);
    ended = inr refl;
    alone = λ e. absurd (ground arith);
  })

  stops_once : (o : Once) (n w d : ℕ) (b : Bool) → Fits o n b w d → n ≤ 1
  stops_once unused n w d b f = omega (arith, f.0)
  stops_once busy n w d b f = omega (arith, f.0)
  stops_once over n w d b f = omega (arith, f.0)

  stopped_before_back : (o : Once) (n w d : ℕ) (b : Bool) → Fits o n b w d → 0 < d → b ≡ true
  stopped_before_back unused n w d b f h = absurd (omega (arith, f.3, h))
  stopped_before_back busy n w d b f h = absurd (omega (arith, f.2, h))
  stopped_before_back over n w d b f h = f.1

  Step-ended :
      {s t : Shop S}
      → Step sweep s t
      → s.running ≡ false
      → (t.running ≡ false) × (t.swept ≡ s.swept)
  Step-ended (sweeps {s} now e) h = absurd (ground arith)
  Step-ended (quits {s} e some) h = (refl, refl)
  Step-ended (uses {s} op) h = (h, refl)
  Step-ended (enters {s} before behind e o) h = (h, refl)
  Step-ended (finishes {s} before behind e o) h = (h, refl)
  Step-ended (passes {s} before behind e o) h = (h, refl)

  -- The goroutine does not run again, and the store is not swept any more.
  Run-ended :
      {k : ℕ} {s t : Shop S}
      → Run sweep k s t
      → s.running ≡ false
      → (t.running ≡ false) × (t.swept ≡ s.swept)
  Run-ended stop h = (h, refl)
  Run-ended (step r x) h =
      let (e, same) = Run-ended r h in let (e', same') = Step-ended x e in (e', same' ∙ same)

  -- However many goroutines call `Close` on a store, and whatever else is done with it, the
  -- channel `stop` is closed once at most, so that no call panics; and once any of the calls has
  -- returned the janitor has ended, and no sweep follows.
  pub Run-closed :
      (s : S) (n k j : ℕ) (t u : Shop S)
      → Run sweep k (opened s n) t
      → Run sweep j t u
      → (u.stops ≤ 1)
        × (0 < done t.closers → (t.running ≡ false) × (u.running ≡ false) × (u.swept ≡ t.swept))
  Run-closed s n k j t u r q =
      let i = opened-IsOrderly s n k t r in
      let i' = Run-IsOrderly q i in
      (
        stops_once u.once u.stops (waiting u.closers) (done u.closers) u.stopped i'.fits,
        λ back.
            let e = i.alone (
              stopped_before_back t.once t.stops (waiting t.closers) (done t.closers) t.stopped
                i.fits back) in
            let (e', same) = Run-ended q e in (e, e', same),
      )
