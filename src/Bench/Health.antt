-- ===== src/Bench/Health.antt =====
-- The wait of cmd/bench/main.go and cmd/ratebench/main.go for the servers to be healthy.
use ringcache.Base.{
  ℕ, zero, suc, ◌+◌, ◌-◌, ◌<◌, ◌≤◌, ◌≡◌, ◌⊎◌, inl, inr, refl, sym, ◌∙◌, ap, subst, ℕ_discrete, Bool,
  Bool-cases, true, false, List, [], ◌∷◌, Option, none, some, arith, All, length, ltb, ◌==◌,
}
use ringcache.Bench.{count_ok, healthy, wait_healthy}
use ringcache.Go.Text.{Text}
use ringcache.Go.Trim.{trim_slashes}

-- Every server answers `/health` with 200.
abbrev pub AllHealthy : (Text → Option ℕ) → List Text → Type 0
AllHealthy fetch = All (λ b. fetch (trim_slashes b) ≡ some 200)

count_ok-le : (o : Option ℕ) (rest : ℕ) → count_ok o rest ≤ suc rest
count_ok-le none rest = omega arith
count_ok-le (some status) rest = ground arith

count_ok-suc : (o : Option ℕ) (rest : ℕ) → count_ok o rest ≡ suc rest → o ≡ some 200
count_ok-suc none rest h = absurd (omega (arith, h))
count_ok-suc (some status) rest h = ground arith

healthy-le : (fetch : Text → Option ℕ) (bases : List Text) → healthy fetch bases ≤ length bases
unfolding healthy
healthy-le fetch [] = omega arith
healthy-le fetch (b ∷ bases) =
    omega
      (arith, healthy-le fetch bases, count_ok-le (fetch (trim_slashes b)) (healthy fetch bases))

healthy-AllHealthy :
    (fetch : Text → Option ℕ) (bases : List Text)
    → healthy fetch bases ≡ length bases
    → AllHealthy fetch bases
unfolding healthy
healthy-AllHealthy fetch [] h = tt
healthy-AllHealthy fetch (b ∷ bases) h =
    let most = healthy-le fetch bases in
    let one = count_ok-le (fetch (trim_slashes b)) (healthy fetch bases) in
    let rest : healthy fetch bases ≡ length bases = omega (arith, h, most, one) in
    (
      count_ok-suc (fetch (trim_slashes b)) (healthy fetch bases) (h ∙ ap suc (sym rest)),
      healthy-AllHealthy fetch bases rest,
    )

AllHealthy-healthy :
    (fetch : Text → Option ℕ) (bases : List Text)
    → AllHealthy fetch bases
    → healthy fetch bases ≡ length bases
unfolding healthy
AllHealthy-healthy fetch [] h = refl
AllHealthy-healthy fetch (b ∷ bases) h =
    ap (λ o. count_ok o (healthy fetch bases)) h.0
    ∙ omega (arith, AllHealthy-healthy fetch bases h.1)

clock_rises :
    (clock : ℕ → ℕ)
    → ((i : ℕ) → clock i < clock (i + 1))
    → (k i j : ℕ) → i + k ≡ j
    → clock i ≤ clock j
clock_rises clock h zero i j e = let same : i ≡ j = omega (arith, e) in rw (same) (omega arith)
clock_rises clock h (suc k) i j e =
    omega (arith, h i, clock_rises clock h k (i + 1) j (omega (arith, e)))

module _ (clock : ℕ → ℕ) (fetch : ℕ → Text → Option ℕ) (bases : List Text) (deadline : ℕ)
    (rises : (i : ℕ) → clock i < clock (i + 1)) where
  -- The wait ends well in a round in time where all are healthy, or there is no such round.
  abbrev Ends : Option Bool → ℕ → Type 0
  Ends o round =
      ((o ≡ some true)
        × ((r : ℕ) × (round ≤ r) × (clock r < deadline) × AllHealthy (fetch r) bases))
      ⊎ ((o ≡ some false)
          × ((r : ℕ) → round ≤ r → clock r < deadline → ¬ AllHealthy (fetch r) bases))

  wait_ends :
      (fuel round : ℕ)
      → deadline - clock round < fuel
      → Ends (wait_healthy fuel clock fetch bases deadline round) round
  unfolding wait_healthy
  wait_ends zero round h = absurd (omega (arith, h))
  wait_ends (suc fuel) round h = elim (Bool-cases (ltb (clock round) deadline)) [
    | inl early ↦
        let sooner : clock round < deadline = ground arith in
        elim (Bool-cases (healthy (fetch round) bases == length bases)) [
          | inl all ↦ inl (
            rw (early, wait_healthy, all, wait_healthy) refl,
            (round, omega arith, sooner, healthy-AllHealthy (fetch round) bases (ground arith)),
          )
          | inr some_ill ↦ elim (wait_ends fuel (round + 1) (omega (arith, rises round))) [
            | inl (e, found) ↦
                let (r, after, in_time, all) = found in
                inl (
                  rw (early, wait_healthy, some_ill, wait_healthy) e,
                  (r, omega arith, in_time, all),
                )
            | inr (e, never) ↦
                inr (rw (early, wait_healthy, some_ill, wait_healthy) e, not_yet some_ill never)
          ]
        ]
    | inr late ↦ inr (
      rw (late, wait_healthy) refl,
      λ r after in_time _.
          absurd (ground (arith, clock_rises clock rises (r - round) round r (omega arith))),
    )
  ]
    where
      not_yet :
          healthy (fetch round) bases == length bases ≡ false
          → ((r : ℕ) → round + 1 ≤ r → clock r < deadline → ¬ AllHealthy (fetch r) bases)
          → (r : ℕ) → round ≤ r
          → clock r < deadline
          → ¬ AllHealthy (fetch r) bases
      not_yet some_ill never r after in_time all = elim (ℕ_discrete round r) [
        | yes e ↦
            let now =
              AllHealthy-healthy (fetch round) bases
                (subst (λ i. AllHealthy (fetch i) bases) (sym e) all) in
            absurd (ground arith)
        | no n ↦ never r (ground arith) in_time all
      ]

-- The wait ends: if the clock rises from round to round, as many rounds as there are ticks to
-- the deadline are enough. It ends well exactly if there is a round before the deadline in which
-- every server answers 200, and with the error else.
pub wait_healthy_lem :
    (clock : ℕ → ℕ) (fetch : ℕ → Text → Option ℕ) (bases : List Text) (deadline : ℕ)
    → ((i : ℕ) → clock i < clock (i + 1))
    → ((wait_healthy (suc (deadline - clock 0)) clock fetch bases deadline 0 ≡ some true)
        × ((r : ℕ) × (clock r < deadline) × AllHealthy (fetch r) bases))
      ⊎ ((wait_healthy (suc (deadline - clock 0)) clock fetch bases deadline 0 ≡ some false)
          × ((r : ℕ) → clock r < deadline → ¬ AllHealthy (fetch r) bases))
wait_healthy_lem clock fetch bases deadline rises =
    elim (wait_ends clock fetch bases deadline rises (suc (deadline - clock 0)) 0 (omega arith)) [
      | inl (e, found) ↦ let (r, _, in_time, all) = found in inl (e, (r, in_time, all))
      | inr (e, never) ↦ inr (e, λ r in_time. never r (omega arith) in_time)
    ]
