-- ===== src/Go/Search.antt =====
-- `sort.Search`: the binary search of the standard library, and what it finds under a monotone test.
use mathlib.Core.Bool.{false≢true}
use ringcache.Base.{
  ℕ, zero, suc, ◌+◌, ◌/◌, ◌≤◌, ◌<◌, ◌≡◌, sym, ◌∙◌, Bool, true, false, arith, ltb, Bool-cases, inl,
  inr,
}

-- `for i < j { h := (i + j) / 2; … }`: each round at least halves `j - i`, so `j - i` rounds do.
search_loop : ℕ → (ℕ → Bool) → ℕ → ℕ → ℕ
search_loop zero f i j = i
search_loop (suc fuel) f i j = elim (ltb i j) [
  | false ↦ i
  | true ↦
      let h = (i + j) / 2 in
      elim (f h) [ false ↦ search_loop fuel f (h + 1) j | true ↦ search_loop fuel f i h ]
]

unfoldable pub search : ℕ → (ℕ → Bool) → ℕ
unfolding search_loop
search n f = search_loop n f 0 n

module _ (n : ℕ) (f : ℕ → Bool) where
  -- Once true, the test stays true below `n`.
  abbrev pub IsMonotone : Type 0
  IsMonotone = (a b : ℕ) → a ≤ b → b < n → f a ≡ true → f b ≡ true

  -- `r` divides the indices below `n` into those that fail the test and those that pass.
  pub record Divides (r : ℕ) : Type 0 where
    pub within : r ≤ n
    pub fails : (k : ℕ) → k < r → f k ≡ false
    pub passes : (k : ℕ) → r ≤ k → k < n → f k ≡ true

  fails_below : IsMonotone → (h k : ℕ) → k ≤ h → h < n → f h ≡ false → f k ≡ false
  fails_below mono h k le top fail = elim (Bool-cases (f k)) [
    | inl pass ↦ absurd (false≢true (sym fail ∙ mono k h le top pass))
    | inr fails ↦ fails
  ]

  search_loop-Divides :
      IsMonotone
      → (fuel i j : ℕ) → i ≤ j
      → j ≤ n
      → j ≤ i + fuel
      → ((k : ℕ) → k < i → f k ≡ false)
      → ((k : ℕ) → j ≤ k → k < n → f k ≡ true)
      → Divides (search_loop fuel f i j)
  unfolding search_loop
  search_loop-Divides mono zero i j le top enough low high = record {
    within = omega arith;
    fails = low;
    passes = λ k h. high k (omega arith);
  }
  search_loop-Divides mono (suc fuel) i j le top enough low high = elim (Bool-cases (ltb i j)) [
    | inr done ↦
        rw (done, search_loop)
          (record { within = omega arith; fails = low; passes = λ k h. high k (ground arith) })
    | inl more ↦
        let h = (i + j) / 2 in
        let near : (i ≤ h) × (h < j) = ground arith in
        elim (Bool-cases (f h)) [
          | inr fail ↦
              rw (more, search_loop, fail, search_loop)
                (search_loop-Divides mono fuel (h + 1) j (omega arith) top (omega arith)
                  (λ k below. fails_below mono h k (omega arith) (omega arith) fail) high)
          | inl pass ↦
              rw (more, search_loop, pass, search_loop)
                (search_loop-Divides mono fuel i h near.0 (omega arith) (omega arith) low
                  (λ k above lt. mono h k above lt pass))
        ]
  ]

  -- On a monotone test `sort.Search` finds the first index that passes.
  pub search-Divides : IsMonotone → Divides (search n f)
  unfolding search
  search-Divides mono =
      search_loop-Divides mono n 0 n (omega arith) (omega arith) (omega arith)
        (λ k h. absurd (omega arith)) (λ k h lt. absurd (omega arith))
