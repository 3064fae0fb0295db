-- ===== src/Bench/Percentile.antt =====
-- The percentiles that cmd/bench/main.go and cmd/ratebench/main.go print.
use ringcache.Base.{
  ℕ, zero, suc, ◌-◌, ◌<◌, ◌≤◌, ◌≡◌, refl, subst, true, false, List, [], ◌∷◌, some, arith, All,
  All-of_contains, contains, length, get_elem?, ltb, ℕ_discrete,
}
use ringcache.Base.Int.{ℤ, pos, negsuc, ◌≤ℤ◌}
use ringcache.Bench.{clamp, latency_at, percentiles}
use ringcache.Go.Sort.{IsOrder, IsSorted, sort, sort-IsSorted, length-sort, All-sort}

ltb-IsOrder : IsOrder ltb
ltb-IsOrder = record {
  asymm = λ a b h. ground arith;
  trans = λ a b c h k. ground arith;
  antisymm = λ a b h k. ground arith;
}

get_elem?-some : (xs : List ℕ) (i : ℕ) → i < length xs → (x : ℕ) × (get_elem? xs i ≡ some x)
get_elem?-some [] i h = absurd (omega arith)
get_elem?-some (x ∷ xs) zero h = (x, refl)
get_elem?-some (x ∷ xs) (suc i) h = get_elem?-some xs i (omega arith)

get_elem?-All {ℓ} :
    (P : ℕ → Type ℓ) (xs : List ℕ) (i x : ℕ) → All P xs → get_elem? xs i ≡ some x → P x
get_elem?-All P [] i x h e = absurd (ground arith)
get_elem?-All P (y ∷ xs) zero x h e = subst P (ground arith) h.0
get_elem?-All P (y ∷ xs) (suc i) x h e = get_elem?-All P xs i x h.1 e

get_elem?-IsSorted :
    (xs : List ℕ) (i j x y : ℕ)
    → IsSorted ltb xs
    → i ≤ j
    → get_elem? xs i ≡ some x
    → get_elem? xs j ≡ some y
    → x ≤ y
get_elem?-IsSorted [] i j x y s h e f = absurd (ground arith)
get_elem?-IsSorted (z ∷ xs) zero zero x y s h e f = ground arith
get_elem?-IsSorted (z ∷ xs) zero (suc j) x y s h e f =
    let above = get_elem?-All (λ v. ltb v z ≡ false) xs j y s.0 f in ground arith
get_elem?-IsSorted (z ∷ xs) (suc i) zero x y s h e f = absurd (omega arith)
get_elem?-IsSorted (z ∷ xs) (suc i) (suc j) x y s h e f =
    get_elem?-IsSorted xs i j x y s.1 (omega arith) e f

clamp-lt : (x : ℤ) (size : ℕ) → 0 < size → clamp x size < size
clamp-lt (negsuc x) size h = h
clamp-lt (pos x) size h = ground arith

clamp-le : (x y : ℤ) (size : ℕ) → x ≤ℤ y → clamp x size ≤ clamp y size
clamp-le (negsuc x) y size h = omega arith
clamp-le (pos x) (negsuc y) size h = absurd (omega arith)
clamp-le (pos x) (pos y) size h = ground arith

-- The percentiles of latencies, at least one, are found for any rounding: the index is never out
-- of range. Both are among the latencies, and the 50th is at most the 99th if the rounding gives
-- it no higher an index.
pub percentiles_lem :
    (r50 r99 : ℕ → ℤ) (d : ℕ) (ds : List ℕ)
    → r50 (length ds) ≤ℤ r99 (length ds)
    → (p50 : ℕ) × (p99 : ℕ) × (percentiles r50 r99 (d ∷ ds) ≡ some (p50, p99))
      × (p50 ≤ p99)
      × (contains ℕ_discrete p50 (d ∷ ds) ≡ true)
      × (contains ℕ_discrete p99 (d ∷ ds) ≡ true)
unfolding percentiles latency_at
percentiles_lem r50 r99 d ds h =
    let size = length-sort ltb (d ∷ ds) in
    let x = r50 (length (sort ltb (d ∷ ds)) - 1) in
    let y = r99 (length (sort ltb (d ∷ ds)) - 1) in
    let last : length ds ≡ length (sort ltb (d ∷ ds)) - 1 = omega (arith, size) in
    let h' : x ≤ℤ y = subst (λ m. r50 m ≤ℤ r99 m) last h in
    let (p50, e) =
      get_elem?-some (sort ltb (d ∷ ds)) (clamp x (length (sort ltb (d ∷ ds))))
        (clamp-lt x (length (sort ltb (d ∷ ds))) (omega (arith, size))) in
    let (p99, f) =
      get_elem?-some (sort ltb (d ∷ ds)) (clamp y (length (sort ltb (d ∷ ds))))
        (clamp-lt y (length (sort ltb (d ∷ ds))) (omega (arith, size))) in
    let among =
      All-sort ltb (λ z. contains ℕ_discrete z (d ∷ ds) ≡ true) (d ∷ ds)
        (All-of_contains ℕ_discrete (λ z. contains ℕ_discrete z (d ∷ ds) ≡ true) (d ∷ ds)
          (λ z m. m)) in
    (
      p50,
      p99,
      rw (e, percentiles, f, percentiles) refl,
      get_elem?-IsSorted (sort ltb (d ∷ ds)) _ _ p50 p99 (sort-IsSorted ltb-IsOrder (d ∷ ds))
          (clamp-le x y _ h') e f,
      get_elem?-All (λ z. contains ℕ_discrete z (d ∷ ds) ≡ true) (sort ltb (d ∷ ds)) _ p50 among e,
      get_elem?-All (λ z. contains ℕ_discrete z (d ∷ ds) ≡ true) (sort ltb (d ∷ ds)) _ p99 among f,
    )
