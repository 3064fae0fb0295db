-- ===== src/Ring/Clockwise.antt =====
-- The ring read clockwise from a hash: from `sort.Search`'s index to the end, then from the front.
use ringcache.Base.{
  ℕ, zero, suc, ◌+◌, ◌-◌, ◌≤◌, ◌<◌, ◌≡◌, refl, sym, ap, ap₂, ◌∙◌, true, false, List, [], ◌∷◌, ◌++◌,
  arith, ltb, leb, length, take, drop, drop_of_length-le, take_of_length-le, append-nil, Bool-cases,
  inl, inr, ◌==◌, filter_by,
}
use ringcache.Go.Search.{search, search-Divides, Divides, IsMonotone}
use ringcache.Go.Sort.{IsSorted, NotAbove}
use ringcache.Ring.{Vnode, vnode_less, wrap, start, at_least}
use ringcache.Ring.Walk.{visits, visits-step, get_elem?-drop}

-- Those at the hash or after it, then those before it.
abbrev pub clockwise : ℕ → List Vnode → List Vnode
clockwise h ring = filter_by (λ v. leb h v.hash) ring ++ filter_by (λ v. ltb v.hash h) ring

visits_to_end :
    (ring : List Vnode) (m k i : ℕ)
    → suc (m + i) ≡ length ring
    → visits ring (suc (m + k)) i ≡ drop i ring ++ visits ring k 0
visits_to_end ring zero k i h =
    let (v, at, split) = get_elem?-drop ring i (omega arith) in
    let last : wrap ring (i + 1) ≡ 0 = ground arith in
    let rest : drop (suc i) ring ≡ [] = drop_of_length-le (suc i) ring (omega arith) in
    visits-step ring (0 + k) i v at
    ∙ ap₂ (λ j l. v ∷ visits ring j l) (omega arith) last
    ∙ ap (λ s. s ++ visits ring k 0) (sym (split ∙ ap (◌∷◌ v) rest))
visits_to_end ring (suc m) k i h =
    let (v, at, split) = get_elem?-drop ring i (omega arith) in
    let next : wrap ring (i + 1) ≡ suc i = ground arith in
    visits-step ring (suc m + k) i v at
    ∙ ap₂ (λ j l. v ∷ visits ring j l) (omega arith) next
    ∙ ap (◌∷◌ v) (visits_to_end ring m k (suc i) (omega arith))
    ∙ ap (λ s. s ++ visits ring k 0) (sym split)

visits_within :
    (ring : List Vnode) (k i : ℕ) → k + i ≤ length ring → visits ring k i ≡ take k (drop i ring)
unfolding visits
visits_within ring zero i h = refl
visits_within ring (suc zero) i h =
    let (v, at, split) = get_elem?-drop ring i (omega arith) in rw split (visits-step ring 0 i v at)
visits_within ring (suc (suc k)) i h =
    let (v, at, split) = get_elem?-drop ring i (omega arith) in
    let next : wrap ring (i + 1) ≡ suc i = ground arith in
    rw split (
      visits-step ring (suc k) i v at
      ∙ ap (λ l. v ∷ visits ring (suc k) l) next
      ∙ ap (◌∷◌ v) (visits_within ring (suc k) (suc i) (omega arith)))

-- A whole turn from index `i`.
visits_turn :
    (ring : List Vnode) (i : ℕ)
    → i < length ring
    → visits ring (length ring) i ≡ drop i ring ++ take i ring
visits_turn ring i h =
    ap (λ k. visits ring k i) (omega arith)
    ∙ visits_to_end ring (length ring - i - 1) i i (omega arith)
    ∙ ap (◌++◌ (drop i ring)) (visits_within ring i 0 (omega arith))

above : (v w : Vnode) → vnode_less w v ≡ false → v.hash ≤ w.hash
unfolding vnode_less
above v w e = ground arith

-- On a sorted ring the test of `Owners` stays true once it is true.
at_least_all :
    (v : Vnode) (ring : List Vnode) (h b : ℕ)
    → NotAbove vnode_less v ring
    → h ≤ v.hash
    → b < length ring
    → at_least ring h b ≡ true
unfolding at_least
at_least_all v [] h b n le lt = elim lt [ ]
at_least_all v (w ∷ ring) h zero n le lt = ground (arith, above v w n.0)
at_least_all v (w ∷ ring) h (suc b) n le lt = at_least_all v ring h b n.1 le (omega arith)

at_least-IsMonotone :
    (ring : List Vnode) (h : ℕ)
    → IsSorted vnode_less ring
    → IsMonotone (length ring) (at_least ring h)
unfolding at_least
at_least-IsMonotone [] h s a b le lt e = elim lt [ ]
at_least-IsMonotone (v ∷ ring) h s zero zero le lt e = e
at_least-IsMonotone (v ∷ ring) h s zero (suc b) le lt e =
    at_least_all v ring h b s.0 (ground arith) (omega arith)
at_least-IsMonotone (v ∷ ring) h s (suc a) zero le lt e = absurd (omega arith)
at_least-IsMonotone (v ∷ ring) h s (suc a) (suc b) le lt e =
    at_least-IsMonotone ring h s.1 a b (omega arith) (omega arith) e

-- The index that divides the ring splits it into the two filters.
split_at :
    (ring : List Vnode) (h i : ℕ)
    → Divides (length ring) (at_least ring h) i
    → (filter_by (λ v. leb h v.hash) ring ≡ drop i ring)
      × (filter_by (λ v. ltb v.hash h) ring ≡ take i ring)
unfolding at_least
split_at [] h zero d = (refl, refl)
split_at [] h (suc i) d = (refl, refl)
split_at (v ∷ ring) h zero d = ground (
  arith,
  d.passes 0 (omega arith) (omega arith),
  split_at ring h 0 (record {
    within = omega arith;
    fails = λ k l. absurd (omega arith);
    passes = λ k l m. d.passes (suc k) (omega arith) (omega arith);
  }),
)
split_at (v ∷ ring) h (suc i) d = ground (
  arith,
  d.fails 0 (omega arith),
  split_at ring h i (record {
    within = omega arith;
    fails = λ k l. d.fails (suc k) (omega arith);
    passes = λ k l m. d.passes (suc k) (omega arith) (omega arith);
  }),
)

start-lt :
    (ring : List Vnode) (h : ℕ)
    → 0 < length ring
    → IsSorted vnode_less ring
    → start ring h < length ring
unfolding start
start-lt ring h pos s =
    let d = search-Divides (length ring) (at_least ring h) (at_least-IsMonotone ring h s) in
    ground (arith, d.within)

-- One turn from where the search begins reads the ring clockwise from the hash.
pub visits-clockwise :
    (ring : List Vnode) (h : ℕ)
    → 0 < length ring
    → IsSorted vnode_less ring
    → (start ring h < length ring) × (visits ring (length ring) (start ring h) ≡ clockwise h ring)
unfolding start
visits-clockwise ring h pos s =
    let i = search (length ring) (at_least ring h) in
    let d = search-Divides (length ring) (at_least ring h) (at_least-IsMonotone ring h s) in
    let halves = split_at ring h i d in
    let lt = start-lt ring h pos s in
    (lt, visits_turn ring (start ring h) lt ∙ turn i d.within ∙ sym (ap₂ ◌++◌ halves.0 halves.1))
  where
    turn :
        (i : ℕ)
        → i ≤ length ring
        → drop (wrap ring i) ring ++ take (wrap ring i) ring ≡ drop i ring ++ take i ring
    turn i le = elim (Bool-cases (i == length ring)) [
      | inr e ↦ rw e
      | inl e ↦
          let full : i ≡ length ring = ground arith in
          rw (e, drop_of_length-le i ring (omega arith), take_of_length-le i ring (omega arith))
            (append-nil ring)
    ]
