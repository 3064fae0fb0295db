-- ===== src/Node/Fanout.antt =====
-- What `fanout` of internal/node/node.go reports: its counts, and that the order in which the
-- results arrive does not matter.
use mathlib.Core.List.{Perm, Perm-prop}
use mathlib.Core.List.Permᴰ.{Permᴰ}
use mathlib.Core.List.Perm
use mathlib.Core.Logic.{∥∥₁_elim}
use mathlib.Core.HLevel.{hedberg}
use ringcache.Base.{
  ℕ_discrete, some_eq, Option-cases, ℕ, suc, ◌+◌, ◌≡◌, refl, sym, ap, ap₂, ◌∙◌, Bool, true, false,
  List, [], ◌∷◌, ◌++◌, Option, none, some, arith, length, append_assoc, append-nil, inl, inr,
}
use ringcache.Go.Sort.{sort, sort_perm, length-sort}
use ringcache.Go.Text.{Text, text_ltb, text_ltb-IsOrder, Text-set}
use ringcache.Node.{Node, mark_down}
use ringcache.Node.Invariant.{IsValid, write_owner-Keeps, write_all-cons}
use ringcache.Node.Peers.{
  World, Method, KvBody, write_owner, write_peer, write_all, collect, fanout,
}

-- How many writes were acknowledged, and the owners of the others.
unfoldable pub count_acked : List (Text × Bool) → ℕ
count_acked [] = 0
count_acked ((id, true) ∷ rs) = suc (count_acked rs)
count_acked ((id, false) ∷ rs) = count_acked rs

unfoldable pub failures : List (Text × Bool) → List Text
failures [] = []
failures ((id, true) ∷ rs) = failures rs
failures ((id, false) ∷ rs) = id ∷ failures rs

collect-counts :
    (w : World) (rs : List (Text × Bool)) (n : Node) (acked : ℕ) (failed : List Text)
    → ((collect w n rs acked failed).1 ≡ acked + count_acked rs)
      × ((collect w n rs acked failed).2 ≡ failed ++ failures rs)
unfolding collect count_acked failures
collect-counts w [] n acked failed = (omega arith, sym (append-nil failed))
collect-counts w ((id, true) ∷ rs) n acked failed =
    let (a, f) = collect-counts w rs n (acked + 1) failed in (omega (arith, a), f)
collect-counts w ((id, false) ∷ rs) n acked failed =
    let (a, f) = collect-counts w rs (mark_down n (w.heard id) id) acked (failed ++ id ∷ []) in
    (a, f ∙ append_assoc failed (id ∷ []) (failures rs))

count_acked_cons :
    (r : Text × Bool) (rs qs : List (Text × Bool))
    → count_acked rs ≡ count_acked qs
    → count_acked (r ∷ rs) ≡ count_acked (r ∷ qs)
unfolding count_acked
count_acked_cons (id, true) rs qs h = ap suc h
count_acked_cons (id, false) rs qs h = h

count_acked_swap :
    (p q : Text × Bool) (rs : List (Text × Bool))
    → count_acked (p ∷ q ∷ rs) ≡ count_acked (q ∷ p ∷ rs)
unfolding count_acked
count_acked_swap (i, true) (j, true) rs = refl
count_acked_swap (i, true) (j, false) rs = refl
count_acked_swap (i, false) (j, true) rs = refl
count_acked_swap (i, false) (j, false) rs = refl

count_acked_permᴰ : {rs qs : List (Text × Bool)} → Permᴰ rs qs → count_acked rs ≡ count_acked qs
count_acked_permᴰ Permᴰ.nil = refl
count_acked_permᴰ (Permᴰ.cons {a} e d) = rw (← e) (count_acked_cons a _ _ (count_acked_permᴰ d))
count_acked_permᴰ (Permᴰ.swap {a} {b} {l} e f) = rw (← e, ← f) (count_acked_swap a b l)
count_acked_permᴰ (Permᴰ.trans d e) = count_acked_permᴰ d ∙ count_acked_permᴰ e

failures_cons :
    (r : Text × Bool) (rs qs : List (Text × Bool))
    → Perm (failures rs) (failures qs)
    → Perm (failures (r ∷ rs)) (failures (r ∷ qs))
unfolding failures
failures_cons (id, true) rs qs h = h
failures_cons (id, false) rs qs h = Perm.cons id h

failures_swap :
    (p q : Text × Bool) (rs : List (Text × Bool))
    → Perm (failures (p ∷ q ∷ rs)) (failures (q ∷ p ∷ rs))
unfolding failures
failures_swap (i, true) (j, true) rs = Perm.refl (failures rs)
failures_swap (i, true) (j, false) rs = Perm.refl (j ∷ failures rs)
failures_swap (i, false) (j, true) rs = Perm.refl (i ∷ failures rs)
failures_swap (i, false) (j, false) rs = Perm.swap j i (failures rs)

failures_permᴰ : {rs qs : List (Text × Bool)} → Permᴰ rs qs → Perm (failures rs) (failures qs)
failures_permᴰ Permᴰ.nil = Perm.refl (failures [])
failures_permᴰ (Permᴰ.cons {a} e d) = rw (← e) (failures_cons a _ _ (failures_permᴰ d))
failures_permᴰ (Permᴰ.swap {a} {b} {l} e f) = rw (← e, ← f) (failures_swap a b l)
failures_permᴰ (Permᴰ.trans d e) = Perm.trans (failures_permᴰ d) (failures_permᴰ e)

counts_add_up : (rs : List (Text × Bool)) → count_acked rs + length (failures rs) ≡ length rs
unfolding count_acked failures
counts_add_up [] = refl
counts_add_up ((id, true) ∷ rs) = omega (arith, counts_add_up rs)
counts_add_up ((id, false) ∷ rs) = omega (arith, counts_add_up rs)

-- The results of the writes, one for each owner.
write_all-length :
    (w : World) (clock : Text → ℕ) (method : Method) (ids : List Text) (body : KvBody) (n : Node)
    → IsValid n
    → (m : Node) × (rs : List (Text × Bool)) × (write_all w clock n method ids body ≡ some (m, rs))
      × (length rs ≡ length ids)
      × IsValid m
unfolding write_all
write_all-length w clock method [] body n v = (n, [], refl, refl, v)
write_all-length w clock method (id ∷ ids) body n v =
    let (m, ok, e, s) = write_owner-Keeps w (clock id) n method id body v in
    let (l, rs, f, same, u) = write_all-length w clock method ids body m s.valid in
    (l, (id, ok) ∷ rs, write_all-cons w clock n method id ids body e f, ap suc same, u)

-- The counts that `fanout` gives for results that arrive as `a` orders them.
pub reported :
    (w : World) (rs : List (Text × Bool)) (m : Node)
    → Perm (w.arrival rs) rs
    → ((collect w m (w.arrival rs) 0 []).1 ≡ count_acked rs)
      × (sort text_ltb (collect w m (w.arrival rs) 0 []).2 ≡ sort text_ltb (failures rs))
reported w rs m p =
    let (a, f) = collect-counts w (w.arrival rs) m 0 [] in
    (
      a ∙ same_count (∥∥₁_elim p (hedberg ℕ_discrete _ _) count_acked_permᴰ),
      ap (sort text_ltb) f
          ∙ sort_perm text_ltb-IsOrder Text-set (∥∥₁_elim p Perm-prop failures_permᴰ),
    )
  where
    same_count : {c d : ℕ} → c ≡ d → 0 + c ≡ d
    same_count h = omega arith

-- `fanout` of a valid node returns for any arrival in which each result comes once: it counts
-- the acknowledged writes and lists the owners of the others in alphabetical order, and the two
-- add up to the number of owners.
pub fanout_lem :
    (w : World) (n : Node) (method : Method) (owners : List Text) (body : KvBody)
    → IsValid n
    → ((rs : List (Text × Bool)) → Perm (w.arrival rs) rs)
    → (m : Node) × (l : Node) × (rs : List (Text × Bool)) × (write_all w w.asked n method owners
          body
        ≡ some (m, rs))
      × (fanout w n method owners body ≡ some (l, (count_acked rs, sort text_ltb (failures rs))))
      × (count_acked rs + length (sort text_ltb (failures rs)) ≡ length owners)
unfolding fanout
fanout_lem w n method owners body v arrives =
    let (m, rs, e, same, u) = write_all-length w w.asked method owners body n v in
    let (a, f) = reported w rs m (arrives rs) in
    let l = (collect w m (w.arrival rs) 0 []).0 in
    (
      m,
      l,
      rs,
      e,
      rw (e, fanout) (ap some (ap₂ (λ x y. (l, (x, y))) a f)),
      omega (arith, counts_add_up rs, length-sort text_ltb (failures rs), same),
    )

abbrev pub report : Option (Node × (ℕ × List Text)) → Option (ℕ × List Text)
report none = none
report (some (n, r)) = some r

write_all-arrival :
    (w : World) (a : List (Text × Bool) → List (Text × Bool)) (clock : Text → ℕ) (method : Method)
    (ids : List Text) (body : KvBody) (n : Node)
    → write_all (record w { arrival = a }) clock n method ids body
      ≡ write_all w clock n method ids body
unfolding write_all write_owner write_peer
write_all-arrival w a clock method [] body n = refl
write_all-arrival w a clock method (id ∷ ids) body n =
    elim (Option-cases (write_owner w (clock id) n method id body)) [
      | inl e ↦ rw (e, write_all) refl
      | inr ((m, ok), e) ↦ rw (e, write_all, write_all-arrival w a clock method ids body m) refl
    ]

-- The report of a fan-out of a valid node is the same for any two orders in which its results
-- arrive.
pub fanout-arrival :
    (w : World) (a b : List (Text × Bool) → List (Text × Bool)) (n : Node) (method : Method)
    (owners : List Text) (body : KvBody)
    → IsValid n
    → ((rs : List (Text × Bool)) → Perm (a rs) rs)
    → ((rs : List (Text × Bool)) → Perm (b rs) rs)
    → report (fanout (record w { arrival = a }) n method owners body)
      ≡ report (fanout (record w { arrival = b }) n method owners body)
fanout-arrival w a b n method owners body v p q =
    let (m, l, rs, e, f, _) = fanout_lem (record w { arrival = a }) n method owners body v p in
    let (m', l', qs, e', f', _) = fanout_lem (record w { arrival = b }) n method owners body v q in
    let wa = write_all-arrival w a w.asked method owners body n in
    let wb = write_all-arrival w b w.asked method owners body n in
    let same : (m, rs) ≡ (m', qs) = some_eq (sym e ∙ wa ∙ sym wb ∙ e') in
    ap report f
    ∙ ap (λ (r : Node × List (Text × Bool)). some (count_acked r.1, sort text_ltb (failures r.1)))
        same
    ∙ sym (ap report f')
