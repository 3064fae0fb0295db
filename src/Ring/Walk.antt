-- ===== src/Ring/Walk.antt =====
-- The walk of `Owners` in internal/ring/ring.go, against the ring read clockwise from a hash.
use ringcache.Base.{
  ℕ, zero, suc, ◌+◌, ◌-◌, ◌<◌, ◌≡◌, refl, sym, ap, ◌∙◌, List, [], ◌∷◌, ◌++◌, map, none, some, arith,
  ltb, length, length-append, take_nil, take, drop, get_elem?, contains, fresh, append_assoc,
  append-nil, Bool-cases, inl, inr,
}
use ringcache.Go.Text.{Text, text_dec}
use ringcache.Ring.{Vnode, walk, wrap}

abbrev pub ids : List Vnode → List Text
ids = map (λ v. v.id)

-- The virtual nodes that `rounds` rounds of the loop read from index `i`.
unfoldable pub visits : List Vnode → ℕ → ℕ → List Vnode
visits ring zero i = []
visits ring (suc rounds) i = elim (get_elem? ring i) [
  | none ↦ []
  | some v ↦ v ∷ visits ring rounds (wrap ring (i + 1))
]

pub get_elem?-drop {ℓ} :
    {A : Type ℓ} (xs : List A) (i : ℕ)
    → i < length xs
    → (x : A) × (get_elem? xs i ≡ some x) × (drop i xs ≡ x ∷ drop (suc i) xs)
get_elem?-drop [] i h = elim h [ ]
get_elem?-drop (x ∷ xs) zero h = (x, refl, refl)
get_elem?-drop (x ∷ xs) (suc i) h = get_elem?-drop xs i (omega arith)

wrap-lt : (ring : List Vnode) (i : ℕ) → i < length ring → wrap ring (i + 1) < length ring
wrap-lt ring i h = ground arith

pub visits-step :
    (ring : List Vnode) (rounds i : ℕ) (v : Vnode)
    → get_elem? ring i ≡ some v
    → visits ring (suc rounds) i ≡ v ∷ visits ring rounds (wrap ring (i + 1))
unfolding visits
visits-step ring rounds i v at = rw (at, visits)

-- The loop never reads out of range, and returns the first `n` distinct ids that it reads.
pub walk-visits :
    (ring : List Vnode) (n rounds i : ℕ) (seen out : List Text)
    → i < length ring
    → walk ring n rounds i seen out
      ≡ some (out ++ take (n - length out) (fresh text_dec seen (ids (visits ring rounds i))))
unfolding walk fresh visits
walk-visits ring n zero i seen out h =
    ground (arith, append-nil out, take_nil {A = Text} (n - length out))
walk-visits ring n (suc rounds) i seen out h =
    let (v, at, _) = get_elem?-drop ring i h in
    let next = wrap ring (i + 1) in
    let lt = wrap-lt ring i h in
    elim (Bool-cases (ltb (length out) n)) [
      | inr full ↦
          let e : n - length out ≡ 0 = ground arith in
          rw (full, walk, e) (ap some (sym (append-nil out)))
      | inl room ↦ elim (Bool-cases (contains text_dec v.id seen)) [
        | inl old ↦
            rw (visits-step ring rounds i v at, room, walk, at, old, walk, fresh)
              (walk-visits ring n rounds next seen out lt)
        | inr new ↦
            let e : n - length out ≡ suc (n - length (out ++ v.id ∷ [])) =
              ground (arith, length-append out (v.id ∷ [])) in
            rw (visits-step ring rounds i v at, room, walk, at, new, walk, fresh, e)
              (walk-visits ring n rounds next (v.id ∷ seen) (out ++ v.id ∷ []) lt
                ∙ ap some (append_assoc out (v.id ∷ []) _))
      ]
    ]
