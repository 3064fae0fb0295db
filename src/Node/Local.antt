-- ===== src/Node/Local.antt =====
-- A node of internal/node/node.go that owns a key: it writes its own store once in a fan-out, and
-- reads it first.
use mathlib.Core.List.{Perm, perm_middle}
use mathlib.Core.List.Perm
use ringcache.Base.{
  ℕ, ◌+◌, ◌≡◌, ◌≢◌, ◌≤◌, inl, inr, refl, sym, subst, ap, ◌∙◌, Bool, Bool-cases, true, false, not,
  List, [], ◌∷◌, ◌++◌, some, arith, contains, Distinct, filter_by, by_dec, erase, erase_absent,
  if◌then◌else◌,
}
use ringcache.Go.Text.{Text, text_dec}
use ringcache.Node.{Node, mark_down, is_id, prefer_local}
use ringcache.Node.Fanout.{count_acked}
use ringcache.Node.Invariant.{write_all-cons}
use ringcache.Node.Peers.{
  World, Method, KvBody, write_owner, write_local, write_peer, write_all, collect,
}

module _ (w : World) (method : Method) (body : KvBody) where
  write_owner_self :
      (now : ℕ) (n : Node) (id : Text)
      → id ≡ n.cfg.id
      → write_owner w now n method id body ≡ write_local now n method body
  unfolding write_owner
  write_owner_self now n id same =
      by_dec (λ o. o ≡ write_local now n method body) (text_dec id n.cfg.id) (λ _. refl)
        (λ ne. absurd (ne same))

  write_owner_other :
      (now : ℕ) (n : Node) (id : Text)
      → id ≢ n.cfg.id
      → write_owner w now n method id body ≡ some (n, write_peer w n method id body)
  unfolding write_owner
  write_owner_other now n id other =
      by_dec (λ o. o ≡ some (n, write_peer w n method id body)) (text_dec id n.cfg.id)
        (λ same. absurd (other same)) (λ _. refl)

  -- Writes of the peers leave the node as it is.
  pub write_all_peers :
      (clock : Text → ℕ) (n : Node) (ids : List Text)
      → contains text_dec n.cfg.id ids ≡ false
      → (rs : List (Text × Bool)) × (write_all w clock n method ids body ≡ some (n, rs))
  unfolding write_all contains
  write_all_peers clock n [] h = ([], refl)
  write_all_peers clock n (id ∷ ids) h = elim (text_dec id n.cfg.id) [
    | yes same ↦ absurd (ground arith)
    | no other ↦
        let (rs, e) = write_all_peers clock n ids (ground arith) in
        (_, write_all-cons w clock n method id ids body (write_owner_other (clock id) n id other) e)
  ]

  -- Among distinct owners the node writes its own store once, and acknowledges that.
  pub write_all_local :
      (clock : Text → ℕ) (n m : Node) (ids : List Text)
      → Distinct text_dec ids
      → contains text_dec n.cfg.id ids ≡ true
      → write_local (clock n.cfg.id) n method body ≡ some (m, true)
      → m.cfg ≡ n.cfg
      → (rs : List (Text × Bool)) × (write_all w clock n method ids body ≡ some (m, rs))
        × (1 ≤ count_acked rs)
  unfolding contains count_acked
  write_all_local clock n m [] d h e c = absurd (ground arith)
  write_all_local clock n m (id ∷ ids) d h e c = elim (text_dec id n.cfg.id) [
    | yes same ↦
        let own : m.cfg.id ≡ id = ap (λ x. x.id) c ∙ sym same in
        let (rs, f) =
          write_all_peers clock m ids
            (subst (λ k. contains text_dec k ids ≡ false) (sym own) d.0) in
        let first =
          write_owner_self (clock id) n id same
          ∙ ap (λ k. write_local (clock k) n method body) same
          ∙ e in
        (_, write_all-cons w clock n method id ids body first f, omega arith)
    | no other ↦
        let (rs, f, acked) = write_all_local clock n m ids d.1 (ground arith) e c in
        (
          _,
          write_all-cons w clock n method id ids body (write_owner_other (clock id) n id other) f,
          more id (write_peer w n method id body) rs acked,
        )
  ]
    where
      more :
          (k : Text) (ok : Bool) (rs : List (Text × Bool))
          → 1 ≤ count_acked rs
          → 1 ≤ count_acked ((k, ok) ∷ rs)
      more k true rs h = omega arith
      more k false rs h = h

mark_down-store : (n : Node) (now : ℕ) (id : Text) → (mark_down n now id).store ≡ n.store
unfolding mark_down
mark_down-store n now id = ground arith

pub collect-store :
    (w : World) (rs : List (Text × Bool)) (n : Node) (acked : ℕ) (failed : List Text)
    → (collect w n rs acked failed).0.store ≡ n.store
unfolding collect
collect-store w [] n acked failed = refl
collect-store w ((id, true) ∷ rs) n acked failed = collect-store w rs n (acked + 1) failed
collect-store w ((id, false) ∷ rs) n acked failed =
    collect-store w rs (mark_down n (w.heard id) id) acked (failed ++ id ∷ [])
    ∙ mark_down-store n (w.heard id) id

split_perm :
    (p : Text → Bool) (ids : List Text)
    → Perm (filter_by p ids ++ filter_by (λ id. not (p id)) ids) ids
split_perm p [] = Perm.nil
split_perm p (id ∷ ids) = elim (Bool-cases (p id)) [
  | inl e ↦ rw (e) (Perm.cons id (split_perm p ids))
  | inr e ↦ rw (e) (
      Perm.trans (perm_middle (filter_by p ids) (filter_by (λ i. not (p i)) ids))
        (Perm.cons id (split_perm p ids)))
]

-- `preferLocal` reads the same owners, each as often, in another order.
prefer_local-Perm : (owners : List Text) (self : Text) → Perm (prefer_local owners self) owners
unfolding prefer_local
prefer_local-Perm owners self = split_perm (λ id. is_id id self) owners

first_is_self :
    (self : Text) (owners : List Text)
    → contains text_dec self owners ≡ true
    → (rest : List Text) × (filter_by (λ id. is_id id self) owners ≡ self ∷ rest)
unfolding contains is_id
first_is_self self [] h = absurd (ground arith)
first_is_self self (id ∷ ids) h = elim (text_dec id self) [
  | yes p ↦ (filter_by (λ id. is_id id self) ids, ground arith)
  | no ne ↦ let (rest, e) = first_is_self self ids (ground arith) in (rest, ground arith)
]

-- A node that is among the owners stands first in the order that it reads in.
pub prefer_local-first :
    (owners : List Text) (self : Text)
    → contains text_dec self owners ≡ true
    → (rest : List Text) × (prefer_local owners self ≡ self ∷ rest)
unfolding prefer_local
prefer_local-first owners self h =
    let (rest, e) = first_is_self self owners h in
    (_, ap (λ ids. ids ++ filter_by (λ id. not (is_id id self)) owners) e)

filter_by-Distinct :
    (self : Text) (os : List Text)
    → Distinct text_dec os
    → filter_by (λ id. is_id id self) os ≡ (if contains text_dec self os then self ∷ [] else [])
unfolding contains is_id
filter_by-Distinct self [] d = refl
filter_by-Distinct self (o ∷ os) d = elim (text_dec o self) [
  | yes p ↦
      let gone = subst (λ i. contains text_dec i os ≡ false) p d.0 in
      ground (arith, filter_by-Distinct self os d.1, gone, p)
  | no ne ↦ ground (arith, filter_by-Distinct self os d.1)
]

filter_by-erase :
    (self : Text) (os : List Text)
    → filter_by (λ id. not (is_id id self)) os ≡ erase text_dec self os
unfolding erase is_id
filter_by-erase self [] = refl
filter_by-erase self (o ∷ os) = ground (arith, filter_by-erase self os)

-- `preferLocal` on distinct owners: the node itself comes first, if it is one of them, and the
-- others keep their order.
pub prefer_local_lem :
    (os : List Text) (self : Text)
    → Distinct text_dec os
    → prefer_local os self
      ≡ (if contains text_dec self os then self ∷ erase text_dec self os else os)
unfolding prefer_local
prefer_local_lem os self d = elim (Bool-cases (contains text_dec self os)) [
  | inl here ↦ rw (filter_by-Distinct self os d, filter_by-erase self os, here) refl
  | inr away ↦
      rw (filter_by-Distinct self os d, filter_by-erase self os, away)
        (erase_absent text_dec self os away)
]
