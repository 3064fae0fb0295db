-- ===== src/Node/Asking.antt =====
-- What a read of one owner by `readOwner` of internal/node/node.go comes to: the breaker, the
-- node's own store, and the answers of a peer, one by one.
use ringcache.Base.{
  ℕ, ◌+◌, ◌<◌, ◌≤◌, ◌≡◌, ◌≢◌, ◌⊎◌, inl, inr, refl, sym, ◌∙◌, ap, Bool-cases, Option-cases, true,
  false, Option, none, some, List, [], ◌∷◌, by_if, by_dec, arith, ltb, ◌==◌, lookup, delete, put,
  delete_absent, delete_idem, if◌then◌else◌,
}
use ringcache.Base.Int.{pos_part}
use ringcache.Go.Text.{Text, text_dec}
use ringcache.Go.Trim.{trim_slashes}
use ringcache.Node.{Node, GetResp, peer_url, mark_down, is_down}
use ringcache.Node.Breaker.{marked, read_owner_peer, read_owner_listed}
use ringcache.Node.Invariant.{IsValid}
use ringcache.Node.Peers.{
  World, Response, no_answer, answered, gets, Reading, unreached, absent, present, reading, ask,
  read_owner, read_local, local_reading, entry_of_resp,
}
use ringcache.Store
use ringcache.Store.{Store, Entry}
use ringcache.Store.Refine.{get-Refines}

-- No answer, or one that is neither 404 nor a 200 with a `getResp`.
abbrev pub IsUnusable : Response → Type 0
IsUnusable r =
    (r ≡ no_answer)
    ⊎ ((status : ℕ) × (body : Option GetResp) × (r ≡ answered status body)
        × (status ≢ 404)
        × (status ≡ 200 → body ≡ none))

-- A 404, or a 200 whose `getResp` says that there is no entry.
abbrev pub Denies : Response → Type 0
Denies r =
    ((body : Option GetResp) × (r ≡ answered 404 body))
    ⊎ ((g : GetResp) × (r ≡ answered 200 (some g)) × (g.found ≡ false))

-- A 200 whose `getResp` has the entry.
abbrev pub Gives : ℕ → Response → Entry → Type 0
Gives now r ent =
    (g : GetResp) × (r ≡ answered 200 (some g)) × (g.found ≡ true) × (ent ≡ entry_of_resp now g)

abbrev AnswerAs : ℕ → Response → Reading → Type 0
AnswerAs now r unreached = IsUnusable r
AnswerAs now r absent = Denies r
AnswerAs now r (present ent) = Gives now r ent

found_as :
    (now status : ℕ) (g : GetResp)
    → status ≡ 200
    → AnswerAs now
        (answered status (some g))
        (if g.found then present (entry_of_resp now g) else absent)
found_as now status g e =
    let same = ap (λ x. answered x (some g)) e in
    by_if (AnswerAs now (answered status (some g))) g.found
      (λ yes_found. (g, same, yes_found, refl)) (λ not_found. inr (g, same, not_found))

body_as :
    (now status : ℕ) (body : Option GetResp)
    → status ≢ 404
    → status ≡ 200
    → AnswerAs now (answered status body) (elim body [
      | none ↦ unreached
      | some g ↦ if g.found then present (entry_of_resp now g) else absent
    ])
body_as now status none ne e = inr (status, none, refl, ne, λ _. refl)
body_as now status (some g) ne e = found_as now status g e

reading_as : (now : ℕ) (r : Response) → AnswerAs now r (reading now r)
unfolding reading
reading_as now no_answer = inl refl
reading_as now (answered status body) =
    let A = AnswerAs now (answered status body) in
    by_if A (status == 404) (λ e. inl (body, ap (λ x. answered x body) (ground arith)))
      (λ other.
        let ne : status ≢ 404 = λ e. absurd (ground arith) in
        by_if A (status == 200) (λ e. body_as now status body ne (ground arith))
          (λ bad. inr (status, body, refl, ne, λ e. absurd (ground arith))))

-- What a peer answers to a GET of its `/internal/kv`.
abbrev pub answer_of : World → Node → Text → Text → Response
answer_of w n id key = w.send (gets (trim_slashes (peer_url n id)) key)

-- The breaker keeps a request from the peer, or lets it pass.
abbrev pub IsTripped : World → Node → Text → Type 0
IsTripped w n id =
    (until : ℕ) × (lookup text_dec id n.down_until ≡ some until) × (w.asked id < until)

abbrev pub IsOpen : World → Node → Text → Type 0
IsOpen w n id =
    (lookup text_dec id n.down_until ≡ none)
    ⊎ ((until : ℕ) × (lookup text_dec id n.down_until ≡ some until) × (until ≤ w.asked id))

-- A peer does not give a reading: the breaker keeps it from being asked, it has no URL, or its
-- answer cannot be used.
abbrev pub IsLost : World → Node → Text → Text → Type 0
IsLost w n id key =
    IsTripped w n id ⊎ (IsOpen w n id × ((peer_url n id ≡ []) ⊎ IsUnusable (answer_of w n id key)))

-- The node after it took a peer for down, and after it let a request to the peer pass.
abbrev pub down_from : World → Node → Text → Node
down_from w n id = record n {
  down_until = put text_dec id (w.heard id + pos_part n.cfg.break_for) n.down_until;
}

abbrev pub passed : Node → Text → Node
passed n id = record n { down_until = delete text_dec id n.down_until }

-- An owner has no entry, and the node is another one then: its own store, or a peer.
abbrev pub Misses : World → Node → Node → Text → Text → Type 0
Misses w n m id key =
    ((id ≡ n.cfg.id)
      × (Store.get n.store (w.asked id) key ≡ some (m.store, none))
      × (m ≡ record n { store = m.store }))
    ⊎ ((id ≢ n.cfg.id)
        × IsOpen w n id
        × (peer_url n id ≢ [])
        × Denies (answer_of w n id key)
        × (m ≡ passed n id))

-- An owner has the entry.
abbrev pub Has : World → Node → Node → Text → Text → Entry → Type 0
Has w n m id key ent =
    ((id ≡ n.cfg.id)
      × (Store.get n.store (w.asked id) key ≡ some (m.store, some ent))
      × (m ≡ record n { store = m.store }))
    ⊎ ((id ≢ n.cfg.id)
        × IsOpen w n id
        × (peer_url n id ≢ [])
        × Gives (w.heard id) (answer_of w n id key) ent
        × (m ≡ passed n id))

abbrev pub ReadAs : World → Node → Node → Text → Text → Reading → Type 0
ReadAs w n m id key unreached =
    (id ≢ n.cfg.id) × IsLost w n id key × (mark_down m (w.heard id) id ≡ down_from w n id)
ReadAs w n m id key absent = Misses w n m id key
ReadAs w n m id key (present ent) = Has w n m id key ent

-- A peer that the breaker lets pass.
ask_as :
    (w : World) (n : Node) (id key : Text)
    → id ≢ n.cfg.id
    → IsOpen w n id
    → ReadAs w n (passed n id) id key (ask w (passed n id) id key)
unfolding ask peer_url put
ask_as w n id key other free =
    by_dec (ReadAs w n (passed n id) id key) (text_dec (peer_url n id) [])
      (λ blank. (other, inr (free, inl blank), marked_passed))
      (λ named.
        answered_as named (reading (w.heard id) (answer_of w n id key))
          (reading_as (w.heard id) (answer_of w n id key)))
  where
    marked_passed : mark_down (passed n id) (w.heard id) id ≡ down_from w n id
    marked_passed =
        marked (passed n id) (w.heard id) id other
        ∙ ap
            (λ (d : List (Text × ℕ)). record n {
              down_until = (id, w.heard id + pos_part n.cfg.break_for) ∷ d;
            })
            (delete_idem text_dec id n.down_until)

    answered_as :
        peer_url n id ≢ []
        → (r : Reading) → AnswerAs (w.heard id) (answer_of w n id key) r
        → ReadAs w n (passed n id) id key r
    answered_as named unreached a = (other, inr (free, inr a), marked_passed)
    answered_as named absent a = inr (other, free, named, a, refl)
    answered_as named (present ent) a = inr (other, free, named, a, refl)

-- What a read finds, and the node after it.
abbrev pub ReadsAs : World → Node → Text → Text → Type 0
ReadsAs w n id key =
    (m : Node) × (r : Reading) × (read_owner w n id key ≡ some (m, r)) × ReadAs w n m id key r

read_peer_as : (w : World) (n : Node) (id key : Text) → id ≢ n.cfg.id → ReadsAs w n id key
unfolding is_down
read_peer_as w n id key other = elim (Option-cases (lookup text_dec id n.down_until)) [
  | inl none_there ↦
      let same : n ≡ passed n id =
        ap (λ (d : List (Text × ℕ)). record n { down_until = d })
          (sym (delete_absent text_dec id n.down_until none_there)) in
      (
        passed n id,
        ask w (passed n id) id key,
        read_owner_peer w n id key other
            ∙ rw (none_there, is_down) refl
            ∙ ap (λ (l : Node). some (l, ask w l id key)) same,
        ask_as w n id key other (inl none_there),
      )
  | inr (until, there) ↦ elim (Bool-cases (ltb (w.asked id) until)) [
    | inl early ↦ (
      n,
      unreached,
      read_owner_listed w n until id key other there ∙ rw (early) refl,
      (other, inl (until, there, ground arith), marked n (w.heard id) id other),
    )
    | inr late ↦ (
      passed n id,
      ask w (passed n id) id key,
      read_owner_listed w n until id key other there ∙ rw (late) refl,
      ask_as w n id key other (inr (until, there, ground arith)),
    )
  ]
]

read_self_as :
    (w : World) (n : Node) (id key : Text) → IsValid n → id ≡ n.cfg.id → ReadsAs w n id key
unfolding read_owner read_local
read_self_as w n id key v own =
    let (s, e, _, _) = get-Refines n.store (w.asked id) key v.store_valid in
    by_dec (λ o. (m : Node) × (r : Reading) × (o ≡ some (m, r)) × ReadAs w n m id key r)
      (text_dec id n.cfg.id) (λ _. rw (e, read_local) (stored s _ e)) (λ other. absurd (other own))
  where
    stored :
        (s : Store) (o : Option Entry)
        → Store.get n.store (w.asked id) key ≡ some (s, o)
        → (m : Node) × (r : Reading) × (◌≡◌ {A = Option (Node × Reading)}
            (some (record n { store = s }, local_reading o))
            (some (m, r)))
          × ReadAs w n m id key r
    stored s none e = (_, absent, refl, inl (own, e, refl))
    stored s (some ent) e = (_, present ent, refl, inl (own, e, refl))

pub read_owner_as : (w : World) (n : Node) (id key : Text) → IsValid n → ReadsAs w n id key
read_owner_as w n id key v = elim (text_dec id n.cfg.id) [
  | yes own ↦ read_self_as w n id key v own
  | no other ↦ read_peer_as w n id key other
]
