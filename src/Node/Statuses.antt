-- ===== src/Node/Statuses.antt =====
-- Which status `handleGet` of internal/node/node.go answers with, and from which owner.
use ringcache.Base.{
  ◌≡◌, ◌≢◌, ◌⊎◌, inl, inr, refl, sym, ◌∙◌, ap, subst, some_eq, contains, erase, Bool, true, false,
  ◌||◌, List, [], ◌∷◌, ◌++◌, none, some, if◌then◌else◌,
}
use ringcache.Go.Text.{Text, text_dec}
use ringcache.Node.{
  Node, all_unreachable, validate_key, get_payload, not_found, mark_down, prefer_local,
}
use ringcache.Node.Asking.{IsLost, down_from, Misses, Has, ReadAs, read_owner_as}
use ringcache.Node.Coherence.{owners-Distinct}
use ringcache.Node.Local.{prefer_local_lem}
use ringcache.Node.Handlers.{json, http_error, is_get, read_loop, handle_get}
use ringcache.Node.Invariant.{IsValid, mark_down-Same, read_owner-Keeps, read_repair-Keeps}
use ringcache.Node.Peers.{World, http_get, read_owner, Reading, unreached, absent, present}
use ringcache.Node.Totality.{owners_total}
use ringcache.Ring
use ringcache.Store.{Entry}

-- Owners that are read in turn and have no entry, from a node to the node after it; `true` tells
-- that one of them answered. A peer that is lost is on the list of the breaker from then on.
pub data Tried (w : World) (key : Text) : Node → List Text → Node → Bool → Type 0 where
  nobody : {n : Node} → Tried w key n [] n false
  lost :
      {n m l : Node} {id : Text} {ids : List Text} {b : Bool}
      → id ≢ n.cfg.id
      → IsLost w n id key
      → m ≡ down_from w n id
      → Tried w key m ids l b
      → Tried w key n (id ∷ ids) l b
  missing :
      {n m l : Node} {id : Text} {ids : List Text} {b : Bool}
      → Misses w n m id key
      → Tried w key m ids l b
      → Tried w key n (id ∷ ids) l true

-- The first owner that has the entry, behind owners that have not.
pub record Found (w : World) (n : Node) (key : Text) (ids : List Text) : Type 0 where
  pub before : List Text
  pub id : Text
  pub behind : List Text
  pub ent : Entry
  pub asking : Node
  pub asked : Node
  pub answered : Bool
  pub order : ids ≡ before ++ id ∷ behind
  pub tried : Tried w key n before asking answered
  pub has : Has w asking asked id key ent

module _ (w : World) (key : Text) where
  abbrev with_lost :
      (n m : Node) (id : Text) (ids : List Text)
      → id ≢ n.cfg.id
      → IsLost w n id key
      → m ≡ down_from w n id
      → Found w m key ids
      → Found w n key (id ∷ ids)
  with_lost n m id ids other lost_now e f = record {
    before = id ∷ f.before;
    id = f.id;
    behind = f.behind;
    ent = f.ent;
    asking = f.asking;
    asked = f.asked;
    answered = f.answered;
    order = ap (◌∷◌ id) f.order;
    tried = lost other lost_now e f.tried;
    has = f.has;
  }

  abbrev with_missing :
      (n m : Node) (id : Text) (ids : List Text)
      → Misses w n m id key
      → Found w m key ids
      → Found w n key (id ∷ ids)
  with_missing n m id ids e f = record {
    before = id ∷ f.before;
    id = f.id;
    behind = f.behind;
    ent = f.ent;
    asking = f.asking;
    asked = f.asked;
    answered = true;
    order = ap (◌∷◌ id) f.order;
    tried = missing e f.tried;
    has = f.has;
  }

or_true : (b : Bool) → true ≡ (b || true)
or_true true = refl
or_true false = refl

or_false : (b : Bool) → b ≡ (b || false)
or_false true = refl
or_false false = refl

module _ (w : World) (key : Text) (owners : List Text) where
  -- How the loop ends, with the reply and the node.
  abbrev Ends : Node → List Text → Bool → Type 0
  Ends n ids reached =
      ((f : Found w n key ids) × (l : Node) × (read_loop w n key owners ids reached
          ≡ some (l, json 200 (get_payload w.replying key f.id f.ent))))
      ⊎ ((l : Node) × (b : Bool) × Tried w key n ids l b
          × (read_loop w n key owners ids reached
              ≡ some (
                l,
                if reached || b then json 404 (not_found key) else http_error 503 all_unreachable,
              )))

  ends_cons :
      (n m : Node) (id : Text) (ids : List Text) (reached : Bool) (r : Reading)
      → ((l : Node) (b : Bool) → IsValid l → Ends l ids b)
      → IsValid m
      → read_owner w n id key ≡ some (m, r)
      → ReadAs w n m id key r
      → Ends n (id ∷ ids) reached
  unfolding read_loop
  ends_cons n m id ids reached unreached rest v e (other, why, down) =
      elim (rest (mark_down m (w.heard id) id) reached (mark_down-Same m (w.heard id) id v).valid) [
        | inl (f, l, g) ↦ inl (
          with_lost w key n (mark_down m (w.heard id) id) id ids other why down f,
          l,
          rw (e, read_loop) g,
        )
        | inr (l, b, t, g) ↦ inr (l, b, lost other why down t, rw (e, read_loop) g)
      ]
  ends_cons n m id ids reached absent rest v e why = elim (rest m true v) [
    | inl (f, l, g) ↦ inl (with_missing w key n m id ids why f, l, rw (e, read_loop) g)
    | inr (l, b, t, g) ↦ inr (
      l,
      true,
      missing why t,
      rw (e, read_loop)
          (subst
            (λ x.
              read_loop w m key owners ids true
              ≡ some (l, if x then json 404 (not_found key) else http_error 503 all_unreachable))
            (or_true reached) g),
    )
  ]
  ends_cons n m id ids reached (present ent) rest v e why =
      let (l, _, f, _) = read_repair-Keeps w m key ent owners id v in
      inl (
        record {
          before = [];
          id = id;
          behind = ids;
          ent = ent;
          asking = n;
          asked = m;
          answered = false;
          order = refl;
          tried = nobody;
          has = why;
        },
        l,
        rw (e, read_loop, f, read_loop) refl,
      )

  ends : (ids : List Text) (n : Node) (reached : Bool) → IsValid n → Ends n ids reached
  unfolding read_loop
  ends [] n reached v = inr (
    n,
    false,
    nobody,
    ap (λ x. some (n, if x then json 404 (not_found key) else http_error 503 all_unreachable))
        (or_false reached),
  )
  ends (id ∷ ids) n reached v =
      let (m, r, e, why) = read_owner_as w n id key v in
      let (m', r', e', s) = read_owner-Keeps w n id key v in
      let same = ap (λ (x : Node × Reading). x.0) (some_eq (sym e' ∙ e)) in
      ends_cons n m id ids reached r (λ l b u. ends ids l b u) (subst IsValid same s.valid) e why

-- A GET of a valid key at a valid node asks the key's owners in turn: its own store first, if it
-- is one of them, and then the others in the order of the ring. It is answered with 200 and the
-- entry of the first owner that has one, behind owners that had none or were lost; with 404 if
-- there is none, and one of them said so; and with 503 if all of them were lost. A peer is lost
-- if the breaker keeps it from being asked, it has no URL, or it gives no answer, or neither 404
-- nor a 200 with an entry or the word that there is none; the node then keeps off it until
-- `BreakFor` is over.
pub handle_get-Tried :
    (w : World) (n : Node) (key : Text)
    → IsValid n
    → validate_key key ≡ none
    → (os : List Text) × (order : List Text) × (Ring.owners n.ring key n.cfg.replicas ≡ some os)
      × (order
          ≡ (if contains text_dec n.cfg.id os then n.cfg.id ∷ erase text_dec n.cfg.id os else os))
      × (((f : Found w n key order) × (l : Node) × (handle_get w n http_get key
              ≡ some (l, json 200 (get_payload w.replying key f.id f.ent))))
          ⊎ ((l : Node) × (b : Bool) × Tried w key n order l b
              × (handle_get w n http_get key
                  ≡ some
                      (l, if b then json 404 (not_found key) else http_error 503 all_unreachable))))
unfolding handle_get is_get
handle_get-Tried w n key v k =
    let (o, os, e) = owners_total n key v in
    (
      o ∷ os,
      prefer_local (o ∷ os) n.cfg.id,
      e,
      prefer_local_lem (o ∷ os) n.cfg.id (owners-Distinct n key n.cfg.replicas (o ∷ os) v e),
      rw (k, handle_get, e, handle_get)
          (ends w key (o ∷ os) (prefer_local (o ∷ os) n.cfg.id) n false v),
    )
