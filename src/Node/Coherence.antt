-- ===== src/Node/Coherence.antt =====
-- Requests to an owner of a key, one after the other: internal/node/node.go's `handleSet`, then
-- `handleGet`.
use ringcache.Base.{
  ℕ, ◌≡◌, ◌≤◌, ◌<◌, ◌⊎◌, refl, sym, subst, ap, ap₂, ◌∙◌, Bool, true, false, List, [], ◌∷◌, Option,
  none, some, arith, contains, Distinct, some_eq, by_dec, lt→ltb,
}
use ringcache.Base.Int.{ℤ, pos, negsuc, ltb_ℤ}
use ringcache.Go.Sort.{sort}
use ringcache.Go.Text.{Text, text_dec, text_ltb}
use ringcache.Node.{Node, Config, validate_key, validate_value, get_payload}
use ringcache.Node.Fanout.{reported}
use ringcache.Node.Handlers.{
  json, WriteResp, handle_get, handle_set, set_at_owners, stamp, read_loop, is_get, is_write,
}
use ringcache.Node.Invariant.{
  IsValid, Same, Same-trans, collect-Same, with_store, read_repair-Keeps,
}
use ringcache.Node.Local.{write_all_local, collect-store, prefer_local-first}
use ringcache.Node.Peers.{
  World, http_put, http_get, KvBody, write_local, collect, fanout, read_owner, read_local,
  to_duration, present,
}
use ringcache.Ring
use ringcache.Ring.Owners.{owners_lem}
use ringcache.Store.Invariant
use ringcache.Store.{Store, Entry, expiry}
use ringcache.Store
use ringcache.Store.Reads.{get-set}
use ringcache.Store.Refine.{get-Refines}
use ringcache.Store.Admit.{set-Refines}
use mathlib.Core.List.{Perm}

-- The entry that a body stands for when it is written at `now`.
abbrev pub written : ℕ → KvBody → Entry
written now body = record {
  value = body.value;
  expires_at = expiry now (to_duration body.ttl_ms);
  written_at = body.written_at;
}

pub handle_set_put :
    (w : World) (unix_nano : ℕ) (n : Node) (body : KvBody)
    → validate_key body.key ≡ none
    → validate_value body.value ≡ none
    → ltb_ℤ body.ttl_ms (pos 0) ≡ false
    → handle_set w unix_nano n http_put (some body) ≡ set_at_owners w n (stamp unix_nano body)
unfolding handle_set is_write
handle_set_put w unix_nano n body k v t = rw (k, handle_set, v, handle_set, t, handle_set) refl

no_owners : (r : Ring.Ring) (key : Text) (k : ℕ) → Ring.owners r key (negsuc k) ≡ some []
unfolding Ring.owners
no_owners r key k = ground arith

pub owners-Distinct :
    (n : Node) (key : Text) (r : ℤ) (os : List Text)
    → IsValid n
    → Ring.owners n.ring key r ≡ some os
    → Distinct text_dec os
owners-Distinct n key (negsuc r) os v e =
    subst (Distinct text_dec) (some_eq (sym (no_owners n.ring key r) ∙ e)) tt
owners-Distinct n key (pos r) os v e =
    let (os', e', d, _, _) = owners_lem n.ring key r v.ring_valid in
    subst (Distinct text_dec) (some_eq (sym e' ∙ e)) d

-- A write that an owner of the key makes, and that its own store takes.
module _ (w : World) (n : Node) (body : KvBody) (owners : List Text) (s : Store) (v : IsValid n)
    (owned : Ring.owners n.ring body.key n.cfg.replicas ≡ some owners)
    (local : contains text_dec n.cfg.id owners ≡ true)
    (taken : Store.set n.store
        (w.asked n.cfg.id)
        body.key
        body.value
        (to_duration body.ttl_ms)
        body.written_at
      ≡ some (s, true))
    (arrives : (rs : List (Text × Bool)) → Perm (w.arrival rs) rs) where
  fanout_local :
      (m : Node) × (acked : ℕ) × (failed : List Text) × (fanout w n http_put owners body
        ≡ some (m, (acked, failed)))
      × (1 ≤ acked)
      × Same n m
      × (m.store ≡ s)
  unfolding fanout write_local
  fanout_local =
      let (s', e, _, u) =
        set-Refines n.store (w.asked n.cfg.id) body.key body.value (to_duration body.ttl_ms)
          body.written_at v.store_valid in
      let stored : s' ≡ s = ap (λ (r : Store × Bool). r.0) (some_eq (sym e ∙ taken)) in
      let here : write_local (w.asked n.cfg.id) n http_put body
          ≡ some (record n { store = s }, true) =
        rw (taken, write_local) refl in
      let wrote = with_store n s v (subst Invariant.IsValid stored u) in
      let (rs, f, some_acked) =
        write_all_local w http_put body w.asked n (record n { store = s }) owners
          (owners-Distinct n body.key n.cfg.replicas owners v owned) local here refl in
      let (counted, _) = reported w rs (record n { store = s }) (arrives rs) in
      (
        (collect w (record n { store = s }) (w.arrival rs) 0 []).0,
        (collect w (record n { store = s }) (w.arrival rs) 0 []).1,
        sort text_ltb (collect w (record n { store = s }) (w.arrival rs) 0 []).2,
        rw (f, fanout) refl,
        omega (arith, counted, some_acked),
        Same-trans n _ _ wrote
            (collect-Same w (w.arrival rs) (record n { store = s }) 0 [] wrote.valid),
        collect-store w (w.arrival rs) (record n { store = s }) 0 [],
      )

  set_local :
      (m : Node) × (r : WriteResp) × (set_at_owners w n body ≡ some (m, json 200 r))
      × Same n m
      × (m.store ≡ s)
  unfolding set_at_owners
  set_local =
      let (m, acked, failed, e, some_acked, same, stored) = fanout_local in
      let r : WriteResp = record {
        key = body.key;
        acked = acked;
        replicas = owners;
        failed = failed;
      } in
      (
        m,
        r,
        rw (owned, set_at_owners, e, set_at_owners, lt→ltb 0 acked some_acked) refl,
        same,
        stored,
      )

pub read_owner_local :
    (w : World) (n : Node) (key : Text) (ent : Entry) (s : Store)
    → Store.get n.store (w.asked n.cfg.id) key ≡ some (s, some ent)
    → read_owner w n n.cfg.id key ≡ some (record n { store = s }, present ent)
unfolding read_owner read_local
read_owner_local w n key ent s there =
    by_dec (λ o. o ≡ some (record n { store = s }, present ent)) (text_dec n.cfg.id n.cfg.id)
      (λ _. rw (there, read_local) refl) (λ ne. absurd (ne refl))

-- The first read of an owner that has the entry.
get_local :
    (w : World) (n : Node) (key : Text) (owners : List Text) (ent : Entry) (s : Store)
    → IsValid n
    → validate_key key ≡ none
    → Ring.owners n.ring key n.cfg.replicas ≡ some owners
    → contains text_dec n.cfg.id owners ≡ true
    → Store.get n.store (w.asked n.cfg.id) key ≡ some (s, some ent)
    → (m : Node) × (handle_get w n http_get key
        ≡ some (m, json 200 (get_payload w.replying key n.cfg.id ent)))
unfolding handle_get is_get read_loop contains
get_local w n key [] ent s v k owned local there = absurd (ground arith)
get_local w n key (o ∷ os) ent s v k owned local there =
    let (rest, first) = prefer_local-first (o ∷ os) n.cfg.id local in
    let (s', e, _, u) = get-Refines n.store (w.asked n.cfg.id) key v.store_valid in
    let stored : s' ≡ s = ap (λ (r : Store × Option Entry). r.0) (some_eq (sym e ∙ there)) in
    let same = with_store n s v (subst Invariant.IsValid stored u) in
    let (m, _, f, _) =
      read_repair-Keeps w (record n { store = s }) key ent (o ∷ os) n.cfg.id same.valid in
    let turn = read_owner_local w n key ent s there in
    (m, rw (k, handle_get, owned, handle_get, first, read_loop, turn, read_loop, f, read_loop) refl)

-- Read your writes. At a valid node that owns the key, for a PUT with a valid key and value and
-- a ttl that is not negative, which the local store takes: it is answered with 200, and a read
-- there right after it with the written entry, if that has no expiry or its time is not over;
-- whatever the other owners do, as long as each result arrives once.
pub handle_get-handle_set :
    (w later : World) (unix_nano : ℕ) (n : Node) (body : KvBody) (owners : List Text) (s : Store)
    → IsValid n
    → validate_key body.key ≡ none
    → validate_value body.value ≡ none
    → ltb_ℤ body.ttl_ms (pos 0) ≡ false
    → Ring.owners n.ring body.key n.cfg.replicas ≡ some owners
    → contains text_dec n.cfg.id owners ≡ true
    → let stamped = stamp unix_nano body in
      let now = w.asked n.cfg.id in
      let ends = expiry now (to_duration body.ttl_ms) in
      Store.set n.store now body.key body.value (to_duration body.ttl_ms) stamped.written_at
        ≡ some (s, true)
      → ((rs : List (Text × Bool)) → Perm (w.arrival rs) rs)
      → (ends ≡ 0) ⊎ (later.asked n.cfg.id < ends)
      → (m : Node) × (l : Node) × (r : WriteResp) × (handle_set w unix_nano n http_put (some body)
          ≡ some (m, json 200 r))
        × (handle_get later m http_get body.key
            ≡ some
                (l, json 200 (get_payload later.replying body.key n.cfg.id (written now stamped))))
handle_get-handle_set w later unix_nano n body owners s v k x t owned local taken arrives live =
    let stamped = stamp unix_nano body in
    let now = w.asked n.cfg.id in
    let (m, r, e, same, stored) = set_local w n stamped owners s v owned local taken arrives in
    let (u, found) =
      get-set n.store s now (later.asked n.cfg.id) body.key body.value (to_duration body.ttl_ms)
        stamped.written_at v.store_valid taken live in
    let owned' : Ring.owners m.ring body.key m.cfg.replicas ≡ some owners =
      ap₂ (λ ring cfg. Ring.owners ring body.key cfg.replicas) same.ring_same same.cfg_same
      ∙ owned in
    let local' =
      subst (λ (cfg : Config). contains text_dec cfg.id owners ≡ true) (sym same.cfg_same) local in
    let found' : Store.get m.store (later.asked m.cfg.id) body.key
        ≡ some (u, some (written now stamped)) =
      ap₂ (λ st cfg. Store.get st (later.asked cfg.id) body.key) stored same.cfg_same ∙ found in
    let (l, g) =
      get_local later m body.key owners (written now stamped) u same.valid k owned' local' found' in
    (
      m,
      l,
      r,
      handle_set_put w unix_nano n body k x t ∙ e,
      g
          ∙ ap
              (λ cfg.
                some
                  (l, json 200 (get_payload later.replying body.key cfg.id (written now stamped))))
              same.cfg_same,
    )
