-- ===== src/Store/Reads.antt =====
-- What a `Get` of internal/store/store.go returns: never an expired entry, and what was set last.
use ringcache.Base.Int.{ℤ}
use ringcache.Base.{
  ℕ, ◌<◌, ◌≡◌, ◌⊎◌, refl, sym, List, [], ◌∷◌, ap, ◌∙◌, Bool, true, false, Option, none, some, arith,
  some_eq, subst,
}
use ringcache.Go.Text.{Text}
use ringcache.Store.{Store, Item, Entry, get, set, delete_key, is_expired, expiry, entry_of}
use ringcache.Store.Admit.{set-Refines}
use ringcache.Store.Invariant.{IsValid}
use ringcache.Store.Lru.{Cache}
use ringcache.Store.Lru
use ringcache.Store.Refine.{view, Refines, get-Refines, delete_key-Refines}

-- What a call that implements the specification has returned.
pub Refines-inv :
    {R : Type 0} (o : Option (Store × R)) (c : Cache × R) (s : Store) (r : R)
    → Refines o c
    → o ≡ some (s, r)
    → (view s ≡ c.0) × (r ≡ c.1) × IsValid s
Refines-inv o c s r (t, e, seen, v) h =
    let same = some_eq (sym h ∙ e) in
    (ap (λ p. view p.0) same ∙ seen, ap (λ p. p.1) same, subst IsValid (sym (ap (λ p. p.0) same)) v)

fresh_entry :
    (c : Cache) (now : ℕ) (k : Text) (en : Entry)
    → (Lru.get c now k).1 ≡ some en
    → (en.expires_at ≡ 0) ⊎ (now < en.expires_at)
unfolding Lru.get Lru.get_found is_expired
fresh_entry c now k en h = ground arith

-- A `Get` of a valid store never returns an entry whose time is over.
pub get-live :
    (s t : Store) (now : ℕ) (k : Text) (en : Entry)
    → IsValid s
    → get s now k ≡ some (t, some en)
    → (en.expires_at ≡ 0) ⊎ (now < en.expires_at)
get-live s t now k en v h =
    let (_, reply, _) =
      Refines-inv (get s now k) (Lru.get (view s) now k) t (some en) (get-Refines s now k v) h in
    fresh_entry (view s) now k en (sym reply)

find-set :
    (c : Cache) (it : Item)
    → (Lru.set c it).1 ≡ true
    → Lru.find it.key (Lru.set c it).0.entries ≡ some it
unfolding Lru.set Lru.find Lru.replace Lru.admit
find-set c it h = ground arith

get-found :
    (c : Cache) (now : ℕ) (k : Text) (it : Item)
    → Lru.find k c.entries ≡ some it
    → is_expired it now ≡ false
    → (Lru.get c now k).1 ≡ some (entry_of it)
unfolding Lru.get Lru.get_found
get-found c now k it at live = ground arith

-- A `Set` of a valid store that was applied is what the next `Get` of the key returns, if it has
-- no expiry or its time is not over.
pub get-set :
    (s t : Store) (now later : ℕ) (k x : Text) (ttl w : ℤ)
    → IsValid s
    → set s now k x ttl w ≡ some (t, true)
    → (expiry now ttl ≡ 0) ⊎ (later < expiry now ttl)
    → (u : Store) × (get t later k
        ≡ some (u, some (record { value = x; expires_at = expiry now ttl; written_at = w })))
unfolding is_expired
get-set s t now later k x ttl w v h live =
    let it : Item = record { key = k; value = x; expires_at = expiry now ttl; written_at = w } in
    let (seen, reply, valid) =
      Refines-inv (set s now k x ttl w) (Lru.set (view s) it) t true (set-Refines s now k x ttl w v)
        h in
    let (u, e, _, _) = get-Refines t later k valid in
    let at : Lru.find k (view t).entries ≡ some it =
      ap (λ (c : Cache). Lru.find k c.entries) seen ∙ find-set (view s) it (sym reply) in
    (u, e ∙ ap (λ r. some (u, r)) (get-found (view t) later k it at (ground arith)))

find-without_self : (k : Text) (es : List Item) → Lru.find k (Lru.without k es) ≡ none
unfolding Lru.find Lru.without
find-without_self k [] = refl
find-without_self k (it ∷ es) = ground (arith, find-without_self k es)

find-delete : (c : Cache) (k : Text) → Lru.find k (Lru.delete c k).0.entries ≡ none
unfolding Lru.delete
find-delete c k = ground (arith, find-without_self k c.entries)

get-absent :
    (c : Cache) (now : ℕ) (k : Text) → Lru.find k c.entries ≡ none → (Lru.get c now k).1 ≡ none
unfolding Lru.get
get-absent c now k h = rw (h, Lru.get) refl

-- A key that was deleted from a valid store is not found, at any time.
pub get-delete_key :
    (s t : Store) (ok : Bool) (k : Text) (later : ℕ)
    → IsValid s
    → delete_key s k ≡ some (t, ok)
    → (u : Store) × (get t later k ≡ some (u, none))
get-delete_key s t ok k later v e =
    let (seen, _, valid) =
      Refines-inv (delete_key s k) (Lru.delete (view s) k) t ok (delete_key-Refines s k v) e in
    let (u, g, _, _) = get-Refines t later k valid in
    (
      u,
      g
          ∙ ap (λ r. some (u, r))
              (get-absent (view t) later k
                (ap (λ (c : Cache). Lru.find k c.entries) seen ∙ find-delete (view s) k)),
    )
