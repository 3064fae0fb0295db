-- ===== src/Ring/Owners.antt =====
-- What a caller of `Owners` in internal/ring/ring.go may rely on.
use ringcache.Base.{
  ℕ, zero, suc, ◌≡◌, true, List, [], ◌∷◌, some, arith, length, length-take, take, min, contains,
  Distinct,
}
use ringcache.Base.Int.{pos}
use ringcache.Go.Text.{Text, text_dec}
use ringcache.Ring.{Ring, owners, size}
use ringcache.Ring.Build.{IsValid}
use ringcache.Ring.Preference.{
  preference, owners-preference, contains-preference, preference-Distinct, length-preference,
}

contains-take :
    (k : Text) (n : ℕ) (ks : List Text)
    → contains text_dec k (take n ks) ≡ true
    → contains text_dec k ks ≡ true
unfolding contains
contains-take k zero ks h = cc
contains-take k (suc n) [] h = cc
contains-take k (suc n) (j ∷ ks) h = ground (arith, contains-take k n ks)

take-Distinct : (n : ℕ) (ks : List Text) → Distinct text_dec ks → Distinct text_dec (take n ks)
take-Distinct zero ks d = tt
take-Distinct (suc n) [] d = tt
take-Distinct (suc n) (k ∷ ks) d = (ground (arith, contains-take k n ks), take-Distinct n ks d.1)

-- On a valid ring, for a count of 0 or more, `Owners` returns without a panic: distinct nodes of
-- the ring, as many as were asked for, or all of them if there are fewer.
pub owners_lem :
    (r : Ring) (key : Text) (n : ℕ)
    → IsValid r
    → (os : List Text) × (owners r key (pos n) ≡ some os)
      × Distinct text_dec os
      × ((k : Text) → contains text_dec k os ≡ true → contains text_dec k r.nodes ≡ true)
      × (length os ≡ min n (size r))
owners_lem r key n valid = (
  take n (preference r key),
  owners-preference r key valid n,
  take-Distinct n (preference r key) (preference-Distinct r key valid),
  λ k h. ground (arith, contains-take k n (preference r key) h, contains-preference r key valid k),
  ground (arith, length-take n (preference r key), length-preference r key valid),
)
