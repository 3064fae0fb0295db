-- ===== src/Ring/Names.antt =====
-- The identity `id#i` of a virtual node, `VNodeName` of internal/ring/ring.go.
use ringcache.Base.{ℕ, ◌≡◌, ◌≢◌, arith, All, All-map}
use ringcache.Go.Text.{Text, IsDigit, itoa, itoa_injective, itoa-digits, split_unique}
use ringcache.Ring.{vnode_name}

itoa-no_hash : (i : ℕ) → All (λ c. c ≢ b'#') (itoa i)
itoa-no_hash i =
    All-map IsDigit (λ c. c ≢ b'#') (λ (c : ℕ) (h : IsDigit c). ground arith) (itoa i)
      (itoa-digits i)

-- Two virtual nodes have one name only if they are the same index of the same physical node, also
-- when the ids themselves hold a `#`.
pub vnode_name_injective :
    (a b : Text) (i j : ℕ) → vnode_name a i ≡ vnode_name b j → (a ≡ b) × (i ≡ j)
unfolding vnode_name
vnode_name_injective a b i j e =
    let (ids, digits) =
      split_unique b'#' a b (itoa i) (itoa j) (itoa-no_hash i) (itoa-no_hash j) e in
    (ids, itoa_injective i j digits)
