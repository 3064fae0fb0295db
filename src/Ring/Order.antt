-- ===== src/Ring/Order.antt =====
-- The order by which internal/ring/ring.go sorts the virtual nodes.
use mathlib.Core.HLevel.{hedberg}
use ringcache.Base.{◌≡◌, true, false, arith, ℕ_discrete}
use ringcache.Go.Sort.{IsOrder}
use ringcache.Go.Text.{text_dec, text_ltb-IsOrder}
use ringcache.Ring.{Vnode, vnode_less}

vnode_asymm : (a b : Vnode) → vnode_less a b ≡ true → vnode_less b a ≡ false
unfolding vnode_less
vnode_asymm a b h = ground (arith, text_ltb-IsOrder.asymm a.id b.id)

vnode_trans :
    (a b c : Vnode) → vnode_less b a ≡ false → vnode_less c b ≡ false → vnode_less c a ≡ false
unfolding vnode_less
vnode_trans a b c h k = ground (arith, text_ltb-IsOrder.trans a.id b.id c.id)

vnode_antisymm : (a b : Vnode) → vnode_less a b ≡ false → vnode_less b a ≡ false → a ≡ b
unfolding vnode_less
vnode_antisymm a b h k = ground (arith, text_ltb-IsOrder.antisymm a.id b.id)

pub vnode_less-IsOrder : IsOrder vnode_less
vnode_less-IsOrder = record { asymm = vnode_asymm; trans = vnode_trans; antisymm = vnode_antisymm }

Vnode-discrete : Discrete Vnode
Vnode-discrete = hlevel (ℕ_discrete, text_dec)

pub Vnode-set : IsSet Vnode
Vnode-set = hedberg Vnode-discrete
