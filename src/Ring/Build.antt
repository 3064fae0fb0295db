-- ===== src/Ring/Build.antt =====
-- What `New`, `Add`, `Remove` and `rebuildLocked` of internal/ring/ring.go keep true of the ring.
use mathlib.Core.List.{Perm, Perm-prop, perm_append_comm}
use mathlib.Core.List.Permᴰ.{Permᴰ}
use mathlib.Core.Logic.{∥∥₁_elim}
use mathlib.Core.List.Perm
use ringcache.Base.{
  ℕ, ◌≤◌, ◌≡◌, sym, ap, ◌∙◌, false, List, [], ◌∷◌, arith, contains, Distinct, erase-Distinct,
  contains_of_erase, append_assoc,
}
use ringcache.Base.Int.{ℤ}
use ringcache.Go.Sort.{sort, sort_perm}
use ringcache.Go.Text.{Text, text_dec}
use ringcache.Ring.{Ring, new, add, remove, rebuild, place, place_all, vnode_less}
use ringcache.Ring.Order.{vnode_less-IsOrder, Vnode-set}

pub record IsValid (r : Ring) : Type 0 where
  pub factor : 1 ≤ r.vnodes_per_node
  pub distinct : Distinct text_dec r.nodes
  pub named : contains text_dec [] r.nodes ≡ false
  pub placed : r.ring ≡ sort vnode_less (place_all r.vnodes_per_node r.nodes)

pub new-IsValid : (v : ℤ) → IsValid (new v)
unfolding new contains sort place_all
new-IsValid v = ground arith

pub add-IsValid : (r : Ring) (id : Text) → IsValid r → IsValid (add r id)
unfolding add rebuild contains
add-IsValid r id h = ground arith

pub remove-IsValid : (r : Ring) (id : Text) → IsValid r → IsValid (remove r id)
unfolding remove rebuild
remove-IsValid r id h =
    ground (arith, erase-Distinct text_dec id r.nodes, contains_of_erase text_dec id [] r.nodes)

place_all_permᴰ : (v : ℕ) {xs ys : List Text} → Permᴰ xs ys → Perm (place_all v xs) (place_all v ys)
unfolding place_all
place_all_permᴰ v Permᴰ.nil = Perm.nil
place_all_permᴰ v (Permᴰ.cons {a} {l₁} {l₂} e d) =
    rw (← e) (Perm.append (Perm.refl (place v 0 a)) (place_all_permᴰ v d))
place_all_permᴰ v (Permᴰ.swap {a} {b} {l} e f) =
    rw (← e, ← f, ← append_assoc, ← append_assoc)
      (Perm.append (perm_append_comm (place v 0 a) (place v 0 b)) (Perm.refl (place_all v l)))
place_all_permᴰ v (Permᴰ.trans d e) = Perm.trans (place_all_permᴰ v d) (place_all_permᴰ v e)

-- Two valid rings with the same factor, whose nodes are the same in any order, have the same
-- virtual nodes in the same places: the order in which the map is read does not matter.
pub ring_perm :
    (r s : Ring)
    → IsValid r
    → IsValid s
    → r.vnodes_per_node ≡ s.vnodes_per_node
    → Perm r.nodes s.nodes
    → r.ring ≡ s.ring
ring_perm r s v w e p =
    v.placed
    ∙ ap (λ n. sort vnode_less (place_all n r.nodes)) e
    ∙ sort_perm vnode_less-IsOrder Vnode-set
        (∥∥₁_elim p Perm-prop (place_all_permᴰ s.vnodes_per_node))
    ∙ sym w.placed

pub data Change : Type 0 where
  joins leaves : Text → Change

unfoldable pub step : Ring → Change → Ring
step r (joins id) = add r id
step r (leaves id) = remove r id

unfoldable pub run : Ring → List Change → Ring
unfolding step
run r [] = r
run r (c ∷ cs) = run (step r c) cs

run-IsValid : (r : Ring) (cs : List Change) → IsValid r → IsValid (run r cs)
unfolding run
run-IsValid r [] v = v
run-IsValid r (joins id ∷ cs) v = run-IsValid (add r id) cs (add-IsValid r id v)
run-IsValid r (leaves id ∷ cs) v = run-IsValid (remove r id) cs (remove-IsValid r id v)

-- After any joins and leaves the ring holds the sorted virtual nodes of a set of named nodes.
pub run-new-IsValid : (v : ℤ) (cs : List Change) → IsValid (run (new v) cs)
run-new-IsValid v cs = run-IsValid (new v) cs (new-IsValid v)
