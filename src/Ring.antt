-- ===== src/Ring.antt =====
-- internal/ring/ring.go: the consistent-hash ring. The mutex makes each method one step; a panic
-- of an index out of range is `none`. `nodes` lists the map's keys in the order that `range` takes.
pub mod Order
pub mod Names
pub mod Build
pub mod Walk
pub mod Clockwise
pub mod Preference
pub mod Owners
pub mod Remap
mod Tests
use ringcache.Base.{
  ℕ, zero, suc, ◌+◌, Bool, true, false, ◌||◌, List, [], ◌∷◌, ◌++◌, Option, none, some, ite, ltb,
  leb, ◌==◌, if◌then◌else◌, length, get_elem?, contains, erase,
}
use ringcache.Base.Int.{ℤ, pos, pos_part, ltb_ℤ}
use ringcache.Go.Fnv.{sum32a}
use ringcache.Go.Search.{search}
use ringcache.Go.Sort.{sort}
use ringcache.Go.Text.{Text, text_dec, text_ltb, itoa}

pub record Vnode : Type 0 where
  pub hash : ℕ
  pub id : Text

pub record Ring : Type 0 where
  pub vnodes_per_node : ℕ
  pub nodes : List Text
  pub ring : List Vnode

unfoldable pub hash32 : Text → ℕ
hash32 s = sum32a s

-- id#i
unfoldable pub vnode_name : Text → ℕ → Text
vnode_name id i = id ++ b'#' ∷ itoa i

-- `New`: a factor below 1 counts as 1.
unfoldable pub new : ℤ → Ring
new v = record {
  vnodes_per_node = if ltb_ℤ v (pos 1) then 1 else pos_part v;
  nodes = [];
  ring = [];
}

-- The inner loop of `rebuildLocked`, from index `i` with `rounds` to go.
unfoldable pub place : ℕ → ℕ → Text → List Vnode
place zero i id = []
place (suc rounds) i id =
    record { hash = hash32 (vnode_name id i); id = id } ∷ place rounds (i + 1) id

-- Its outer loop, over the nodes in map order.
unfoldable pub place_all : ℕ → List Text → List Vnode
unfolding place
place_all v [] = []
place_all v (id ∷ ids) = place v 0 id ++ place_all v ids

unfoldable pub vnode_less : Vnode → Vnode → Bool
vnode_less a b = if a.hash == b.hash then text_ltb a.id b.id else ltb a.hash b.hash

unfoldable pub rebuild : Ring → Ring
rebuild r = record r { ring = sort vnode_less (place_all r.vnodes_per_node r.nodes) }

unfoldable pub add : Ring → Text → Ring
add r id =
    ite (text_dec id []) r
      (if contains text_dec id r.nodes then r else rebuild (record r { nodes = id ∷ r.nodes }))

unfoldable pub remove : Ring → Text → Ring
remove r id =
    if contains text_dec id r.nodes
    then rebuild (record r { nodes = erase text_dec id r.nodes })
    else r

-- `Nodes`
unfoldable pub sorted_nodes : Ring → List Text
sorted_nodes r = sort text_ltb r.nodes

abbrev pub size : Ring → ℕ
size r = length r.nodes

abbrev pub len : Ring → ℕ
len r = length r.ring

-- The test that `Owners` hands to `sort.Search`; the search asks indices below `len` only.
unfoldable pub at_least : List Vnode → ℕ → ℕ → Bool
at_least ring h i = elim (get_elem? ring i) [ none ↦ false | some v ↦ leb h v.hash ]

abbrev pub wrap : List Vnode → ℕ → ℕ
wrap ring i = if i == length ring then 0 else i

-- The loop of `Owners`, with `rounds` = `len(r.ring) - walked`.
unfoldable pub walk : List Vnode → ℕ → ℕ → ℕ → List Text → List Text → Option (List Text)
walk ring n zero i seen out = some out
walk ring n (suc rounds) i seen out = elim (ltb (length out) n) [
  | false ↦ some out
  | true ↦ elim (get_elem? ring i) [
    | none ↦ none
    | some v ↦ elim (contains text_dec v.id seen) [
      | true ↦ walk ring n rounds (wrap ring (i + 1)) seen out
      | false ↦ walk ring n rounds (wrap ring (i + 1)) (v.id ∷ seen) (out ++ v.id ∷ [])
    ]
  ]
]

-- The index at which the walk begins.
unfoldable pub start : List Vnode → ℕ → ℕ
start ring h = wrap ring (search (length ring) (at_least ring h))

unfoldable pub owners : Ring → Text → ℤ → Option (List Text)
owners r key n =
    if ltb_ℤ n (pos 1) || len r == 0 || size r == 0
    then some []
    else walk r.ring (if ltb_ℤ (pos (size r)) n then size r else pos_part n) (len r)
        (start r.ring (hash32 key)) [] []

-- `Primary`: the first owner, or "".
unfoldable pub primary : Ring → Text → Option Text
primary r key = elim (owners r key (pos 1)) [
  | none ↦ none
  | some [] ↦ some []
  | some (o ∷ os) ↦ some o
]
