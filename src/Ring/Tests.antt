-- ===== src/Ring/Tests.antt =====
-- Runs of internal/ring/ring.go, and its theorems at concrete rings.
use mathlib.Core.List.Perm
use ringcache.Base.{
  ◌≡◌, ◌≢◌, ◌⊎◌, refl, true, false, List, [], ◌∷◌, some, min, take, length, contains, erase,
  Distinct, ℕ_discrete,
}
use ringcache.Base.Int.{pos, negsuc}
use ringcache.Go.Fnv.{sum32a}
use ringcache.Go.Search.{search}
use ringcache.Go.Sort.{sort, insert}
use ringcache.Go.Text.{Text, text_dec, text_ltb, itoa}
use ringcache.Ring.{
  Ring, new, add, remove, rebuild, place, place_all, vnode_less, vnode_name, hash32, owners,
  primary, walk, start, at_least, size,
}
use ringcache.Ring.Build.{joins, run, IsValid, run-new-IsValid, ring_perm}
use ringcache.Ring.Owners.{owners_lem}
use ringcache.Ring.Preference.{preference, owners-preference}
use ringcache.Ring.Remap.{owners-remove, primary-add}

-- What the runs below compute with.
program : Unit {0}
unfolding sum32a search sort insert text_dec text_ltb itoa new add remove rebuild place place_all
    vnode_less vnode_name hash32 owners primary walk start at_least run contains erase ℕ_discrete
program = tt

abbrev node_a : Text
node_a = b'a' ∷ []

abbrev node_b : Text
node_b = b'b' ∷ []

abbrev key_1 : Text
key_1 = b'k' ∷ []

abbrev two : Ring
two = run (new (pos 2)) (joins node_a ∷ joins node_b ∷ [])

-- The published test vector of FNV-1a for "a".
hash_of_a : hash32 node_a ≡ 0xE40C292C
unfolding program
hash_of_a = refl

hash_of_foobar : hash32 (b'f' ∷ b'o' ∷ b'o' ∷ b'b' ∷ b'a' ∷ b'r' ∷ []) ≡ 0xBF9CF968
unfolding program
hash_of_foobar = refl

owner_of_key_1 : owners two key_1 (pos 1) ≡ some (node_a ∷ [])
unfolding program
owner_of_key_1 = refl

-- `n` above the cluster size, and below 1.
all_owners : owners two key_1 (pos 9) ≡ some (node_a ∷ node_b ∷ [])
unfolding program
all_owners = refl

no_owners : owners two key_1 (negsuc 0) ≡ some []
unfolding program
no_owners = refl

two-IsValid : IsValid two
two-IsValid = run-new-IsValid (pos 2) (joins node_a ∷ joins node_b ∷ [])

-- The same nodes, joined the other way round.
abbrev owt : Ring
owt = run (new (pos 2)) (joins node_b ∷ joins node_a ∷ [])

owt-IsValid : IsValid owt
owt-IsValid = run-new-IsValid (pos 2) (joins node_b ∷ joins node_a ∷ [])

ring_perm_example : two.ring ≡ owt.ring
unfolding program
ring_perm_example = ring_perm two owt two-IsValid owt-IsValid refl (Perm.swap node_a node_b [])

owners-preference_example : owners two key_1 (pos 2) ≡ some (take 2 (preference two key_1))
owners-preference_example = owners-preference two key_1 two-IsValid 2

owners_lem_example :
    (os : List Text) × (owners two key_1 (pos 1) ≡ some os)
    × Distinct text_dec os
    × ((k : Text) → contains text_dec k os ≡ true → contains text_dec k two.nodes ≡ true)
    × (length os ≡ min 1 (size two))
owners_lem_example = owners_lem two key_1 1 two-IsValid

abbrev node_c : Text
node_c = b'c' ∷ []

c_named : node_c ≢ []
c_named e = cc

c_absent : contains text_dec node_c two.nodes ≡ false
unfolding program
c_absent = refl

b_other : contains text_dec node_b (node_a ∷ []) ≡ false
unfolding program
b_other = refl

owners-remove_example : owners (remove two node_b) key_1 (pos 1) ≡ some (node_a ∷ [])
owners-remove_example =
    owners-remove two node_b key_1 1 (node_a ∷ []) two-IsValid owner_of_key_1 b_other

primary-add_example :
    (primary (add two node_c) key_1 ≡ some node_c)
    ⊎ (primary (add two node_c) key_1 ≡ primary two key_1)
primary-add_example = primary-add two node_c key_1 two-IsValid c_named c_absent
