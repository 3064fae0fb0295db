-- ===== src/Node/Breaker.antt =====
-- The breaker of internal/node/node.go: `markDown`, `isDown` and the reads that they suspend.
use ringcache.Base.{
  Bool-cases, inl, inr, ℕ, ◌+◌, ◌≡◌, ◌≢◌, refl, sym, ◌∙◌, some, arith, ltb, lookup, delete, put,
  by_dec, lookup-put_self, lookup-put_ne, if◌then◌else◌,
}
use ringcache.Base.Int.{pos_part}
use ringcache.Go.Text.{Text, text_dec}
use ringcache.Node.{Node, mark_down, is_down}
use ringcache.Node.Peers.{World, read_owner, ask, unreached}

pub marked :
    (n : Node) (now : ℕ) (id : Text)
    → id ≢ n.cfg.id
    → mark_down n now id
      ≡ record n { down_until = put text_dec id (now + pos_part n.cfg.break_for) n.down_until }
unfolding mark_down
marked n now id other = ground arith

-- A peer that failed, other than the node itself, is down for `BreakFor` and no longer; that
-- changes nothing for another node.
pub is_down-mark_down :
    (n : Node) (failed now : ℕ) (id other : Text)
    → id ≢ n.cfg.id
    → other ≢ id
    → ((is_down (mark_down n failed id) now id).1 ≡ ltb now (failed + pos_part n.cfg.break_for))
      × ((is_down (mark_down n failed id) now other).1 ≡ (is_down n now other).1)
unfolding is_down
is_down-mark_down n failed now id other peer ne =
    let until = failed + pos_part n.cfg.break_for in
    let own = lookup-put_self text_dec id until n.down_until in
    let rest = lookup-put_ne text_dec id other until n.down_until (λ e. ne (sym e)) in
    rw (marked n failed id peer)
      (rw (own, is_down) (ground arith), rw (rest, is_down) (ground arith))

pub read_owner_peer :
    (w : World) (n : Node) (id key : Text)
    → id ≢ n.cfg.id
    → let (m, down) = is_down n (w.asked id) id in
      read_owner w n id key ≡ some (m, if down then unreached else ask w m id key)
unfolding read_owner
read_owner_peer w n id key peer =
    let (m, down) = is_down n (w.asked id) id in
    by_dec (λ o. o ≡ some (m, if down then unreached else ask w m id key)) (text_dec id n.cfg.id)
      (λ same. absurd (peer same)) (λ _. refl)

-- A read of a peer on the list, before and after its time.
pub read_owner_listed :
    (w : World) (n : Node) (until : ℕ) (id key : Text)
    → id ≢ n.cfg.id
    → lookup text_dec id n.down_until ≡ some until
    → read_owner w n id key ≡ (
        let l = record n { down_until = delete text_dec id n.down_until } in
        if ltb (w.asked id) until then some (n, unreached) else some (l, ask w l id key))
unfolding is_down
read_owner_listed w n until id key peer listed = elim (Bool-cases (ltb (w.asked id) until)) [
  | inl early ↦ rw (early) (read_owner_peer w n id key peer ∙ rw (listed, is_down, early) refl)
  | inr late ↦ rw (late) (read_owner_peer w n id key peer ∙ rw (listed, is_down, late) refl)
]

-- For a peer other than the node itself: a read that starts while the peer is down after a
-- failure fails without a request to the network; one that starts later takes the peer off the
-- list and asks it again.
pub read_owner-mark_down :
    (w : World) (n : Node) (failed : ℕ) (id key : Text)
    → id ≢ n.cfg.id
    → let m = mark_down n failed id in
      let l = record m { down_until = delete text_dec id m.down_until } in
      read_owner w m id key ≡ (
        if ltb (w.asked id) (failed + pos_part n.cfg.break_for)
        then some (m, unreached)
        else some (l, ask w l id key))
read_owner-mark_down w n failed id key peer =
    let until = failed + pos_part n.cfg.break_for in
    let down = put text_dec id until n.down_until in
    rw (marked n failed id peer) (
      read_owner_listed w (record n { down_until = down }) until id key peer
        (lookup-put_self text_dec id until n.down_until))
