-- ===== src/Node/Ttl.antt =====
-- Times to live in internal/node/node.go: milliseconds become an int64 of nanoseconds, and an entry
-- that another node sends keeps its remaining time.
use ringcache.Base.{ℕ, ◌+◌, ◌*◌, ◌≡◌, ◌≤◌, ◌<◌, refl, arith}
use ringcache.Base.Int.{pos, ◌*ℤ◌, ◌+ℤ◌}
use ringcache.Go.Text.{Text}
use ringcache.Go.Words.{mul64, wrap64, of_bits}
use ringcache.Node.{get_payload, ms, ms_until}
use ringcache.Node.Peers.{to_duration, entry_of_resp}
use ringcache.Store.{Entry, expiry}

-- Up to 9223372036854 milliseconds, about 292 years, the duration is the exact product.
pub to_duration_lem : (t : ℕ) → t ≤ 9223372036854 → to_duration (pos t) ≡ pos (t * ms)
unfolding mul64 wrap64 of_bits ◌*ℤ◌
to_duration_lem t h = ground arith

-- From 9223372036855 to 18446744073709 milliseconds the product wraps around to a negative
-- duration, and the entry never expires.
pub expiry-to_duration :
    (now t : ℕ) → 9223372036854 < t → t ≤ 18446744073709 → expiry now (to_duration (pos t)) ≡ 0
unfolding expiry mul64 wrap64 of_bits ◌*ℤ◌
expiry-to_duration now t h k = ground arith

-- An entry with a millisecond left or more, and less than about 292 years, keeps its value and
-- its version over the network; its time moves by the time that the reply takes, less a part of
-- a millisecond.
pub entry_of_resp-get_payload :
    (replying heard : ℕ) (key id : Text) (ent : Entry)
    → replying + ms ≤ ent.expires_at
    → ent.expires_at < replying + 9223372036854 * ms
    → let e = entry_of_resp heard (get_payload replying key id ent) in
      (e.value ≡ ent.value)
      × (e.written_at ≡ ent.written_at)
      × (e.expires_at + replying ≤ ent.expires_at + heard)
      × (ent.expires_at + heard < e.expires_at + replying + ms)
unfolding entry_of_resp get_payload ms_until mul64 wrap64 of_bits ◌*ℤ◌ ◌+ℤ◌
entry_of_resp-get_payload replying heard key id ent h k = (refl, refl, ground arith, ground arith)

-- An entry with less than a millisecond left, but some time, is received as one that never
-- expires.
pub entry_of_resp-last_ms :
    (replying heard : ℕ) (key id : Text) (ent : Entry)
    → replying < ent.expires_at
    → ent.expires_at < replying + ms
    → (entry_of_resp heard (get_payload replying key id ent)).expires_at ≡ 0
unfolding entry_of_resp get_payload ms_until
entry_of_resp-last_ms replying heard key id ent h k = ground arith
