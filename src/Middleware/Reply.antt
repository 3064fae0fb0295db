-- ===== src/Middleware/Reply.antt =====
-- What the handler of pkg/ratelimit/middleware.go does with a request, in all cases.
use ringcache.Base.{
  ℕ, ◌+◌, ◌-◌, ◌*◌, ◌<◌, ◌≤◌, ◌≡◌, ◌≢◌, ◌⊎◌, inl, inr, refl, sym, ap, subst, Bool, Bool-cases,
  Option-cases, true, false, List, [], ◌∷◌, ◌++◌, Option, none, some, arith, All, leb, by_if,
  if◌then◌else◌,
}
use ringcache.Base.Int.{ℤ, pos, pos_part, ltb_ℤ}
use ringcache.Go.Text.{Text}
use ringcache.Go.Trim.{trim_slashes}
use ringcache.Middleware.{
  Answer, no_answer, answered, Decision, Outcome, served, too_many, limited, usable, client_take,
  decide, retry_sec,
}
use ringcache.Middleware.Handler.{
  Settings, Gate, Entry, asks, count, acquire, deciding, key_of, ask, at_gate, enter, settled,
  settle, leave,
}

-- Neither a 200 nor a body that is a decision.
abbrev pub IsSilent : {F : Type 0} → Answer F → Type 0
IsSilent {F} a = (d : Decision F) → a ≢ answered 200 (some d)

-- The first address with a decision, behind others that gave none.
pub record HeardFrom {F : Type 0} (send : Text → Answer F) (addrs : List Text) (d : Decision F)
    : Type 0 where
  pub before : List Text
  pub addr : Text
  pub behind : List Text
  pub order : addrs ≡ before ++ addr ∷ behind
  pub silent : All (λ a. IsSilent (send (trim_slashes a))) before
  pub heard : send (trim_slashes addr) ≡ answered 200 (some d)

-- The milliseconds in whole seconds, rounded up, and 1 at least.
pub record IsWait (ms : ℤ) (secs : ℕ) : Type 0 where
  pub positive : 1 ≤ secs
  pub enough : pos_part ms ≤ secs * 1000
  pub least : 1 < secs → (secs - 1) * 1000 < pos_part ms

-- The cap of the key is reached, or there is none, or room.
abbrev pub IsFull : {F : Type 0} → Settings F → Text → Gate → Type 0
IsFull st key g = (1 ≤ pos_part st.max_in_flight) × (pos_part st.max_in_flight ≤ count key g.counts)

abbrev pub HasRoom : {F : Type 0} → Settings F → Text → Gate → Type 0
HasRoom st key g =
    (pos_part st.max_in_flight ≡ 0) ⊎ (count key g.counts < pos_part st.max_in_flight)

-- It goes on to ask: nothing is disabled, and there is room, or it is a dry run.
abbrev pub GoesOn : {F : Type 0} → Settings F → Text → Gate → Type 0
GoesOn st key g = (st.disabled ≡ false) × (HasRoom st key g ⊎ (st.dry_run ≡ true))

-- What becomes of a request with the key that meets the gate `g`, where `send` has the answers of
-- the cluster, with the number of failures to decide before and after it.
pub data Handled {F : Type 0} (st : Settings F) (send : Text → Answer F) (key : Text) (g : Gate)
    (failures : ℕ) : ℕ → Outcome → Type 0 where
  off : st.disabled ≡ true → Handled st send key g failures failures served
  full :
      st.disabled ≡ false
      → st.dry_run ≡ false
      → IsFull st key g
      → Handled st send key g failures failures too_many
  no_client : GoesOn st key g → st.client ≡ none → Handled st send key g failures failures served
  failed :
      {addrs : List Text}
      → GoesOn st key g
      → st.client ≡ some addrs
      → All (λ a. IsSilent (send (trim_slashes a))) addrs
      → Handled st send key g failures (failures + 1) served
  allowed :
      {addrs : List Text} {d : Decision F}
      → GoesOn st key g
      → st.client ≡ some addrs
      → HeardFrom send addrs d
      → (d.allowed ≡ true) ⊎ (st.dry_run ≡ true)
      → Handled st send key g failures failures served
  refused :
      {addrs : List Text} {d : Decision F} {secs : ℕ}
      → GoesOn st key g
      → st.client ≡ some addrs
      → HeardFrom send addrs d
      → d.allowed ≡ false
      → st.dry_run ≡ false
      → IsWait d.retry_after_ms secs
      → Handled st send key g failures failures (limited secs)

positive_part : (x : ℤ) → ltb_ℤ (pos 0) x ≡ true → 1 ≤ pos_part x
positive_part x h = ground arith

no_part : (x : ℤ) → ltb_ℤ (pos 0) x ≡ false → pos_part x ≡ 0
no_part x h = ground arith

retry_sec-IsWait : (ms : ℤ) → IsWait ms (retry_sec ms)
unfolding retry_sec
retry_sec-IsWait ms = record {
  positive = ground arith;
  enough = ground arith;
  least = ground arith;
}

module _ {F : Type 0} where
  -- A decision that can be used is that of a 200.
  usable-some : (a : Answer F) (d : Decision F) → usable a ≡ some d → a ≡ answered 200 (some d)
  unfolding usable
  usable-some no_answer d h = absurd (ground arith)
  usable-some (answered status body) d h = ground arith

  usable-none : (a : Answer F) → usable a ≡ none → IsSilent a
  unfolding usable
  usable-none a h d e = absurd (ground arith)

  -- The addresses in turn: none of them decides, or there is a first that does.
  client_take-cases :
      (send : Text → Answer F) (addrs : List Text)
      → ((client_take send addrs ≡ none) × All (λ a. IsSilent (send (trim_slashes a))) addrs)
        ⊎ ((d : Decision F) × (client_take send addrs ≡ some d) × HeardFrom send addrs d)
  unfolding client_take
  client_take-cases send [] = inl (refl, tt)
  client_take-cases send (addr ∷ addrs) = elim (Option-cases (usable (send (trim_slashes addr)))) [
    | inr (d, e) ↦ inr (
      d,
      rw (e, client_take) refl,
      record {
        before = [];
        addr = addr;
        behind = addrs;
        order = refl;
        silent = tt;
        heard = usable-some (send (trim_slashes addr)) d e;
      },
    )
    | inl e ↦
        let quiet = usable-none (send (trim_slashes addr)) e in
        elim (client_take-cases send addrs) [
          | inl (f, all) ↦ inl (rw (e, client_take) f, (quiet, all))
          | inr (d, f, h) ↦ inr (
            d,
            rw (e, client_take) f,
            record {
              before = addr ∷ h.before;
              addr = h.addr;
              behind = h.behind;
              order = ap (◌∷◌ addr) h.order;
              silent = (quiet, h.silent);
              heard = h.heard;
            },
          )
        ]
  ]

module _ {F : Type 0} (st : Settings F) (send : Text → Answer F) (key : Text) (g : Gate) where
  decided-Handled :
      (failures : ℕ) (addrs : List Text) (d : Decision F)
      → GoesOn st key g
      → st.client ≡ some addrs
      → HeardFrom send addrs d
      → Handled st send key g failures failures (decide (deciding st) (some d))
  unfolding decide
  decided-Handled failures addrs d on client heard =
      let H = Handled st send key g failures failures in
      by_if H d.allowed (λ yes_allowed. allowed on client heard (inl yes_allowed))
        (λ denied.
          by_if H st.dry_run (λ dry. allowed on client heard (inr dry))
            (λ wet. refused on client heard denied wet (retry_sec-IsWait d.retry_after_ms)))

  ask-none : (failures : ℕ) → st.client ≡ none → ask st send failures ≡ (failures, served)
  unfolding ask
  ask-none failures e = ground arith

  ask-some :
      (failures : ℕ) (addrs : List Text) (o : Option (Decision F))
      → st.client ≡ some addrs
      → client_take send addrs ≡ o
      → ask st send failures
        ≡ (elim o [ none ↦ failures + 1 | some _ ↦ failures ], decide (deciding st) o)
  unfolding ask
  ask-some failures addrs o e f = ground arith

  ask-Handled :
      (failures : ℕ)
      → GoesOn st key g
      → Handled st send key g failures (ask st send failures).0 (ask st send failures).1
  unfolding decide
  ask-Handled failures on =
      let H : ℕ × Outcome → Type 0 = λ r. Handled st send key g failures r.0 r.1 in
      elim (Option-cases st.client) [
        | inl none_there ↦ subst H (sym (ask-none failures none_there)) (no_client on none_there)
        | inr (addrs, there) ↦ elim (client_take-cases send addrs) [
          | inl (e, silent) ↦
              subst H (sym (ask-some failures addrs none there e)) (failed on there silent)
          | inr (d, e, heard) ↦
              subst H (sym (ask-some failures addrs (some d) there e))
                (decided-Handled failures addrs d on there heard)
        ]
      ]

  leave-failures : (h : Gate) → (leave st key h).fail_open ≡ h.fail_open
  unfolding leave
  leave-failures h = ground arith

  settled-reply :
      (holds : Bool) (h : Gate) (o : ℕ × Outcome)
      → ((settled st key holds h o).0.fail_open ≡ o.0) × ((settled st key holds h o).1 ≡ o.1)
  settled-reply holds h (f, served) = (refl, refl)
  settled-reply true h (f, too_many) = (leave-failures (record h { fail_open = f }), refl)
  settled-reply true h (f, limited secs) = (leave-failures (record h { fail_open = f }), refl)
  settled-reply false h (f, too_many) = (refl, refl)
  settled-reply false h (f, limited secs) = (refl, refl)

  Replies : Gate → Entry → Type 0
  Replies h e =
      let r = settle st send key h e in Handled st send key g h.fail_open r.0.fail_open r.1

  asks-Replies : (h : Gate) (holds : Bool) → GoesOn st key g → Replies h (asks holds)
  unfolding settle Replies
  asks-Replies h holds on =
      let (f, o) = settled-reply holds h (ask st send h.fail_open) in
      rw (f, o) (ask-Handled h.fail_open on)

  -- A request that comes to the gate of its key.
  at_gate-Replies :
      (h : Gate)
      → st.disabled ≡ false
      → 1 ≤ pos_part st.max_in_flight
      → (counts : List (Text × ℕ)) (taken : Bool)
      → (if taken
          then count key g.counts < pos_part st.max_in_flight
          else pos_part st.max_in_flight ≤ count key g.counts)
      → Replies h (at_gate st key g (counts, taken)).1
  unfolding settle Replies
  at_gate-Replies h on capped counts true room = asks-Replies h true (on, inl (inr room))
  at_gate-Replies h on capped counts false no_room =
      by_if (Replies h) st.dry_run (λ dry. asks-Replies h false (on, inr dry))
        (λ wet. full on wet (capped, no_room))

  acquired-Replies :
      (h : Gate)
      → st.disabled ≡ false
      → 1 ≤ pos_part st.max_in_flight
      → Replies h (at_gate st key g (acquire (pos_part st.max_in_flight) key g.counts)).1
  unfolding acquire
  acquired-Replies h on capped =
      let cap = pos_part st.max_in_flight in
      elim (Bool-cases (leb cap (count key g.counts))) [
        | inl no_room ↦
            rw (no_room, acquire) (at_gate-Replies h on capped g.counts false (ground arith))
        | inr room ↦ rw (room, acquire) (at_gate-Replies h on capped g.counts true (ground arith))
      ]

-- What becomes of a request, whatever the settings and the gate are, and whatever the others do
-- to the gate while it waits. It is turned away with 429 exactly if nothing is disabled, it is no
-- dry run, and the cap of its key is reached as it comes in. Otherwise, with a client, the
-- addresses are asked in turn up to the first that decides: if none does, the request is served
-- and counted as a failure; if the decision is to refuse, and it is no dry run, the answer is 429
-- with the time to wait in whole seconds, rounded up and 1 at least. In all other cases it is
-- served.
pub settle-Handled :
    {F : Type 0} (st : Settings F) (send : Text → Answer F) (headers : Text → Text) (g h : Gate)
    → let key = key_of st headers in
      let r = settle st send key h (enter st headers g).1 in
      Handled st send key g h.fail_open r.0.fail_open r.1
unfolding Replies enter settle
settle-Handled st send headers g h =
    let key = key_of st headers in
    by_if (λ (r : Gate × Entry). Replies st send key g h r.1) st.disabled (λ yes_off. off yes_off)
      (λ on.
        by_if (λ (r : Gate × Entry). Replies st send key g h r.1) (ltb_ℤ (pos 0) st.max_in_flight)
          (λ capped. acquired-Replies st send key g h on (positive_part st.max_in_flight capped))
          (λ uncapped.
            asks-Replies st send key g h false (on, inl (inl (no_part st.max_in_flight uncapped)))))
