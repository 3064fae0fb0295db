-- ===== src/Middleware/FailOpen.antt =====
-- When the middleware of pkg/ratelimit/middleware.go turns a request away.
use ringcache.Base.{
  ℕ, ◌+◌, ◌≡◌, ◌≤◌, refl, false, not, ◌&&◌, List, [], ◌∷◌, Option, none, some, arith, Bool-cases,
  All, Option-cases, inl, inr,
}
use ringcache.Base.Int.{ℤ}
use ringcache.Go.Text.{Text}
use ringcache.Go.Trim.{trim_slashes}
use ringcache.Middleware.{
  Decision, Answer, Config, served, limited, usable, client_take, retry_sec, decide, over_cap,
  serve,
}

retry_sec-pos : (ms : ℤ) → 1 ≤ retry_sec ms
unfolding retry_sec
retry_sec-pos ms = ground arith

module _ {F : Type 0} where
  decide-limited :
      (cfg : Config) (o : Option (Decision F)) (secs : ℕ)
      → decide cfg o ≡ limited secs
      → (cfg.dry_run ≡ false) × (1 ≤ secs) × ((d : Decision F) × (o ≡ some d) × (d.allowed ≡ false))
  unfolding decide
  decide-limited cfg none secs h = absurd (ground arith)
  decide-limited cfg (some d) secs h =
      (ground arith, ground (arith, retry_sec-pos d.retry_after_ms), (d, refl, ground arith))

  -- The middleware answers 429 with a time to wait only if it is neither disabled nor on a dry
  -- run, has a client, and the first coordinator with a decision refused; the time is a second
  -- or more.
  pub serve-limited :
      (cfg : Config) (send : Text → Answer F) (count fail_open secs : ℕ)
      → (serve cfg send count fail_open).1 ≡ limited secs
      → (cfg.disabled ≡ false)
        × (cfg.dry_run ≡ false)
        × (1 ≤ secs)
        × ((addrs : List Text) × (d : Decision F) × (cfg.addrs ≡ some addrs)
            × (client_take send addrs ≡ some d)
            × (d.allowed ≡ false))
  unfolding serve
  serve-limited cfg send count fail_open secs h = elim (Bool-cases cfg.disabled) [
    | inl off ↦ absurd (ground arith)
    | inr on ↦ elim (Bool-cases (over_cap cfg count && not cfg.dry_run)) [
      | inl full ↦ absurd (ground arith)
      | inr free ↦ elim (Option-cases cfg.addrs) [
        | inl no_client ↦ absurd (ground arith)
        | inr (addrs, e) ↦
            let (dry, wait, (d, found, refused)) =
              decide-limited cfg (client_take send addrs) secs (ground arith) in
            (on, dry, wait, (addrs, d, e, found, refused))
      ]
    ]
  ]

  client_take-none :
      (send : Text → Answer F) (addrs : List Text)
      → All (λ addr. usable (send (trim_slashes addr)) ≡ none) addrs
      → client_take send addrs ≡ none
  unfolding client_take
  client_take-none send [] h = refl
  client_take-none send (addr ∷ addrs) h = rw (h.0, client_take) (client_take-none send addrs h.1)

  -- Fail open: with a client of which no address gives a decision, a request that is not
  -- disabled and that the cap lets pass is served, and counted as a failure to decide.
  pub serve-silent :
      (cfg : Config) (send : Text → Answer F) (count fail_open : ℕ) (addrs : List Text)
      → cfg.addrs ≡ some addrs
      → cfg.disabled ≡ false
      → over_cap cfg count ≡ false
      → All (λ addr. usable (send (trim_slashes addr)) ≡ none) addrs
      → serve cfg send count fail_open ≡ (fail_open + 1, served)
  unfolding serve decide
  serve-silent cfg send count fail_open addrs e on free silent =
      let none_decides = client_take-none send addrs silent in ground arith
