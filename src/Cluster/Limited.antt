-- ===== src/Cluster/Limited.antt =====
-- The middleware of pkg/ratelimit/middleware.go in front of a cluster: what its client reads from
-- the reply of a coordinator in internal/node/node.go.
use ringcache.Base.{
  ℕ, ◌≡◌, ◌≢◌, sym, ◌∙◌, ap, false, true, List, [], ◌∷◌, Option, none, some, arith, if◌then◌else◌,
}
use ringcache.Cluster.{address}
use ringcache.Cluster.Quota.{to_primary, handle_take-primary}
use ringcache.Go.Float.{Float}
use ringcache.Go.Text.{Text}
use ringcache.Go.Trim.{trim_slashes}
use ringcache.Middleware.{
  Decision, Answer, no_answer, answered, Config, Outcome, served, limited, usable, client_take,
  retry_sec, decide, over_cap, serve,
}
use ringcache.Node.{Node}
use ringcache.Node.Handlers.{is_write}
use ringcache.Node.Peers.{Method}
use ringcache.Node.Quota.{Body, Reply, refuse, took, relayed, good, parse_body, handle_take}
use ringcache.Ratelimit.{Result, Store, store_take}
use ringcache.Ring

module _ {F : Type 0} where
  -- The JSON of a primary's reply, as the client has it.
  abbrev pub decision : Result F → Text → Decision F
  decision r primary = record {
    allowed = r.allowed;
    remaining = r.remaining;
    retry_after_ms = r.retry_after_ms;
    primary = primary;
    served_by = primary;
  }

  -- What `Client.Take` reads from a reply; `decode` is json.Unmarshal on a body that was relayed,
  -- and the body of an error is no JSON.
  unfoldable pub read_reply : (Text → Option (Decision F)) → Reply F → Answer F
  read_reply decode (refuse status p) = answered status none
  read_reply decode (took r primary) = answered 200 (some (decision r primary))
  read_reply decode (relayed status out) = answered status (decode out)

  unfoldable pub coordinate :
      (Text → Option (Decision F)) → Option (Node × Store F × Reply F) → Answer F
  unfolding read_reply
  coordinate decode none = no_answer
  coordinate decode (some (n, s, r)) = read_reply decode r

  -- What the bucket's answer makes of a request.
  abbrev pub verdict : Config → Result F → Outcome
  verdict cfg r =
      if r.allowed
      then served
      else if cfg.dry_run
      then served
      else limited (retry_sec r.retry_after_ms)

  serve-decided :
      (cfg : Config) (send : Text → Answer F) (count fail_open : ℕ) (addr : Text)
      (addrs : List Text) (r : Result F) (primary : Text)
      → cfg.addrs ≡ some (addr ∷ addrs)
      → cfg.disabled ≡ false
      → over_cap cfg count ≡ false
      → send (trim_slashes addr) ≡ answered 200 (some (decision r primary))
      → serve cfg send count fail_open ≡ (fail_open, verdict cfg r)
  unfolding serve client_take decide usable
  serve-decided cfg send count fail_open addr addrs r primary e on free heard = ground arith

module _ {F : Type 0} (fl : Float F) where
  -- A request is let through exactly as the bucket at the key's primary decides, whichever node
  -- the middleware asks. Where a node and the primary agree on the primary, the node has its URL
  -- and the settings are accepted, and decoding gives back what the primary encoded: a middleware
  -- with the cap free whose first address is the node, and one whose first address is the primary,
  -- both serve the request if the bucket allows it or on a dry run, and otherwise answer 429 with
  -- the time that the bucket names; no failure is counted.
  pub serve-store_take :
      (cfg : Config) (count fail_open : ℕ) (addr : Text) (addrs : List Text)
      (near home : Text → Answer F) (decode : Text → Option (Decision F)) (encode : Reply F → Text)
      (send : Text → Body F → Option (ℕ × Text)) (now heard : ℕ) (n p : Node) (own s : Store F)
      (site : Text) (method : Method) (body b : Body F)
      → cfg.addrs ≡ some (addr ∷ addrs)
      → cfg.disabled ≡ false
      → over_cap cfg count ≡ false
      → ((r : Result F) (primary : Text)
          → decode (encode (took r primary)) ≡ some (decision r primary))
      → is_write method ≡ true
      → parse_body fl (some body) ≡ good b
      → Ring.primary n.ring b.key ≡ some p.cfg.id
      → Ring.primary p.ring b.key ≡ some p.cfg.id
      → p.cfg.id ≢ []
      → p.cfg.id ≢ n.cfg.id
      → address n p.cfg.id ≡ site
      → site ≢ []
      → near (trim_slashes addr)
        ≡ coordinate decode
            (handle_take fl (to_primary fl encode now p s site) now heard n own method (some body))
      → home (trim_slashes addr)
        ≡ coordinate decode (handle_take fl send now heard p s method (some body))
      → let r = (store_take fl s now b.key b.rate b.burst b.cost).1 in
        (serve cfg near count fail_open ≡ (fail_open, verdict cfg r))
        × (serve cfg home count fail_open ≡ (fail_open, verdict cfg r))
  unfolding coordinate read_reply
  serve-store_take cfg count fail_open addr addrs near home decode encode send now heard n p own s
        site method body b e on free round writes parsed found at_home named other at some_url
        asked_near asked_home =
      let (s', r, taken, at_near, _, at_primary) =
        handle_take-primary fl encode send now heard n p own s site method body b writes parsed
          found at_home named other at some_url in
      let near_says =
        asked_near ∙ ap (coordinate decode) at_near ∙ ap (answered 200) (round r p.cfg.id) in
      let home_says = asked_home ∙ ap (coordinate decode) at_primary in
      let same = ap (λ (x : Store F × Result F). (fail_open, verdict cfg x.1)) (sym taken) in
      (
        serve-decided cfg near count fail_open addr addrs r p.cfg.id e on free near_says ∙ same,
        serve-decided cfg home count fail_open addr addrs r p.cfg.id e on free home_says ∙ same,
      )
