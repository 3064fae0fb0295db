-- ===== src/Command/Start.antt =====
-- The start of cmd/ringcache/main.go: with which settings a valid node serves.
use ringcache.Base.{
  ℕ, ◌<◌, ◌^◌, ◌≡◌, ◌≢◌, inl, inr, refl, sym, ◌∙◌, ap, subst, true, false, List, [], ◌∷◌, ◌++◌,
  Option, some, arith, All, Distinct, keys, lookup, is_some, by_dec, by_if,
}
use ringcache.Command.{
  Flags, Variables, chosen_id, chosen_listen, chosen_peers, config_of, default_port, localhost,
  normalize_listen, health_port, or_self, parse_peers, parse_config, env_int, parsed, main, Outcome,
  serving,
}
use ringcache.Command.Render.{render, IsPlain, parse_peers-render}
use ringcache.Base.Int.{ℤ, pos}
use ringcache.Go.Atoi.{atoi-itoa}
use ringcache.Go.Split.{from_last, from_last-cases, has_prefix}
use ringcache.Go.Text.{Text, text_dec, itoa, itoa-ne_nil}
use ringcache.Go.Trim.{trim_space}
use ringcache.Node.{Node, Config, build, defaults}
use ringcache.Node
use ringcache.Node.Invariant.{IsValid}
use ringcache.Node.Membership.{new-IsValid}

default_port_port : from_last b':' default_port ≡ some default_port
unfolding from_last
default_port_port = refl

-- The health check asks the port of the address that the node gives its single-node peer: the
-- part of the normalized listen address from its last colon on.
pub health_port-normalize_listen :
    (listen : Text) → from_last b':' (normalize_listen listen) ≡ some (health_port listen)
unfolding health_port normalize_listen
health_port-normalize_listen listen = elim (from_last-cases b':' listen) [
  | inl (e, f) ↦ rw (e, f, normalize_listen, health_port) default_port_port
  | inr (t, e, f) ↦ rw (e) (
      by_if (λ l. from_last b':' l ≡ some (b':' ∷ t)) (has_prefix listen (b':' ∷ [])) (λ _. e)
        (λ _. f))
]

new-some :
    (cfg : Config)
    → cfg.id ≢ []
    → is_some (lookup text_dec cfg.id cfg.peers) ≡ true
    → Node.new cfg ≡ some (build (defaults cfg))
unfolding Node.new
new-some cfg named listed = ground arith

peers-build : (cfg : Config) → (build (defaults cfg)).peers ≡ cfg.peers
unfolding build defaults
peers-build cfg = refl

-- A variable that holds a number below 2^63 in decimal stands for it.
env_int-itoa : (n : ℕ) (def : ℤ) → n < 2 ^ 63 → env_int (itoa n) def ≡ pos n
unfolding env_int
env_int-itoa n def small =
    by_dec (λ (x : ℤ). x ≡ pos n) (text_dec (itoa n) []) (λ e. absurd (itoa-ne_nil n e))
      (λ _. rw (atoi-itoa n small, env_int) refl)

-- A command that serves, with these peers.
abbrev pub Serves : Outcome → (List (Text × Text) → Type 0) → Type 0
Serves o P = (n : Node) × (o ≡ serving n) × IsValid n × P n.peers

main_serves :
    (fetch : Text → Option ℕ) (f : Flags) (v : Variables) (cfg : Config)
    (P : List (Text × Text) → Type 0)
    → f.healthcheck ≡ false
    → parse_config f v ≡ parsed cfg
    → cfg.id ≢ []
    → is_some (lookup text_dec cfg.id cfg.peers) ≡ true
    → P cfg.peers
    → Serves (main fetch f v) P
unfolding main
main_serves fetch f v cfg P serve e named listed p =
    let made = new-some cfg named listed in
    (
      build (defaults cfg),
      rw (e, main, serve, made) refl,
      (new-IsValid cfg (build (defaults cfg)) made).0,
      subst P (sym (peers-build cfg)) p,
    )

parse_config-parsed :
    (f : Flags) (v : Variables) (m : List (Text × Text))
    → parse_peers (chosen_peers f v) ≡ parsed m
    → parse_config f v ≡ parsed (config_of f v m)
unfolding parse_config
parse_config-parsed f v m e = rw (e, parse_config) refl

lookup_first :
    (id u : Text) (m : List (Text × Text)) → is_some (lookup text_dec id ((id, u) ∷ m)) ≡ true
unfolding lookup
lookup_first id u m = ground arith

parse_peers_blank : (s : Text) → trim_space s ≡ [] → parse_peers s ≡ parsed []
unfolding parse_peers
parse_peers_blank s e = ground arith

-- Without peers the command serves alone: with an id that is not "", and a text of peers that
-- is blank, `main` starts a valid node whose only peer is itself, at the port it listens on.
pub main-single :
    (fetch : Text → Option ℕ) (f : Flags) (v : Variables)
    → f.healthcheck ≡ false
    → trim_space (chosen_peers f v) ≡ []
    → chosen_id f v ≢ []
    → Serves
        (main fetch f v)
        (λ m. m ≡ (chosen_id f v, localhost ++ normalize_listen (chosen_listen f v)) ∷ [])
main-single fetch f v serve blank named =
    let e = parse_config-parsed f v [] (parse_peers_blank (chosen_peers f v) blank) in
    main_serves fetch f v (config_of f v []) _ serve e named
      (lookup_first (chosen_id f v) (localhost ++ normalize_listen (chosen_listen f v)) []) refl

or_self_listed :
    (id listen : Text) (m : List (Text × Text))
    → is_some (lookup text_dec id m) ≡ true
    → or_self id listen m ≡ m
unfolding lookup
or_self_listed id listen [] h = absurd (ground arith)
or_self_listed id listen (p ∷ m) h = refl

listed-ne_nil :
    (id : Text) (ps : List (Text × Text))
    → All IsPlain ps
    → is_some (lookup text_dec id ps) ≡ true
    → id ≢ []
unfolding lookup
listed-ne_nil id [] h l e = absurd (ground arith)
listed-ne_nil id ((i, u) ∷ ps) h l e = elim (text_dec i id) [
  | yes p ↦ h.0.5 (p ∙ e)
  | no n ↦ listed-ne_nil id ps h.1 (ground arith) e
]

-- A member of a cluster: given as peers the rendering of a list with distinct ids in printed
-- text, among them its own id, `main` starts a valid node, whose peers are those of the list.
pub main-render :
    (fetch : Text → Option ℕ) (f : Flags) (v : Variables) (ps : List (Text × Text))
    → f.healthcheck ≡ false
    → chosen_peers f v ≡ render ps
    → All IsPlain ps
    → Distinct text_dec (keys ps)
    → is_some (lookup text_dec (chosen_id f v) ps) ≡ true
    → Serves (main fetch f v) (λ m. (id : Text) → lookup text_dec id m ≡ lookup text_dec id ps)
main-render fetch f v ps serve given_peers plain distinct listed =
    let (m, parse, _, same) = parse_peers-render ps plain distinct in
    let e = parse_config-parsed f v m (ap parse_peers given_peers ∙ parse) in
    let here = ap is_some (same (chosen_id f v)) ∙ listed in
    let kept = or_self_listed (chosen_id f v) (chosen_listen f v) m here in
    main_serves fetch f v (config_of f v m) _ serve e
      (listed-ne_nil (chosen_id f v) ps plain listed)
      (ap (λ peers. is_some (lookup text_dec (chosen_id f v) peers)) kept ∙ here)
      (λ id. ap (lookup text_dec id) kept ∙ same id)
