-- ===== src/Command.antt =====
-- cmd/ringcache/main.go: how the command makes a node of its flags and environment. The flags are
-- what `flag.Parse` makes of the arguments; it ends the process itself where it cannot.
pub mod Peers
pub mod Render
pub mod Start
mod Tests
use ringcache.Base.{
  ℕ, Bool, true, false, List, [], ◌∷◌, ◌++◌, Option, none, some, ite, ◌==◌, if◌then◌else◌, put,
}
use ringcache.Base.Int.{ℤ, pos}
use ringcache.Go.Atoi.{atoi}
use ringcache.Go.Split.{split, cut, from_last, has_prefix}
use ringcache.Go.Text.{Text, text_dec}
use ringcache.Go.Trim.{trim_space}
use ringcache.Go.Words.{mul64}
use ringcache.Node.{Node, Config, ms}
use ringcache.Node

-- The variables of the environment, without their prefix `RINGCACHE_`; "" is one that is not set.
pub record Variables : Type 0 where
  pub id : Text
  pub listen : Text
  pub peers : Text
  pub replicas : Text
  pub capacity : Text
  pub vnodes : Text
  pub replica_timeout_ms : Text

-- The flags of the command line; `none` is one that is not given.
pub record Flags : Type 0 where
  pub healthcheck : Bool
  pub id : Option Text
  pub listen : Option Text
  pub peers : Option Text
  pub replicas : Option ℤ
  pub capacity : Option ℤ
  pub vnodes : Option ℤ
  pub replica_timeout_ms : Option ℤ

-- A result, or the error `peer %q: want id=url` with its part.
pub data Parsed (A : Type 0) : Type 0 where
  bad_peer : Text → Parsed A
  parsed : A → Parsed A

abbrev pub given : {A : Type 0} → Option A → A → A
given none x = x
given (some y) x = y

unfoldable pub env : Text → Text → Text
env v def = ite (text_dec v []) def v

unfoldable pub env_int : Text → ℤ → ℤ
env_int v def = elim (text_dec v []) [
  | yes _ ↦ def
  | no _ ↦ elim (atoi v) [ none ↦ def | some n ↦ n ]
]

-- `":8080"`
abbrev pub default_port : Text
default_port = b':' ∷ b'8' ∷ b'0' ∷ b'8' ∷ b'0' ∷ []

unfoldable pub normalize_listen : Text → Text
unfolding has_prefix from_last
normalize_listen listen =
    if has_prefix listen (b':' ∷ [])
    then listen
    else elim (from_last b':' listen) [ none ↦ default_port | some t ↦ t ]

-- An id and a URL, if neither is blank.
unfoldable pub not_blank : Text → Text → Option (Text × Text)
not_blank id url = elim (text_dec id []) [
  | yes _ ↦ none
  | no _ ↦ elim (text_dec url []) [ yes _ ↦ none | no _ ↦ some (id, url) ]
]

-- One part that is not blank, as an id and a URL.
unfoldable pub parse_peer : Text → Option (Text × Text)
unfolding cut not_blank
parse_peer part = elim (cut b'=' part) [
  | none ↦ none
  | some (id, url) ↦ not_blank (trim_space id) (trim_space url)
]

unfoldable pub parse_parts : List Text → List (Text × Text) → Parsed (List (Text × Text))
unfolding parse_peer
parse_parts [] out = parsed out
parse_parts (part ∷ parts) out = elim (text_dec (trim_space part) []) [
  | yes _ ↦ parse_parts parts out
  | no _ ↦ elim (parse_peer (trim_space part)) [
    | none ↦ bad_peer (trim_space part)
    | some (id, url) ↦ parse_parts parts (put text_dec id url out)
  ]
]

unfoldable pub parse_peers : Text → Parsed (List (Text × Text))
unfolding parse_parts split
parse_peers s = elim (text_dec (trim_space s) []) [
  | yes _ ↦ parsed []
  | no _ ↦ parse_parts (split b',' (trim_space s)) []
]

-- `"node-a"`
abbrev pub default_id : Text
default_id = b'n' ∷ b'o' ∷ b'd' ∷ b'e' ∷ b'-' ∷ b'a' ∷ []

-- `"http://127.0.0.1"`
abbrev pub localhost : Text
localhost =
    b'h' ∷ b't' ∷ b't' ∷ b'p' ∷ b':' ∷ b'/' ∷ b'/' ∷ b'1' ∷ b'2' ∷ b'7' ∷ b'.' ∷ b'0' ∷ b'.' ∷ b'0'
    ∷ b'.' ∷ b'1' ∷ []

-- The single node that a configuration without peers has.
abbrev pub or_self : Text → Text → List (Text × Text) → List (Text × Text)
or_self id listen [] = (id, localhost ++ normalize_listen listen) ∷ []
or_self id listen (p ∷ ps) = p ∷ ps

-- What the flag is, else the variable, else the default.
abbrev pub chosen_id : Flags → Variables → Text
chosen_id f v = given f.id (env v.id default_id)

abbrev pub chosen_listen : Flags → Variables → Text
chosen_listen f v = given f.listen (env v.listen default_port)

abbrev pub chosen_peers : Flags → Variables → Text
chosen_peers f v = given f.peers (env v.peers [])

-- The settings that the flags do not name are Go's zero values.
abbrev pub config_of : Flags → Variables → List (Text × Text) → Config
config_of f v peers = record {
  id = chosen_id f v;
  listen = chosen_listen f v;
  peers = or_self (chosen_id f v) (chosen_listen f v) peers;
  replicas = given f.replicas (env_int v.replicas (pos 2));
  capacity = given f.capacity (env_int v.capacity (pos 10000));
  vnodes = given f.vnodes (env_int v.vnodes (pos 150));
  replica_timeout =
      mul64 (given f.replica_timeout_ms (env_int v.replica_timeout_ms (pos 200))) (pos ms);
  break_for = pos 0;
  rate_limit_capacity = pos 0;
  rate_limit_idle_ttl = pos 0;
}

unfoldable pub parse_config : Flags → Variables → Parsed Config
unfolding env env_int normalize_listen parse_peers
parse_config f v = elim (parse_peers (chosen_peers f v)) [
  | bad_peer p ↦ bad_peer p
  | parsed peers ↦ parsed (config_of f v peers)
]

-- The port that the health check asks, with its colon.
unfoldable pub health_port : Text → Text
unfolding has_prefix from_last
health_port listen =
    let port : Text = elim (from_last b':' listen) [ none ↦ listen | some t ↦ t ] in
    if has_prefix port (b':' ∷ []) then port else default_port

-- `"/health"`
abbrev health_path : Text
health_path = b'/' ∷ b'h' ∷ b'e' ∷ b'a' ∷ b'l' ∷ b't' ∷ b'h' ∷ []

-- How the command ends, or that it goes on to listen with a node.
pub data Outcome : Type 0 where
  config_failed : Text → Outcome
  health_unanswered : Outcome
  health_status : ℕ → Outcome
  healthy : Outcome
  node_failed : Outcome
  serving : Node → Outcome

-- `fetch` is the status that a GET of a URL is answered with.
unfoldable pub run_healthcheck : (Text → Option ℕ) → Text → Outcome
unfolding health_port
run_healthcheck fetch listen = elim (fetch (localhost ++ health_port listen ++ health_path)) [
  | none ↦ health_unanswered
  | some status ↦ if status == 200 then healthy else health_status status
]

abbrev start_node : Option Node → Outcome
start_node none = node_failed
start_node (some n) = serving n

-- `main` as far as the start of the server.
unfoldable pub main : (Text → Option ℕ) → Flags → Variables → Outcome
unfolding parse_config run_healthcheck
main fetch f v = elim (parse_config f v) [
  | bad_peer p ↦ config_failed p
  | parsed cfg ↦
      if f.healthcheck then run_healthcheck fetch cfg.listen else start_node (Node.new cfg)
]
