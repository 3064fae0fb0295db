-- ===== src/Command/Tests.antt =====
-- The start of cmd/ringcache/main.go at concrete settings.
use ringcache.Base.{
  ◌≡◌, ◌≢◌, ◌⊎◌, refl, true, false, List, [], ◌∷◌, ◌++◌, none, some, arith, All, Distinct, keys,
  lookup, is_some, contains, put, delete,
}
use ringcache.Command.{
  Flags, Variables, env, env_int, chosen_id, chosen_listen, chosen_peers, localhost,
  normalize_listen, health_port, parse_peer, parse_peers, parse_parts, not_blank, bad_peer, parsed,
  main,
}
use ringcache.Command.Peers.{Reads, IsBad, put_all, parts_of, parse_peers-parts}
use ringcache.Command.Render.{render, IsPlain, parse_peers-render}
use ringcache.Command.Start.{Serves, main-single, main-render, health_port-normalize_listen}
use ringcache.Go.Split.{split, cut, from_last, has_prefix}
use ringcache.Go.Text.{Text, text_dec}
use ringcache.Go.Trim.{trim_space, trim_left, strip_any, strip}

program : Unit {0}
unfolding text_dec trim_space trim_left strip_any strip split cut from_last has_prefix env env_int
    normalize_listen health_port parse_peer parse_parts parse_peers not_blank put lookup contains
    delete
program = tt

-- " a = u ,,b=v"
abbrev given_text : Text
given_text = b' ' ∷ b'a' ∷ b' ' ∷ b'=' ∷ b'u' ∷ b',' ∷ b',' ∷ b'b' ∷ b'=' ∷ b'v' ∷ []

-- "a=u,b"
abbrev bad_text : Text
bad_text = b'a' ∷ b'=' ∷ b'u' ∷ b',' ∷ b' ' ∷ b'b' ∷ []

parse_given_text :
    parse_peers given_text ≡ parsed ((b'b' ∷ [], b'v' ∷ []) ∷ (b'a' ∷ [], b'u' ∷ []) ∷ [])
unfolding program
parse_given_text = refl

parse_bad_text : parse_peers bad_text ≡ bad_peer (b'b' ∷ [])
unfolding program
parse_bad_text = refl

-- "0.0.0.0:7"
normalize_full : normalize_listen (b'0' ∷ b'.' ∷ b'0' ∷ b':' ∷ b'7' ∷ []) ≡ b':' ∷ b'7' ∷ []
unfolding program
normalize_full = refl

parse_peers-parts_example :
    ((ps : List (Text × Text)) × Reads (parts_of bad_text) ps
      × (parse_peers bad_text ≡ parsed (put_all ps [])))
    ⊎ ((pre : List Text) × (part : Text) × (post : List Text) × (ps : List (Text × Text))
        × (parts_of bad_text ≡ pre ++ part ∷ post)
        × Reads pre ps
        × IsBad (trim_space part)
        × (parse_peers bad_text ≡ bad_peer (trim_space part)))
parse_peers-parts_example = parse_peers-parts bad_text

health_port-normalize_listen_example :
    from_last b':' (normalize_listen (b'0' ∷ b':' ∷ b'7' ∷ []))
    ≡ some (health_port (b'0' ∷ b':' ∷ b'7' ∷ []))
health_port-normalize_listen_example = health_port-normalize_listen (b'0' ∷ b':' ∷ b'7' ∷ [])

abbrev two_peers : List (Text × Text)
two_peers = (b'a' ∷ [], b'u' ∷ []) ∷ (b'b' ∷ [], b'v' ∷ []) ∷ []

two_peers-IsPlain : All IsPlain two_peers
two_peers-IsPlain = ground arith

two_peers-Distinct : Distinct text_dec (keys two_peers)
unfolding program
two_peers-Distinct = (refl, (refl, tt))

parse_peers-render_example :
    (m : List (Text × Text)) × (parse_peers (render two_peers) ≡ parsed m)
    × Distinct text_dec (keys m)
    × ((id : Text) → lookup text_dec id m ≡ lookup text_dec id two_peers)
parse_peers-render_example = parse_peers-render two_peers two_peers-IsPlain two_peers-Distinct

abbrev no_variables : Variables
no_variables = record {
  id = [];
  listen = [];
  peers = [];
  replicas = [];
  capacity = [];
  vnodes = [];
  replica_timeout_ms = [];
}

abbrev no_flags : Flags
no_flags = record {
  healthcheck = false;
  id = none;
  listen = none;
  peers = none;
  replicas = none;
  capacity = none;
  vnodes = none;
  replica_timeout_ms = none;
}

blank_peers : trim_space (chosen_peers no_flags no_variables) ≡ []
unfolding program
blank_peers = refl

named : chosen_id no_flags no_variables ≢ []
unfolding program
named e = ground arith

main-single_example : Serves (main (λ url. none) no_flags no_variables) (λ m.
    m
    ≡ (
      chosen_id no_flags no_variables,
      localhost ++ normalize_listen (chosen_listen no_flags no_variables),
    )
      ∷ [])
main-single_example = main-single (λ url. none) no_flags no_variables refl blank_peers named

abbrev as_b : Flags
as_b = record no_flags { id = some (b'b' ∷ []); peers = some (render two_peers) }

b_listed : is_some (lookup text_dec (chosen_id as_b no_variables) two_peers) ≡ true
unfolding program
b_listed = refl

main-render_example :
    Serves
      (main (λ url. none) as_b no_variables)
      (λ m. (id : Text) → lookup text_dec id m ≡ lookup text_dec id two_peers)
main-render_example =
    main-render (λ url. none) as_b no_variables two_peers refl refl two_peers-IsPlain
      two_peers-Distinct b_listed
