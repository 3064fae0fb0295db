-- ===== src/Middleware/Tests.antt =====
-- Runs of pkg/ratelimit/middleware.go, and its theorems at concrete requests.
use ringcache.Base.{
  ℕ, ◌≡◌, ◌≢◌, ◌≤◌, refl, true, false, List, [], ◌∷◌, none, some, arith, All, ℕ_discrete, lookup,
  put, delete,
}
use ringcache.Base.Int.{pos}
use ringcache.Go.Text.{Text, text_dec}
use ringcache.Go.Trim.{trim_slashes, trim_space, trim_left, strip_any, strip}
use ringcache.Middleware.{
  Decision, Answer, no_answer, answered, Config, served, limited, usable, client_take, retry_sec,
  decide, over_cap, serve,
}
use ringcache.Middleware.FailOpen.{serve-silent}
use ringcache.Middleware.Handler.{
  Settings, with_defaults, anonymous, key_of, count, acquire, ask, asks, turned_away, enter, settle,
}
use ringcache.Middleware.Held.{Event, comes, decides, run, empty_gate}
use ringcache.Middleware.Reply.{Handled, settle-Handled}
use ringcache.Go.Whole.{whole}
use ringcache.Middleware.Inflight.{
  trying, holding, Reach, empty, next, moves, later, arrives, load_free, swap_done, swap_lost,
  holders, Reach-holders,
}

-- What the runs below compute with.
program : Unit {0}
unfolding trim_slashes trim_left strip_any strip usable client_take retry_sec decide over_cap serve
    text_dec ℕ_discrete
program = tt

abbrev addr_1 : Text
addr_1 = b'x' ∷ b'/' ∷ []

abbrev addr_2 : Text
addr_2 = b'y' ∷ []

abbrev cfg : Config
cfg = record {
  disabled = false;
  dry_run = false;
  max_in_flight = pos 2;
  addrs = some (addr_1 ∷ addr_2 ∷ []);
}

abbrev refusal : Decision ℕ
refusal = record {
  allowed = false;
  remaining = 0;
  retry_after_ms = pos 1001;
  primary = [];
  served_by = [];
}

-- "x" does not answer and "y" refuses; the URL is asked without its slash.
unfoldable network : Text → Answer ℕ
network url = elim (text_dec url (b'x' ∷ [])) [
  | yes _ ↦ no_answer
  | no _ ↦ answered 200 (some refusal)
]

limited_run : (serve cfg network 1 0).1 ≡ limited 2
unfolding program network
limited_run = refl

silent : Text → Answer ℕ
silent addr = no_answer

none_decides : All (λ addr. usable (silent (trim_slashes addr)) ≡ none) (addr_1 ∷ addr_2 ∷ [])
unfolding usable silent
none_decides = (refl, (refl, tt))

free : over_cap cfg 1 ≡ false
unfolding over_cap
free = refl

serve-silent_example : serve cfg silent 1 6 ≡ (7, served)
serve-silent_example =
    serve-silent cfg silent 1 6 (addr_1 ∷ addr_2 ∷ []) refl refl free none_decides

zero-ne-one : ◌≢◌ {A = ℕ} 0 1
zero-ne-one e = absurd (omega arith)

-- Two requests load the counter before either adds to it: one is served, the other tries again.
race : Reach 1 1 (trying ∷ holding ∷ [])
race =
    next
      (next
        (next (next (next (next empty arrives) arrives) (moves (load_free (omega arith))))
          (later (moves (load_free (omega arith)))))
        (later (moves swap_done)))
      (moves (swap_lost zero-ne-one))

Reach-holders_example :
    (1 ≡ holders (trying ∷ holding ∷ [])) × (holders (trying ∷ holding ∷ []) ≤ 1)
Reach-holders_example = Reach-holders 1 1 (trying ∷ holding ∷ []) race

-- A middleware with its defaults, one request at a time, and the client above.
abbrev settings : Settings ℕ
settings = with_defaults whole false (record {
  client = some (addr_1 ∷ addr_2 ∷ []);
  rate = 0;
  burst = 0;
  cost = 0;
  api_key_header = [];
  max_in_flight = pos 1;
  disabled = false;
  dry_run = false;
  key_func = none;
})

-- "y" lets every request pass.
abbrev lenient : Text → Text → Answer ℕ
lenient key url = answered 200 (some (record refusal { allowed = true }))

abbrev no_headers : Text → Text
no_headers name = []

anonymous_key : key_of settings no_headers ≡ anonymous
unfolding program with_defaults key_of trim_space
anonymous_key = refl

abbrev twice : List (Event ℕ)
twice =
    comes no_headers
    ∷ comes no_headers
    ∷ decides (lenient anonymous) anonymous (asks true)
    ∷ decides (lenient anonymous) anonymous turned_away
    ∷ []

-- The second request comes while the first waits for its decision, and is turned away.
one_held : (run settings empty_gate twice).held ≡ anonymous ∷ []
unfolding program with_defaults key_of trim_space run enter settle acquire ask count lookup put
    delete
one_held = refl

-- A request whose decision comes when another has been let in and has left.
settle-Handled_example :
    let key = key_of settings no_headers in
    let r =
      settle settings
        (lenient key)
        key
        (record empty_gate { fail_open = 3 })
        (enter settings no_headers empty_gate).1 in
    Handled settings (lenient key) key empty_gate 3 r.0.fail_open r.1
settle-Handled_example =
    settle-Handled settings (lenient (key_of settings no_headers)) no_headers empty_gate
      (record empty_gate { fail_open = 3 })
