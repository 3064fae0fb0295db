-- ===== src/Middleware/Handler.antt =====
-- The whole handler of pkg/ratelimit/middleware.go, with its settings, its key and the gate that
-- it shares between requests. A request goes through it in three steps, between which others may
-- take theirs: it comes in and acquires the gate, its decision is there, and it has been served.
-- `acquireInflight` is one step here: ringcache.Middleware.Inflight has its atomic operations.
use ringcache.Base.{
  ℕ, ◌+◌, ◌-◌, Bool, true, false, List, [], ◌∷◌, Option, none, some, ite, leb, if◌then◌else◌,
  lookup, put, contains,
}
use ringcache.Base.Int.{ℤ, pos, pos_part, ltb_ℤ}
use ringcache.Go.Float.{Float}
use ringcache.Go.Text.{Text, text_dec}
use ringcache.Go.Trim.{trim_space}
use ringcache.Middleware.{Answer, Config, Outcome, served, too_many, limited, client_take, decide}

-- `Config`; a request is its headers here. `client` has the addresses.
pub record Settings (F : Type 0) : Type 0 where
  pub client : Option (List Text)
  pub rate : F
  pub burst : F
  pub cost : F
  pub api_key_header : Text
  pub max_in_flight : ℤ
  pub disabled : Bool
  pub dry_run : Bool
  pub key_func : Option ((Text → Text) → Text)

-- `"X-API-Key"`
abbrev x_api_key : Text
x_api_key = b'X' ∷ b'-' ∷ b'A' ∷ b'P' ∷ b'I' ∷ b'-' ∷ b'K' ∷ b'e' ∷ b'y' ∷ []

-- `"anonymous"`
abbrev pub anonymous : Text
anonymous = b'a' ∷ b'n' ∷ b'o' ∷ b'n' ∷ b'y' ∷ b'm' ∷ b'o' ∷ b'u' ∷ b's' ∷ []

-- The part of `Middleware` before the handler; `off` is `RATELIMIT_DISABLED=1`.
unfoldable pub with_defaults : {F : Type 0} → Float F → Bool → Settings F → Settings F
with_defaults fl off st =
    let header = ite (text_dec st.api_key_header []) x_api_key st.api_key_header in
    record st {
      api_key_header = header;
      cost = if fl.le st.cost fl.zero then fl.one else st.cost;
      rate = if fl.le st.rate fl.zero then fl.of_nat 100 else st.rate;
      burst = if fl.le st.burst fl.zero then fl.of_nat 20 else st.burst;
      key_func = elim st.key_func [
        | none ↦ some (λ headers. trim_space (headers header))
        | some f ↦ some f
      ];
      disabled = if off then true else st.disabled;
    }

-- The counters of the keys, how often no decision was made, and the keys of the requests that
-- hold the gate: they wait for a decision or are being served.
pub record Gate : Type 0 where
  pub counts : List (Text × ℕ)
  pub fail_open : ℕ
  pub held : List Text

unfoldable pub count : Text → List (Text × ℕ) → ℕ
count key counts = elim (lookup text_dec key counts) [ none ↦ 0 | some c ↦ c ]

-- `acquireInflight`
unfoldable pub acquire : ℕ → Text → List (Text × ℕ) → List (Text × ℕ) × Bool
unfolding count
acquire max key counts =
    let cur = count key counts in
    if leb max cur
    then (put text_dec key cur counts, false)
    else (put text_dec key (cur + 1) counts, true)

-- The function that `acquireInflight` returns.
unfoldable pub release : Text → List (Text × ℕ) → List (Text × ℕ)
unfolding count
release key counts = put text_dec key (count key counts - 1) counts

unfoldable pub erase_one : Text → List Text → List Text
erase_one k [] = []
erase_one k (j ∷ js) = elim (text_dec j k) [ yes _ ↦ js | no _ ↦ j ∷ erase_one k js ]

-- How a request came in: it is served at once, turned away, or asks for a decision, with the gate
-- or without.
pub data Entry : Type 0 where
  passes : Entry
  turned_away : Entry
  asks : Bool → Entry

module _ {F : Type 0} (st : Settings F) where
  -- The settings that decide.
  abbrev pub deciding : Config
  deciding = record {
    disabled = st.disabled;
    dry_run = st.dry_run;
    max_in_flight = st.max_in_flight;
    addrs = st.client;
  }

  unfoldable pub key_of : (Text → Text) → Text
  key_of headers =
      let key : Text = elim st.key_func [ none ↦ [] | some f ↦ f headers ] in
      ite (text_dec key []) anonymous key

  -- From the call of `Take` on, with the counter of failures.
  unfoldable pub ask : (Text → Answer F) → ℕ → ℕ × Outcome
  unfolding client_take decide
  ask send fail_open = elim st.client [
    | none ↦ (fail_open, served)
    | some addrs ↦
        let d = client_take send addrs in
        (elim d [ none ↦ fail_open + 1 | some _ ↦ fail_open ], decide deciding d)
  ]

  -- A request that holds the gate gives it back, as it has been served or turned away.
  unfoldable pub leave : Text → Gate → Gate
  unfolding release erase_one
  leave key g =
      if contains text_dec key g.held
      then record g { counts = release key g.counts; held = erase_one key g.held }
      else g

  abbrev pub at_gate : Text → Gate → List (Text × ℕ) × Bool → Gate × Entry
  at_gate key g (counts, true) = (record g { counts = counts; held = key ∷ g.held }, asks true)
  at_gate key g (counts, false) =
      (record g { counts = counts }, if st.dry_run then asks false else turned_away)

  -- A request comes in.
  unfoldable pub enter : (Text → Text) → Gate → Gate × Entry
  unfolding acquire key_of
  enter headers g =
      let key = key_of headers in
      if st.disabled
      then (g, passes)
      else if ltb_ℤ (pos 0) st.max_in_flight
      then at_gate key g (acquire (pos_part st.max_in_flight) key g.counts)
      else (g, asks false)

  -- The decision is there: the handler goes on to `next` and keeps the gate until that returns,
  -- or it returns and so gives back the gate if it holds it.
  abbrev pub settled : Text → Bool → Gate → ℕ × Outcome → Gate × Outcome
  settled key holds g (f, served) = (record g { fail_open = f }, served)
  settled key true g (f, too_many) = (leave key (record g { fail_open = f }), too_many)
  settled key true g (f, limited secs) = (leave key (record g { fail_open = f }), limited secs)
  settled key false g (f, too_many) = (record g { fail_open = f }, too_many)
  settled key false g (f, limited secs) = (record g { fail_open = f }, limited secs)

  -- The rest of the handler for a request that came in, with what the cluster answers for its key.
  unfoldable pub settle : (Text → Answer F) → Text → Gate → Entry → Gate × Outcome
  unfolding ask leave
  settle send key g passes = (g, served)
  settle send key g turned_away = (g, too_many)
  settle send key g (asks holds) = settled key holds g (ask send g.fail_open)
