-- ===== src/Lib.antt =====
-- ringcache: a distributed cache of several nodes, each an LRU+TTL store, placed on a
-- consistent-hash ring. This library models its parts and proves what makes them correct.
--
-- internal/ring/ring.go is Ring.antt (`Ring`, `new`, `add`, `remove`, `rebuild`, `owners`, `primary`).
--   Every method takes the mutex, so that each is one step. `rebuild` places the virtual nodes of
--   the nodes in the order that `range` reads the map and sorts them; `owners` searches the sorted
--   ring for the key's hash and walks it clockwise. An index out of range would be `none`.
--   Ring/Preference.antt says what the walk should find: the nodes that stand clockwise of the
--   key's hash, each once.
-- internal/store/store.go is Store.antt (`get`, `set`, `delete_key`, `sweep`, `evict_lru` and the
--   parts of them). The list's pointers are handles, and the map holds handles. Store/Lru.antt is
--   the abstract view, a list of items. The loop of `Set` that makes room runs on fuel, one round
--   for each element and one to leave, which is shown to be enough.
-- internal/ratelimit is Ratelimit.antt (`take` and `refill` of a bucket, `store_take` and `sweep` of
--   the store). float64 is the interface ringcache.Go.Float, whose laws are those of IEEE 754 that
--   the code relies on; whole numbers are an instance. The eviction loop and the sweep recurse on
--   the order of use.
-- internal/node/node.go is Node.antt (the node's state, `new`, the breaker, `join` and `leave`, the
--   checks of keys and values), Node/Peers.antt (`read_owner`, `write_owner`, `fanout`,
--   `read_repair`) and Node/Handlers.antt (the HTTP handlers, from the decoded request to the
--   status and the body; Node/Quota.antt the rate-limit handlers, with the store of buckets
--   beside the node). The network is a function from requests to responses, the clock's
--   readings are given, and the results of a fan-out arrive in an order that is given too:
--   ringcache.Node.Peers.World holds these. `url.ParseRequestURI` is a parameter of `join`.
--   A handler is one step, but for a change of members, which is two: `join` and `leave` change the
--   peers, and `change_ring` the ring. Node/Server.antt has a node with its buckets and the
--   histories of its requests. The goroutines of read repair that are
--   done before the reply, in any order, are part of the GET, and the others are steps of their own.
-- `janitor` and `Close`, which both stores have, are Janitor.antt: the goroutine that sweeps, those
--   that call `Close`, and any other call, as a step relation. The ticker may fire at any time.
-- pkg/ratelimit/middleware.go is Middleware.antt (`client_take`, `serve`) with Middleware/Inflight.antt,
--   where the atomic operations of `acquireInflight` are a step relation on the counter and the
--   requests of one key, in any interleaving. Middleware/Handler.antt is the whole handler, with the
--   defaults of the settings, in three steps: a request comes in, its decision is there, and it has
--   been served, with the steps of other requests between them; an acquire is one step there.
-- Cluster.antt puts several nodes together: a cluster is its nodes by base URL, and the requests that
--   one node sends are answered by the handlers of the others (`deliver`, `cluster_set`,
--   `cluster_get`, `cluster_delete`). Cluster/Quota.antt has the rate-limit requests that a node forwards,
--   Cluster/Limited.antt the middleware that asks such a node.
-- cmd/ringcache/main.go is Command.antt, from the flags and the environment to the node that serves;
--   `fetch` is the status that the health check is answered with. A flag that does not parse ends
--   the process in flag.Parse.
-- cmd/bench/main.go and cmd/ratebench/main.go are Bench.antt: the workers of a phase as a step
--   relation, the percentiles with math.Round as a parameter, and the wait for healthy servers on
--   fuel, one round for each tick to the deadline, which is shown to be enough. Bench/Jobs.antt is
--   the channel between the producer of ratebench and its workers, Bench/Primary.antt its
--   `lookupPrimary`.
-- Go.antt has what the parts use of Go's standard library: FNV-1a, strconv.Itoa and Atoi,
--   sort.Slice, sort.Search, strings.TrimSpace, Split, Cut and LastIndex, comparison of strings, and 64-bit words with their wrap-around.
--
-- Not modelled: the count of buckets in `/stats`, the encoding of JSON and of URLs, the mux,
-- the settings of the HTTP clients, logging and printing, the measurements of the benchmarks and
-- the killing of processes, and the demo, which is glue.
pub mod Base
pub mod Go
pub mod Ring
pub mod Store
pub mod Ratelimit
pub mod Node
pub mod Middleware
pub mod Command
pub mod Cluster
pub mod Bench
pub mod Janitor
