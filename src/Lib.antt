-- ===== src/Lib.antt =====
-- gpt-load: a proxy that spreads requests for AI services over many API keys.
--
-- A client's request comes to the proxy (internal/proxy/server.go), which asks the key provider
-- (internal/keypool/provider.go) for a key of the request's group, the channel
-- (internal/channel/base_channel.go) for an upstream, sends the request, and on a failure reports
-- the key to the provider and tries again with the next key. The provider keeps for each group the
-- list of its active keys, and for each key a hash, in the store (internal/store/memory.go), and
-- the keys' rows in the database.
--
-- - Prelude: lists, dictionaries, int64 with its wrap-around, and Go's strings as bytes with their
--   decimal numbers. Exec: functions that change a state and return a value or an error.
-- - Store: the in-memory store. MemoryStore.data is an association list, in whose order Go's maps
--   are iterated; each method is one action, since it runs under the lock, but Get and Exists are
--   two, as they let go of the lock between reading a key and deleting it. Its children Items,
--   Hashes, Lists, Sets and Zsets have one function for each method, named after it (h_incr_by for
--   HIncrBy), and the others prove: Ops for all of the calls, Expiry, Counters, Rotation, Batches,
--   Ranges and Freshness. Instants are arguments, and SetNX has two, since it reads the clock
--   twice. Scores are whole numbers.
-- - Upstream: the choice of an upstream by smooth weighted round-robin (getUpstreamURL), and its
--   proofs: Scan for the loop, Ledger and Run for the weights over many picks, Fairness.
-- - Models and Database: the rows of internal/models/types.go, and gorm as an interface, with what
--   it documents of locking, changing, committing and rolling back one row as laws.
-- - Provider: the key provider. Transaction has the transaction and its retry, with the store left
--   as the failed attempts left it; Records the map of a key and SelectKey; Handlers what an
--   outcome does to a key; Pool how keys come and go; Recovery the start and the recovery of rate-
--   limited keys. Names, Views, Steps and Retry are lemmas; Punished, RateLimited, Recovered,
--   Revived, Removed, Loaded, RoundTrip, Turns and Drift prove what the functions do. An action
--   that the code starts in a goroutine is one step here. Errors that the code only logs are
--   dropped.
-- - Errors: which messages are a client's going away or a rate limit (internal/errors). RetryAfter
--   is ParseRetryAfter, Keywords its table, Patterns its regular expressions; Waits says how long
--   it may let a key wait.
-- - LocalCache: the cache of keys in internal/keypool/local_cache.go. The entries are cells of a
--   heap and the map and the list hold their addresses, since AddToFront, Remove and MoveToFront
--   are about pointers. Ops has the methods; Spec is a cache as a list of entries, the latest used
--   first. Links, Moves, View, Branches, Refines, Reads, Writes, Cleanup and Counted lead from the
--   cells to the list; Client has runs of calls, Bounds the size, Survival and Lookup what a Get
--   finds, and Adapt adaptSize. The hit rate is the pair of numbers that the code divides, and its
--   two comparisons are arguments.
-- - Sharded: the store in shards of internal/keypool/sharded_memory.go. A method is one step on
--   the shard of its key, and Get and Exists, which take the lock twice, have their second halves
--   as functions too. Del is a Delete of each of its keys, and not a call of its own in the runs.
--   Its data are those of Store, and where a method does what MemoryStore's does, it is that
--   function of Store; Values and Sorting have the others. Methods names them all, Calls is a call
--   as a value, Refines compares shards with one store, Resharding is about Reconfigure and Homes
--   about which shard a key is in, and Halves about a Set between the halves of a Get. A shard's
--   index by a mask is a remainder.
-- - MemoryPool: the layered pool of internal/keypool/memory_pool.go, over one store, which the
--   shards are alike to. Details is the hash of a key, Pools how keys come to a pool and leave it,
--   Moves SelectKey and the moves between pools, Handlers what comes of a key's use, Listing the
--   lists and the status; Names, Refill, Selected, Returned, Cooling, Added, Removed, Emptied and
--   Gone prove what they do. The database's answers are given (Rows), times are seconds, and an
--   error that is wrapped stays the one inside.
-- - Proxy: executeRequestWithRetry, whose calls of the outside are a list of events. Attempts
--   bounds and accounts for them, Exhausted says what comes of a request whose tries all fail.
--
-- Bounds. Numbers that Go keeps as int64 wrap around; ids are below 2 ^ 64 where they are parsed.
-- The total of an upstream's weights is assumed to have a square below 2 ^ 63 where the picks are
-- counted. executeRequestWithRetry takes fuel: one more than the tries that the group allows is
-- enough, as its theorems say, and the loop of adaptSize takes one more than the entries. Times of
-- the database are whole seconds, those of the store nanoseconds.
--
-- Not modelled: Publish and Subscribe; Redis, its store and its pool; the start, the events, the
-- reports and the batches of the layered pool, and the recovery services of internal/keypool; the
-- tickers of the cache and of the shards, and their reports; the services; the HTTP handlers, the
-- configuration and the start. Interleavings inside one action of the provider are not modelled
-- either, but for the two halves of the stores' Get and Exists. What gorm's Updates writes to the
-- struct that it is given is modelled where the code reads it again, in handleRateLimit. Wrapping
-- of errors by %w is left out.
pub mod Prelude
pub mod Exec
pub mod Store
pub mod Upstream
pub mod Models
pub mod Database
pub mod Errors
pub mod Provider
pub mod Proxy
pub mod LocalCache
pub mod Sharded
pub mod MemoryPool
