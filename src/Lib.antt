-- ===== src/Lib.antt =====
-- pour, a token faucet for Cosmos chains: a request passes the abuse controls of the gate, is queued
-- for one of a chain's distributor accounts, and is paid with others of its batch in one transaction.
-- The registry tells which chains there are, how they are reached and what of them may change.
--
-- How the parts interact. The HTTP handler calls `Gate.Admit` (internal/abuse/gate.go), which asks the
-- rate limiter, the API key store, the nonce store and the predicate checker. An admitted request
-- goes to `Chain.Pour` (internal/chain/chain.go), which routes it to a window of the chain's pool
-- (internal/batch). The window's timer hands batches to the flush callback of the chain, which sends
-- them through the transaction client (internal/tx) and answers the requests. The manager of
-- internal/chain keeps open the chains that the store of pkg/chainregistry enables, by the settings of
-- internal/config. An IBC drip is sent from another chain at once; the drip log records every payment.
--
-- Which file models what:
--   Prelude      tests on numbers and texts, lists over native numbers, results and actions, maps
--   Tx           internal/tx/types.go, errors.go: coins, requests, errors and their classification;
--                endpoint.go (Endpoints); client.go (Client): attempts, failover and retries;
--                validate.go (Address); fee.go (Fee)
--   Config       internal/config/chains.go: ParseCoin, the structure of chains.yml (Types), defaults
--                (Defaults), validation (Validate, Load), the hand-over to the registry (Convert)
--   GasCache     internal/gascache/cache.go over its table, decay.go (Decay)
--   Batch        internal/batch/window.go (Window), pool.go (Pool)
--   Chain        internal/chain/chain.go: the flags (Status), Pour and makeFlushFn (Flush); refill.go
--                (Refill); newChain (Open); the client is the interface Broadcaster, of which nothing
--                is assumed
--   Manager      internal/chain/manager.go over the registry store: reconcile (Reconcile), Refresh,
--                the rounds of refreshLoop, Reload, Close
--   DripLog      internal/store/drips.go, and awaitDrip of internal/http/handlers/pour.go
--   Http         internal/http/handlers/pour.go: the handler (Pour), its terms for the gate (Terms), its
--                ways of paying (Sending), what it takes and gives (Types)
--   RateLimit    internal/abuse/ratelimit/ratelimit.go (Check, CheckAPIKey, CheckAddress) over the
--                table of internal/store/migrations/001_rate_limits.sql (Table)
--   Gate         internal/abuse/gate.go (Admit), signed/nonce.go (Nonce), signed/predicate.go
--                (Predicate), apikey/store.go (ApiKey)
--   Registry     pkg/chainregistry: types.go (Types), policy.go (Policy), store_helpers.go (Fields),
--                override.go (Overrides), raw.go (Raw), store.go and resolve.go (State, Store, Live),
--                ibc.go (Channels)
-- The modules named Tests run the definitions on concrete data.
--
-- State is passed explicitly, and a method that holds a mutex is one step. Concurrency is a
-- sequence of such steps: the histories (`Op`, `PoolOp`, `Call`) are arbitrary lists of them.
-- Readings of the clock, randomness and the faults of the database are arguments. One flush of a
-- chain is one step, and so is one Route, which holds only a read lock: what happens when several
-- distributors of a chain flush at once, or when two requests are routed at once, is not modelled.
-- A uint32, an int32 counter and Unix seconds are natural numbers; the int32 counters of a chain
-- wrap as they do in Go, and the sums of SQLite fail beyond int64. There is no fuel: every loop of
-- the modelled code runs over a list or a fixed number of rounds (two endpoints, three retries).
--
-- Parameters, since their code is not here: decimal.Decimal (Decimals), big.Int and SQLite's reading of
-- texts (Numerals, with what SQLite documents within int64 as AreExact), bech32, base64, hex and
-- argon2 (Codec, Codecs, Texts), the printing of big.Int (BigInts), Unicode tables (Runes), durations
-- and CIDRs (Parsers), the arithmetic of decimals (Arithmetic, with the order of prices as Ordered), the
-- transports with fees and signing (Network), the services of the gate (Services), what a
-- chain calls to open and close clients (Clients), strings.ToLower and TrimSpace (Cases), decimals as
-- fee.go uses them (Pricing, exact as IsExact says), and the dependencies of the pour handler (Deps).
--
-- Not modelled, so far: the handlers but for POST /v1/pour, the administration. Left out since they
-- call libraries and keep no state of their own: signing, gRPC and REST, JSON, the devnet tools, the
-- commands and the user interface. Logs and metrics have no part in the state.
pub mod Prelude
pub mod Tx
pub mod Batch
pub mod Chain
pub mod RateLimit
pub mod Registry
pub mod Config
pub mod GasCache
pub mod Manager
pub mod DripLog
pub mod Http
pub mod Gate
