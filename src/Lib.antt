-- ===== src/Lib.antt =====
-- A model of agy-proxy, the gateway that serves the OpenAI and Anthropic protocols from a pool of agy
-- accounts.
--
-- A request is authenticated by its key, gets an account from the pool and a slot of a semaphore, and
-- is answered by a stream: the engine spawns agy, parses its output into events and records them,
-- spawns it again after some failures, and maps the recording to chunks, which the protocol legs
-- guard by stop sequences and an output budget. What the request used goes to a ledger, what happened
-- goes to an event bus that the admin pages read, and a failure becomes an HTTP status with a body of
-- the protocol.
--
-- Files, and the code they are about:
--   Semaphore   src/server/semaphore.ts: GatewaySemaphore. `acquire`, `on_abort` and `release` are
--               its steps; a parked promise is a ticket. Each call reads the limits anew.
--   Pool        src/common/pool-types.ts and src/host/pool.ts: the data in Pool, the methods of
--               AccountPoolManager in Pool/Manager and Pool/Updates, selectAccount in Pool/Select.
--   Events      src/server/events.ts: AdminEventBus, and the initial delivery of GET /admin/events in
--               src/server/admin-api.ts.
--   Tokens      src/server/tokens.ts and src/server/max-tokens.ts.
--   Guards      src/server/stream-guards.ts: StopHoldback and OutputBudget; applyStopWithHit of
--               src/server/openai-adapter.ts.
--   Mapper      src/host/mapper.ts with the types of src/host/stream-types.ts and
--               src/common/types.ts: the data and the block operations in Mapper, map and emitFailure
--               in Mapper/Translate.
--   Parser      src/host/parser.ts: the JSON values in Parser, classifyEvent in Parser/Classify,
--               StreamJsonParser in Parser/Feed.
--   Recording   src/host/recording.ts: RunRecording, RunRegistry in Recording/Registry, and
--               parseMirrorCallId in Recording/CallId.
--   Engine      src/host/engine.ts: the classification of an outcome in Engine, with the tests of
--               src/common/types.ts; the busy accounts in Engine/Busy, runOnce in Engine/Attempt, the
--               retry loop and what follows it in Engine/Dispatch, driveSpan and the continuations in
--               Engine/Span, the digest and detectContinuation in Engine/Request.
--   Keys        src/server/key-store.ts: KeyStore on the rows of its table.
--   Auth        src/server/auth.ts: apiKeyFrom and the hook that buildAuthHook makes.
--   Sessions    src/host/sessions.ts: SessionStore with its file; a restart in Sessions/Restart.
--   Poller      src/host/catalog-poller.ts: startCatalogPoller; its reachable states in Poller/Alive.
--   Ledger      src/server/usage-ledger.ts: UsageLedger.
--   Errors      src/server/errors.ts.
--   Prelude     what they share: lists measured by native numbers, counts, texts, maps and tests.
--
-- Names are the source's, in snake case. A method is a function from the object's record to its new
-- record and its result. The clock, timers that fire, a transaction's outcome and the callbacks of
-- others are arguments or steps, so an interleaving is a list of steps. What happens around an
-- attempt of the engine, its output, aborts and the pool's answers, is one record for each attempt.
-- Numbers are natural numbers: where the source counts fractions the unit is finer (sixteenths of a
-- token, millionths of a quota), and no sum of the source comes near the limit of exact floating
-- point. A text is the list of its UTF-16 code units, except in the pool and the event bus, which
-- only compare texts.
--
-- Parameters: Date.parse, trim and the duration parser (`Pool.Runtime`), JSON.stringify and the
-- replacements of scrubTokenMaterial (`Mapper.Host`), JSON.parse, String, the case mappings and the
-- expressions of the parser (`Parser.Host`) and of the engine (`Engine.Host`), Node's cryptography
-- (`Keys.Host`), the third-party rate limiter's answer (Auth), Number (Recording.CallId), the database
-- sum and the start of the day (Ledger), JSON and the text of a file (`Sessions.Host`). What a theorem
-- assumes of them stands among its hypotheses: that Number reads a safe index back from its decimal
-- form, that two keys have two hashes, and that JSON reads back what it wrote.
--
-- Fuel: `Mapper.digits` has n + 1 for the number n, which never has more digits, and the eviction
-- loop of `Recording.Registry` has the number of runs, one of which leaves in each round. The loop
-- of `Engine.Dispatch` has two rounds, one more than its retries, and `Parser.Classify` two calls;
-- where that is not enough for the parser, the source's recursion has no end and throws, which the
-- runner catches in a chunk and the dispatch in the flush. All other loops are recursion on lists
-- or counters.
--
-- Bounds: the limits of the semaphore may change from call to call within the two ends that a run
-- of steps is given. A number in a JSON value is a natural number. A recording is read by a span as
-- it is once it has settled, in the order of its events.
--
-- Not modelled: processes, sockets, files, SQL, HTTP routes and the admin pages, which are input and
-- output; of the engine, what it checks before the dispatch, the argument list and the queue for each
-- account; the model catalogue, and the protocol legs around the chunks.
mod Prelude
pub mod Semaphore
pub mod Events
pub mod Pool
pub mod Tokens
pub mod Guards
pub mod Mapper
pub mod Recording
pub mod Ledger
pub mod Errors
pub mod Parser
pub mod Engine
pub mod Keys
pub mod Auth
pub mod Sessions
pub mod Poller
