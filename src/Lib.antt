-- ===== src/Lib.antt =====
-- Bored Manager: the verification library of the server's core and of the protocols around it.
--
-- The program is a self-hosted web interface to Linux machines. A browser talks to the server over
-- one WebSocket: shared/rpc.ts says what a frame is, server/rpc.ts takes frames in, dispatches them
-- and pushes events. server/auth.ts lets people in, by the accounts of server/services/users.ts;
-- server/connection.ts keeps the connection to a machine, whose host key
-- server/services/known-hosts.ts has to accept. Modules ask for a confirmation of what they are
-- about to do (shared/check.ts) and do it as jobs (modules/openwrt/main/jobs.ts); what they read is
-- cached (shared/cache.ts). Mutations of one resource are serialized by
-- server/resource-coordinator.ts, and what the app has spawned is in server/session-registry.ts.
--
-- The files and what they model:
-- - Base, with Base/Tests, Base/Lists, Base/Text and Base/Dict: the shared names; Base/Dict is
--   JavaScript's `Map`, Base/Dict/Distinct also has the loop that drops the oldest entries.
-- - Json: the values of `JSON.parse` and the guards of shared/validation.ts.
-- - Rpc/Frame: shared/rpc.ts (parseRpcClientFrame, parseRpcServerFrame), and what src/lib/ws-client.ts
--   and server/rpc.ts write; proofs in Rpc/Frame/Codec.
-- - Rpc/Client: server/rpc.ts, one browser (ClientState): Input has acceptInput, takeRateToken and
--   pumpInput, Events has queueSerializedEvent, trimReplaceableEvents and pumpEvents, Dispatch has
--   dispatch in its parts between two waits, Run puts them together; proofs in Input/Rate,
--   Events/Loop, Events/Fuel, Bounds and Silence, which share the rule of Preserved.
-- - Auth: server/auth.ts (attemptLogin, isLocked, unlock, cappedMap); proofs in Auth/Lockout,
--   Auth/Room, Auth/Guesses and Auth/Capping.
-- - Users: server/services/users.ts; proofs in Users/Sessions.
-- - Check: shared/check.ts (createCheckSession, canonical); proofs in Check/Spent.
-- - KnownHosts: server/services/known-hosts.ts (checkHostKey); proofs in
--   KnownHosts/History, KnownHosts/Expiry and KnownHosts/Accepted.
-- - Connection and Connection/Step: server/connection.ts; proofs in Connection/Requests,
--   Connection/Ownership, Connection/Final and Connection/Stale.
-- - Jobs and Jobs/Runner: modules/openwrt/main/jobs.ts; proofs in Jobs/History, Jobs/Trimmed and
--   Jobs/Runner/Finished.
-- - Coordinator: server/resource-coordinator.ts (ResourceCoordinator.run); proofs in
--   Coordinator/Order, Coordinator/Invariant, Coordinator/Progress and Coordinator/Asked.
-- - Sessions: server/sessions.ts (SessionController); proofs in Sessions/Revoked.
-- - Registry: server/session-registry.ts (SessionRegistry), its histories in Registry/Events; proofs in
--   Registry/Accounts.
-- - Lifecycle: server/lifecycle.ts (RequestTracker, acquirePidFile); proofs in Lifecycle/Drained and
--   Lifecycle/Lease.
-- - Cache: shared/cache.ts (createTtlCache); Cache/History says what a history of calls stores, proofs
--   in Cache/Faithful and Cache/Answers.
-- - Addresses: modules/service-fleet/main/net.ts (ipToInt, intToIp, parseCidr, parseRange,
--   enumerateRule); proofs in Addresses/Octets, Addresses/Blocks and Addresses/Enumeration.
-- - Shell: shared/shell.ts (shQuote) and uciQuote of modules/openwrt/main/parse.ts; proofs in
--   Shell/Quoting.
-- - Uci: modules/openwrt/main/uci.ts (buildPppoeSections, buildPppoeUciLines, planPppoeChunks),
--   and Uci/Apply (applyUciChunks); proofs in Uci/Plans, Uci/Chunks and Uci/Apply/Pairs.
-- - Tests: the theorems at concrete inputs.
--
-- How code becomes definitions. A state is a record with the source's fields, an operation a
-- function on it. Code that waits is cut at its waits: each part is an operation of its own, and a
-- run is a list of operations in any order, so that a theorem on runs covers every interleaving.
-- What other code answers - a clock, a random text, scrypt, a socket's buffer, a handler - is an
-- argument of the operation or a parameter of the section. Numbers are natural numbers; times do not
-- go below zero, and where the source guards a difference by `Math.max(0, …)` the model's `-` does
-- the same. Rate tokens are counted in thousandths, so that refills are exact. The loop of
-- pumpEvents runs on fuel, one more than the events that wait, each round of it taking one; the
-- loop of trimReplaceableEvents on as many rounds as there are events, each of which drops one; the
-- loop of chunkValues on as many rounds as there are values. A number is written with at most 16
-- decimal digits, which every integer that a JavaScript number holds exactly fits.
--
-- Left out: files and their parsing (a file is a value), log lines, HTTP routes,
-- broadcasts, the executors, the user interface and the parts of the modules that are not named
-- above.
mod Base
mod Tests
pub mod Json
pub mod Addresses
pub mod Auth
pub mod Cache
pub mod Check
pub mod Connection
pub mod Coordinator
pub mod Jobs
pub mod KnownHosts
pub mod Lifecycle
pub mod Registry
pub mod Rpc
pub mod Sessions
pub mod Shell
pub mod Uci
pub mod Users
