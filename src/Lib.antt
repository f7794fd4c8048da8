-- ===== src/Lib.antt =====
-- A model of the core of swift-agent, and what holds of it.
--
-- swift-agent runs agents: a client opens a session, sends messages over a WebSocket, and each
-- message starts a run, in which a model streams text and asks for tools, in rounds, until it
-- answers. Events of the run stream back. Its parts, and the modules that model them:
--
-- - packages/runtime/src/loop.ts, the generator `runAgentLoop`: Runtime.Loop, with the variables of
--   the generator and the rows it writes as `LoopState`, the primitives in Runtime.Loop.Defs, the
--   model call in Model, the tool calls in Calls, and the whole, with its `catch` and `finally`, in
--   Run. It is a program of the monad of Runtime.Exec: code returns, throws, or is stopped by its
--   consumer at a `yield`. Runtime.Exec.Rules has the rules by which an invariant passes through
--   the program, Walk and Whole apply them once for every invariant. deadlines.ts is
--   Runtime.Deadlines; tool-mapping.ts and tool-validation.ts are Runtime.Tools; session-lock.ts is
--   Runtime.SessionLock; memory/last-n.ts is Runtime.Memory; of ssrf.ts, the classification of
--   IPv4 addresses is Runtime.Ssrf. engine.ts, which resolves what a run needs and runs the loop, is
--   Runtime.Engine; run-execution-service.ts, the owner of run ids, locks and abort controllers,
--   is Runtime.Service, whose steps of several runs interleave in Runtime.Service.Steps;
--   context-builder.ts, which reads the stored history back, is Runtime.Context;
--   tool-executor-resolver.ts, tool-executor-factory.ts and tool-executor-local.ts are
--   Runtime.Executors.
-- - packages/models/src: parser.ts is Models.Parser and registry.ts is Models.Registry.
-- - The tool-runner boundary is Runner: the protocol of
--   packages/shared/src/types/runner-protocol.ts in Runner itself, the tokens of
--   packages/runtime/src/runner-credentials.ts and packages/sdk/src/runner-token.ts in
--   Runner.Token, the route of packages/sdk/src/tool-runner.ts in Runner.Server and its idempotency
--   cache in Runner.Cache, and packages/runtime/src/tool-executor-remote.ts in Runner.Client.
--   Runner.Delivery puts a call of the executor, with the claims of apps/server/src/container.ts, to
--   the route.
-- - packages/db/src/repositories: run-repo.ts is Db.Runs, tool-call-repo.ts is Db.ToolCalls, and
--   playground-spend-repo.ts, the ledger, is Db.Spend. packages/db/src/drift-check.ts, which compares
--   the committed schema with the live one, is Db.Drift: the two sides in Db.Drift.Sides, the
--   comparison in Db.Drift itself. A map by name is the list of its own entries; only the tests of
--   the live names also find what plain objects inherit. A table is the list of its rows; an UPDATE
--   with a WHERE is `update_where`; a transaction is one step.
-- - apps/playground/backend/src/mediator: rate-limit.ts is Mediator.RateLimit; of mediator.ts,
--   `handleInbound` with its chain is Mediator.Inbound, `observeChatEvent` and `settleRun` are
--   Mediator.Observe, and the socket to the gateway, with its queue and its ping handshake, is
--   Mediator.Upstream. The mediator uses the ledger of Db.Spend.
-- - packages/gateway/src: connection-manager.ts is Gateway.Connections, channel-registry.ts is
--   Gateway.Channels, session-bridge.ts (class SessionBridge) is Gateway.Bridge, heartbeat.ts is
--   Gateway.Heartbeat. The bridge broadcasts through the connections and publishes through the
--   channels; what Redis, the sockets and the timers do is an argument.
-- - packages/react/src/state.ts, the reducer of the chat: React.State.
-- - packages/shared/src/types: Shared, and the records beside their users, without timestamps.
--
-- Common has the shared names, Boolean tests, lists and maps; Json the JSON values; Tests the
-- concrete runs.
--
-- What is not under the repository's own code is a parameter: the record `World` of
-- Runtime.Loop.Defs holds, for each moment of a run, the clock, the faults of the database, the
-- streams of the provider (on the stored history), the answers of the executor, random
-- ids, the JSON functions of the engine, and the compiler of JSON schemas. A moment is the number of
-- awaited steps so far, so that each may differ. The abort signal is the abort it will see, if any.
-- Times and money are natural numbers; times before the epoch do not occur.
--
-- Recursion is structural, but for the rounds of the loop, which run on fuel: `maxToolIterations`,
-- which is enough since each round that does not end the loop increments the count of the `while`.
-- The confirmation of a settlement runs on its three attempts, and the sending of a tool call on
-- the attempts that are left.
--
-- Not modelled: tracing (the loop is the one without a tracer); the text of addresses, IPv6 and
-- the outbound check of ssrf.ts; the lifetime of tokens, the timers of a tool's handler and the
-- cut of its error texts; the queries, files and summary of the drift check, the status of
-- migrations, and the comparison of schemas where a name of the expected schema, or of a live
-- table, is inherited from `Object.prototype`; the adapters of the model providers; the routes of
-- packages/api; the plugin, the server and the authentication of the gateway; the minting and
-- eviction of guests; the client of the SDK, the hooks of React, observability, the project generator, the server application,
-- infrastructure and examples.
pub mod Common
pub mod Json
pub mod Shared
pub mod Db
pub mod Runtime
pub mod Mediator
pub mod React
pub mod Gateway
pub mod Runner
pub mod Models
mod Tests
