-- ===== src/Lib.antt =====
-- The agent that runs Codex turns on a Mac for a remote controller.
--
-- Commands come from a relay as messages (internal/protocol). The service (internal/agent) records
-- each run in a store (internal/durable), starts its turn on a controller (internal/turn), and puts
-- every event of the run in the outbox of the store, from where it is sent until the relay
-- acknowledges it. The controller resolves the project (internal/workspace), has a runner
-- (internal/runner) drive one turn of the app server (internal/codexapp), normalizes the items it
-- reports (internal/codexitem), keeps the recent output in a ring (internal/buffer) and the live
-- items in a list with an index, and ends the turn with one terminal message.
--
-- The files:
-- - Base: lists, texts, Boolean tests and 64-bit words that the other modules share.
-- - Protocol: internal/protocol/message.go. The structs are records of the same names (Types,
--   Payloads, Commands), the constants are texts (MessageType, Status); `NewMessage`, `Decode` and
--   `Validate` are `new_message`, `decode` and `validate` of Messages, `NewID` is `new_id` of Ids.
-- - Buffer: internal/buffer/ring.go, `New`, `Add`, `Reset` and `Values` on the record `Ring`.
-- - Utf8: `truncateUTF8` of internal/codexitem/normalize.go and `appendLiveDelta` of
--   internal/turn/controller.go, on bytes; Encoding is UTF-8 itself.
-- - Durable: internal/durable/store.go. Schema has the tables and what the SQL statements do to
--   them; each method of `Store` is a function on the tables, with the database calls that fail as
--   an argument. A transaction is a record of the tables it began with and those it has written, of
--   which a rollback leaves the first and a commit the second.
-- - Workspace: internal/workspace/catalog.go. Directories has the paths, `MatchPath` and the roots that
--   a project may have, Catalog both catalogs with `List` and `Resolve`.
-- - Inventory: internal/inventory/service.go. Owners has `projectOwner`, Details the history of a
--   thread, Fitting `fitThreadDetail`, Previews the cache; `inventory_of` is what Agent takes.
-- - Relay: internal/relay/client.go, `Publish`, the loops of a session, `backoff` and the delays of `Run`.
-- - Config: internal/config/config.go, `FromEnv` and the validations.
-- - Runner: internal/runner/runner.go and, in Server, internal/runner/appserver.go; `run` is `Run`,
--   `loop` its loop, on the sequence of what `select` takes.
-- - CodexApp: internal/codexapp/client.go. The data of the app server; Connection has the calls that wait
--   for their responses, Replies every interleaving of their steps, Pages the lists in pages.
-- - CodexItem: `Normalize` and `NormalizeRaw` of internal/codexitem/normalize.go.
-- - Turn: internal/turn/controller.go. `Start` is `start`, whose locked part is `claim`; `execute` is
--   `handle_event` for its callback and `conclude` for what follows the run; Items has the live items,
--   Snapshots `Snapshot`; History has the interleavings of all of these as a step relation.
-- - Agent: internal/agent/service.go. `Handle` is `handle` of Handle, whose cases for questions are in
--   Queries and for runs in Commands; `deliver` is the sink that a run's events go to, `run_bootstrap`
--   of Bootstrap is `runBootstrap`. Answers, Starts, Batches, Completions and Plans have what is proved of them.
-- - Source: internal/source/reader.go. `Read` is `read`, `read_resolved`, `read_found` and `excerpt`,
--   one behind the other; Lines has `splitLines`, `sourceWindow` and the loop that narrows a window.
-- - Git: `parsePorcelainZ` and `skipDiscoveryDirectory` of internal/result/git.go.
-- - Tests: runs on samples, and each theorem at an input.
--
-- Go's `int` and `int64` are two's complement patterns below 2 ^ 64. A mutex makes a method, or its
-- locked part, one step. Texts that the program measures or cuts are bytes, the others are strings.
-- Every loop is structural on a list or on a number that it counts down, but for the narrowing of a
-- source window, which is given as many passes as the window has lines less one and is shown to end,
-- and the fitting of a thread, which is given one pass for each thing that it can drop and one more.
-- The runner's loop, which waits for as long as nothing arrives, says by `none` that it still waits.
--
-- Parameters, since they are not this repository's code: JSON, SQLite's failures, git, random bytes
-- and the clock, the file system, the WebSocket, `filepath`, `strings.TrimSpace`, `sort.Slice`, the
-- environment, the texts of errors, and the app server's answers. To the service, the inventory and the
-- source reader are parameters of one operation (`Chances`, `Service`): the previews that Inventory keeps
-- may differ in the next operation.
--
-- Not modelled: the collecting of git results, of the app server's connection the JSON of the requests
-- and the notifications, and its process. cmd/agent/main.go wires the parts together and is input and
-- output only. `message` of internal/agent panics when `NewMessage` fails, which ends the agent: the model
-- goes on with the empty message there, and states nothing of that case.
pub mod Base
pub mod Protocol
pub mod Buffer
pub mod Utf8
pub mod Durable
pub mod Workspace
pub mod Runner
pub mod Turn
pub mod Source
pub mod Git
pub mod CodexApp
pub mod CodexItem
pub mod Inventory
pub mod Agent
pub mod Config
pub mod Relay
mod Tests
