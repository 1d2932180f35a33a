-- ===== src/Lib.antt =====
-- Verification of agentic-collab: an orchestrator that runs coding agents in tmux sessions behind
-- proxies, keeps their state in SQLite, and delivers messages between them.
--
-- The parts and how they interact. The dispatcher (src/orchestrator/message-dispatcher.ts) takes
-- messages from the queue of the database (src/orchestrator/database.ts) and pastes them into the
-- agents' sessions; an agent's row says where it runs and in which state it is, and every write of
-- the row but that of captured variables names the version that it read. Locks (src/shared/lock.ts), which are
-- rows of a table too, keep two operations on one agent apart.
--
-- - Common: Boolean tests, lists as tables (`select`, `find`, `update`, `count` are the WHERE
--   clauses of queries), texts as lists of code units, decimal numerals.
-- - Shared/Address: src/shared/address.ts. Shared/Agent: the record of src/shared/types.ts and the
--   helpers of src/shared/agent-entity.ts. Shared/Lock: src/shared/lock.ts; the rounds of `lock`
--   take fuel, and `timeout / 50 + 2` is enough of it.
-- - Shared/WebSocket: src/shared/websocket-server.ts and src/shared/ws-deflate.ts, the server that
--   pushes events to dashboards. A byte is a number below 256 where it matters; a client's record
--   holds its socket's state and the buffer of its data handler, and an operation yields the client
--   and what it wrote and which callbacks it called. The loop over the buffer takes the buffer's
--   length for fuel, which is enough because each frame takes a byte at least. zlib, UTF-8, JSON
--   and the handshake's hash are arguments.
-- - Shared/Sanitize: src/shared/sanitize.ts over UTF-16 code units; a regular expression is a
--   function that tells how far a match reaches.
-- - Engines: src/orchestrator/adapters, the commands and keys of the three engines, as an interface
--   (`EngineAdapter`) and its implementations; Words splits a command the way a shell does.
-- - Database/Agents and Database/Queue: the tables `agents` and `pending_messages` of
--   src/orchestrator/database.ts. A statement is a function on the list of rows; a thrown error is
--   a value that leaves the table as it was. Times are milliseconds, an argument of each function;
--   columns of the queue are whole seconds.
-- - Lifecycle: src/orchestrator/lifecycle.ts. A long operation (spawn, resume, suspend, reload,
--   recover) is its first and its last phase, which hold the agent's lock; between them come other
--   steps in any order (`move`, `moves`), its watchdog and the writes of a captured variable among
--   them. A kill and a compaction hold the lock throughout; what others do to the fleet while they
--   wait is an argument (`meanwhile`), and nothing where they are steps of `moves`. Hooks: the commands that a
--   resolved hook sends; Templates and Resolving: src/orchestrator/hook-resolver.ts, how a hook's
--   value becomes such a result, with the JSON parser, the file system and the table of custom
--   engines as arguments; Config: src/orchestrator/engine-config-resolver.ts. In the long
--   operations what a hook resolves to and the proxy's answers are arguments; the persona file
--   that `destroyAgent` deletes is left out. Launch: the exports before a launch command, over texts,
--   with `shellQuote` of src/shared/utils.ts.
-- - Lifecycle/Network: src/orchestrator/network.ts, what a shutdown writes and how the next process
--   brings the agents back. `resumeAgent` and the proxies' answers are arguments, and no other step
--   runs in between, as at the start of the process.
-- - HealthMonitor: src/orchestrator/health-monitor.ts. The maps of the class are one record for each
--   agent (`Watch`), where a missing count or time is 0. Which pattern of the engine's configuration
--   matched a pane, and the pane's last lines, are inputs of a poll.
-- - Dispatcher: src/orchestrator/message-dispatcher.ts. An asynchronous delivery is a `Flight` that
--   stands at one of its two `await`s, and the event loop runs the pieces between them one at a
--   time, in any order (`step`, `run`). `stop` is no such step and is not modelled. What the paste answers is an argument.
-- - Database/Proxies: the table `proxies`. Database/Reminders: the table `reminders`.
--   ReminderDispatcher: `tick` of src/orchestrator/reminder-dispatcher.ts, over that table and the
--   message dispatcher.
-- - Tests: test data and the theorems at concrete inputs.
--
-- Not modelled: HTTP routes, personas on disk, the dashboard, the proxy process, Telegram, voice and
-- usage polling, which are input and output; log lines; interrupts, custom buttons and indicator
-- actions of the lifecycle; what the adapters read off a terminal; of the health monitor the context
-- percentage, the detection of an exited CLI, indicators, recovery and timers. The JSON columns of an
-- agent are opaque.
pub mod Common
pub mod Shared
pub mod Database
pub mod Engines
pub mod Lifecycle
pub mod Dispatcher
pub mod ReminderDispatcher
pub mod HealthMonitor
pub mod Tests
