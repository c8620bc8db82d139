-- ===== src/Lib.antt =====
-- Verification of rstest, a test runner for JavaScript.
--
-- The program. The host plans which test files run (packages/core/src/core, packages/core/src/utils),
-- hands each file to a pool of workers (packages/core/src/pool) or to a browser (packages/browser/src),
-- and judges the coverage of the run (packages/core/src/coverage). A call of `Pool.dispatch` acquires a
-- `PoolRunner`, which owns one worker process; the memory gate may hold back a new worker. In a headed
-- browser the registry gives each run its identity and settles it; in watch mode a planner decides what
-- a cycle runs again. Inside a worker, `TestRunner` runs the tests of a file (packages/core/src/runtime).
--
-- The files, by the code they model:
--   Pool/Runner      packages/core/src/pool/poolRunner.ts, packages/core/src/pool/protocol.ts,
--                    packages/core/src/runtime/runner/fileCleanup.ts
--   Pool/Scheduler   packages/core/src/pool/pool.ts
--   Pool/Gate        packages/core/src/pool/memoryGate.ts
--   Browser/RunRegistry    packages/browser/src/headedRunRegistry.ts
--   Browser/WatchPlanner   packages/browser/src/watchRerunPlanner.ts
--   Browser/Dispatch       packages/browser/src: runSession.ts, dispatchRouter.ts
--   Selection/Shard  packages/core/src/utils/shard.ts
--   Selection/Sequencer, OnlyFailures, ResultsCache, WatchInvalidation
--                    packages/core/src/core: testSequencer.ts, onlyFailures.ts, resultsCache.ts,
--                    watchInvalidation.ts
--   Runtime/Tree, Modes, Concurrency   packages/core/src/runtime/runner/task.ts
--   Runtime/Attempt, Retry, FileRun    packages/core/src/runtime/runner/runner.ts
--   Runtime/Fixtures, FixtureScopes    packages/core/src/runtime/runner/fixtures.ts
--   Results/TestState      packages/core/src/core/stateManager.ts
--   Coverage/Thresholds    packages/core/src/coverage/checkThresholds.ts
--   Prelude          shared names, Boolean tests on numbers, lists and sorting
-- The Examples modules hold concrete runs.
--
-- How code corresponds to definitions. A class is a record of its fields, a method or a callback a
-- function on the record under the method's name in snake case (`handleExit` is `handle_exit`), and
-- `step` applies the function of an event. JavaScript runs each callback to its end, so a run of the
-- program is a list of events. A method with an `await` is split there:
--   * the runner keeps what its operation awaits as `phase`, the chain of operations as `queue`, and
--     promises as Booleans; `settle` runs the continuations and the next operations after each event.
--     Settled promises, requests and calls of the worker are recorded in `out`;
--   * the pool keeps callers that wait in `slot_waiters`, and callers that have been woken but have not
--     resumed in `woken`; `resume` lets the first of them go on, at any later point of the run. The
--     worker ids name the runners, and `grants` lists what each call has been given.
-- In the test runner the user's functions are numbers; a `World` says what each call does, from the calls
-- before it, and the log of an attempt lists them. A suite keeps the lists that its tests push to.
-- Errors are values, numbers are natural: byte counts, milliseconds, and percentages in hundredths.
--
-- Parameters stand for code that is not in the repository or answers from outside: `send_error` says
-- which sends throw; `Env` says whether a runner is usable and what the gate answers; `Readings` is what
-- the clock and the system say; `path_le` and `le` are `localeCompare`; `normalize` and `relative` are
-- those of the library pathe, `matches` is picomatch, `summary_of` the coverage library; run ids of the
-- registry come with the events, in place of `randomUUID`. In the test runner, `worlds`, `suite_hook`
-- and `bails` say what the user's tests and hooks do and when the host asks to stop, `skips` is the
-- match of the name pattern, and `answers` what a handler registered with the dispatch router returns.
--
-- Bounds. Every loop is structural recursion, but for three. That of `acquireRunner` has, from one `await`
-- to the next, as many rounds as there are idle runners and one more, and each round but the last takes
-- one out. The retry loop of a test has fuel for one round more than its test lets it use. `useFixture`
-- goes at most as deep as there are fixtures, since each level has one more pending.
--
-- In the model the tests of a file run one after the other: in which order concurrent tests start and
-- end is not modelled. The functions that `limitConcurrency` is given return a promise, as those of its
-- only caller do, and never throw before they have.
--
-- Not modelled: the processes, threads and streams below the pool, the text that captured stderr adds to
-- an error, the contents of the rpc channel, files on disk, logs and their colours; in the workers the
-- registration of tests, the timers behind a timeout, mocks and snapshots; the bundler's configuration,
-- reporters, the command line and the browser's documents.
pub mod Prelude
pub mod Pool
pub mod Browser
pub mod Coverage
pub mod Selection
pub mod Runtime
pub mod Results
