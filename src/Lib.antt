-- ===== src/Lib.antt =====
-- The protocol runner executes work plans: a run goes through the steps of its plan, sends a prompt
-- for each, and follows the reports that come back; a step may be a group of items that executors
-- work on in parallel under leases.
--
-- Parts and files (paths from the root of the repository):
--   Core: packages/protocol-runner-core/src. Core.Types is types.ts, Core.Steps is steps.ts
--     (resolveStep and its like), Core.Transitions is transitions.ts (resolveTransition),
--     Core.StateMachine is state-machine.ts, Core.Actions is diagnostics.ts, Core.Completion is
--     completion.ts (the parsers and comparisons of reports). Core.Validation is validation.ts: its
--     children have the checks on a group's properties (Capabilities), on its items (SourcePaths,
--     GroupItems), the group (Groups) and the plan (Plan), and what an accepted plan satisfies
--     (Accepted). Core.Paths has the paths that it and the store share.
--   Store: the parallel tables of services/protocol-runner-api/src/store.ts. Store.Rows has the rows
--     and statuses, Store.Tables a run's tables and the shared statements, Store.Ids the checks and
--     the building of ids, Store.Error the errors. The operations are Store.Grant
--     (recordParallelPreflight, grantParallelLeases), Store.Heartbeat (recordParallelHeartbeat),
--     Store.AttemptResult (recordParallelAttemptResult), Store.Retry (retryParallelItem),
--     Store.Recover (recoverStaleParallelLeases) and Store.Control (controlParallelGroup).
--     Store.Setup has the rows that a new run inserts. Store.Invariant says what holds of the tables
--     between two transactions, and Store.History puts the operations together: a call of any of them
--     leaves the tables as they were when it throws.
--   Controller: services/protocol-runner-api/src/controller.ts. Controller has the state of one run
--     (its row, events, files, tables, and the prompts on their way); Controller.Action the steps that
--     calls are made of (loadRun, updateStoredState, appendStateChanged, notifyAttentionState) as
--     actions, which write to the state and may throw; Controller.Files the numbering of attempts;
--     Controller.Transition applyTransition and blockRun; Controller.Prompt sendCurrentPrompt, cut
--     where it awaits the desktop adapter; Controller.Manual an operator's calls, bindRun and closeRun
--     cut where they await the relay; Controller.Reports, Controller.Parallel, Controller.Results and
--     Controller.Start the other calls, Controller.Attention the words for a group that needs
--     attention. Controller.History is any sequence of calls from the run's creation, Controller.Replay
--     the status as the events tell it, and Controller.Invariant what holds between two calls, which
--     its children prove for each call.
--   Discord: packages/discord-transport/src/text.ts, with a text as the list of its UTF-16 units.
--   Transcript: packages/codex-remote-core/src/reducers.ts, the pages of a transcript
--     (windowTranscriptItems; Transcript.Window), the merging of transcripts (Transcript.Merge) and the
--     view with items that are not persisted (buildTranscriptViewState; Transcript.View).
--   DesktopQueue: services/codex-desktop-api/src/desktop-action-queue.ts, a state and its events.
--   Driver: services/protocol-runner-driver/src/driver.ts, one tick with the answers of the API.
--   Common has the shared names, tests and lemmas on lists, texts and sorting; Examples applies the
--   theorems to concrete inputs.
--
-- How the code is read. An operation of the store is a function from its arguments, the times that
-- the clock gives and the tables to a result, which is an error or a value with the new tables: the
-- source runs each operation in a transaction that is rolled back when it throws. The tables hold the
-- rows of one run, since every statement names the run. A time stamp is its number of milliseconds. An
-- `UPDATE` changes every row that passes its test, an `INSERT` checks the keys of the schema. Fresh ids
-- and the proof that a directory is absent are parameters. JavaScript values are a data type of their
-- own. The event loop around the desktop queue is a list of events; a queue that awaits an action
-- takes other events in between. Every loop goes over a list, but the one that splits a message, which
-- has one step of fuel for each unit of the text: each round takes off at least one. The limits of
-- messages are natural numbers; `Math.floor(maxLength * 0.4)` is then two fifths, rounded down.
-- `toLowerCase` is a parameter of the validator of plans.
--
-- A call of the controller is cut where it awaits the desktop or the relay adapter: sending a
-- prompt, binding and closing are two parts each, with any calls in between. The second part of a
-- binding works on the run as the first had loaded it, as the code does, so it can undo what a call
-- in between has changed; the theorem on runs asks that none does, and Examples.Binding has such a
-- case. Apart from these cuts a call is taken to run without another in between. The code also
-- awaits the store, files and the notifier; a call that is overtaken there is not modelled. What a
-- call asks of the file system or of other parts is an argument: the outcome of checks of files,
-- the answer of an adapter, a fresh token. What a call wrote before it throws stays written.
--
-- Not modelled: the prompt texts, the reading calls of the controller, its checks of files, what
-- the relay answers to a cleanup, the HTTP services, the JSON and hybrid storage, reading evidence
-- files, the executor's processes, the reading of another program's threads and notifications, the
-- Discord relay, the user interface, and the scripts.
pub mod Common
pub mod Controller
pub mod Core
pub mod Store
pub mod Discord
pub mod DesktopQueue
pub mod Driver
pub mod Transcript
pub mod Examples
