-- ===== src/Lib.antt =====
-- A verification library for pipee: the parts of the program that keep state and take decisions,
-- modelled as functions, and the theorems that make them correct.
--
-- The program is an application around coding agents (apps/pipee) with extensions. Eight parts are
-- modelled, each in a tree of modules:
--
-- * `Loop` is the loop extension (extensions/loop/src), which gives a session prompts on a
--   schedule. `Loop/Model` is domain/model.ts: a loop is once, cron, interval or manual, and
--   waits for a time or to be armed. `Loop/Cron` is domain/cron.ts: `Cron/Parse` has `parseField`
--   and `parseCron`, `Cron/Instant` has `localParts`, `matches`, `nextCronInstant`,
--   `stableFraction` and `nextCronDue`, `Cron/Phrases` has `parseIntervalMs` and `cronToHuman`.
--   `Loop/Transition` is domain/transition.ts: `tick` claims an occurrence of a loop and advances
--   it, `arm` makes a manual loop wait again. `Loop/Repository` is application/repository.ts:
--   `Repository/State` has the state, `attemptProjectOwnership`, `stateForId`, `persist`,
--   `commit` and `releaseEmptyOwnership`; `Repository/Operations` has the operations, which call
--   them and `tick` and `arm`. Each operation runs under the mutation lock and is one step.
--   `Loop/Requests` is application/operations.ts: `buildLoop` and the loop that `update` puts in
--   place of another, and in `Requests/Actions` `makeLoopOperations` over the repository.
--   `Loop/Runtime` is what the extension takes from the JavaScript runtime.
--
-- * `Broker` is the command broker of the Chrome bridge (extensions/chrome/src/core/broker.ts).
--   `Broker/Mailbox` has one mailbox: the parts of `send`, `next`, `complete` and `stopMailbox`,
--   each update of the state, offer to the queue and completion of a reply one atomic step.
--   `Broker/Steps` has these steps as events in any order, with who holds the delivery permit,
--   from the entry to its return after the wait has ended, and which reserved commands are still
--   to be offered. `Broker/Registry` has the mailboxes by
--   connector: `register`, `drop` and `stop`, and `Broker/View` the map that they stand for.
--
-- * `Journal` is the command journal of the browser extension
--   (extensions/chrome/src/browser/command-journal.ts): loading and recovering, recording an
--   execution and a result, and clearing. What is written is kept as a later load decodes it.
--   `Journal/Turns` is `connectorRuntimeStep` and
--   `settleBrowserCommand` of connector-runtime-step.ts, a turn of the connector over the journal.
--
-- * `Actions` is extensions/chrome/src/protocol/action-graph.ts: the verbs that an element of a
--   page offers, and the merge of what the document and the accessibility tree show.
--
-- * `App` has parts of the application: `App/Slot` is
--   apps/pipee/src/server/session-operation-slot.ts, the slot that admits one operation of a
--   session at a time, and `App/Notices` is apps/pipee/src/lib/notices.ts, the notices on screen.
--
-- * `Session` is what the browser knows of a session:
--   apps/pipee/src/features/session/session-ui-state.ts. `Session/Messages`, `Session/Model` and
--   `Session/Actions` have the state, the actions, and the schemas of apps/pipee/src/api/contract.ts
--   that they use; `Session/Runtime` has `installRuntimeIdentity` and `applyRuntime`,
--   `Session/Context` the loading of snapshots, branches and earlier pages, `Session/Events` the
--   events of a runtime, `Session/Reducer` `sessionUiReducer`, and `Session/Project` the messages,
--   entries and sources that are shown.
--
-- * `Runtimes` is apps/pipee/src/server/session-runtime-registry.ts, the table of the runtimes of
--   sessions: `Runtimes/Table` has `start`, `installHandle`, the failure of a start, the closing of
--   a handle, its finalizer on the table and `shutdown` as atomic steps that other fibers may come
--   between.
--
-- * `Weixin` is the Weixin extension (extensions/weixin/src). `Weixin/State` has the state of the
--   bridge with its changes (schema.ts and `withProcessed`, `appendBatch`,
--   `beginCollectedDispatch`, `transitionInbound` and the operations of `makeStateStore` in
--   state.ts), `Weixin/Store` its file (`readUnlocked`, `writeUnlocked`, `update`),
--   `Weixin/Message` `parseInboundMessage` and `renderInboundPrompt` and `Weixin/Split`
--   `splitTextReply` of message.ts, and `Weixin/Routes` the table of route-store.ts.
--
-- `Base` has what they share: Boolean tests on numbers, lists measured by native numbers, a map
-- with string keys in insertion order, as JavaScript has it, and decimal texts.
--
-- Bounds and fuel. Numbers that the schemas check to be non-negative integers are natural
-- numbers. `nextCronInstant` searches on fuel of one round for each minute of its 366 days, and
-- one more, which covers the span. A stepped range makes at most one round for each value up to
-- its end, as the step is at least 1. `splitTextReply` takes at least one code point in a round,
-- so that the length of the reply is enough fuel. The 32-bit hash wraps as written out. The
-- bounds of the bridge contract (64 commands, 35 seconds) are arguments.
--
-- Parameters. The formatter of dates, the product of doubles in the jitter, the arithmetic of the
-- seconds in a request, the lower case and the trim of a text, the hash that names a batch, the
-- JSON codec, the file system, the database, the cross-process lease and the persistence of the
-- session are libraries: what they answer is an argument; so are the contract of the operations
-- and the JSON transport to the journal. The theorem on the file of the bridge state assumes that
-- its codec reads back what it writes, the one on recorded results that what is valid stays valid
-- and that the transport keeps the result; no other assumes anything of them. A write of a
-- durable file either replaces it or leaves it, as its rename does.
--
-- Not modelled: the scheduler above the repository; texts of error messages; time, randomness and
-- the waiting of fibers, which stand as events and arguments; the views, the HTTP server, what
-- the agent library does in a runtime, the idle time of runtimes and the streams of their events,
-- the transport of the Weixin extension, and the other extensions. Of the schemas, what the
-- program only passes on is its JSON text.
pub mod Base
pub mod Loop
pub mod Broker
pub mod App
pub mod Actions
pub mod Session
pub mod Weixin
pub mod Runtimes
pub mod Journal
