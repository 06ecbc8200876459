-- ===== src/Lib.antt =====
-- The mission core of Odin-Agent: missions as replayed event streams, the recovery from failures,
-- the durable store of jobs, events and checkpoints, and the coordination of specialists that work
-- on a mission's tasks.
--
-- Parts and files.
-- src/mission/runtime.ts: Mission. State holds the states and `assertTransition`; Graph holds
-- `normalizeTask` and `validateTaskGraph`; Budget the counters; Snapshot the snapshot, the events
-- and `transitionEvent`, `taskStatusEvent`, `budgetDebitEvent`, `canRetry`, `applyEvent`; Project
-- holds `projectMission`; Runnable `runnableTasks`; Runtime the class MissionRuntime. The other
-- modules of Mission are proofs: Graph.Search, Fuel, Index, Dag and Total for the depth-first
-- search, Transitions, Applied,
-- Invariant, History, Safety and Liveness for snapshots and streams, and the children of Runtime
-- for calls that run side by side.
-- src/events/store.ts: Events, the store in memory that MissionRuntime appends to and loads from.
-- src/reliability: Reliability. Types, Classifier (`classifyFailure`), Controller
-- (`ReliabilityController.decide`) and Adapters (`classifyThrownFailure`); Controller.Safety and
-- Controller.Acceptance are proofs.
-- src/durable: Durable. Types and Rows hold the data, the tables and `decodeJobRow`; Jobs the SQL
-- statements and the private methods; Queue `enqueueJob`, `claimJob` and the maintenance of
-- expired leases; Settle the heartbeat, the settlements and `cancelJob`; Calls the transactions;
-- Reads `getJob`, `readJobEvents` and `jobCounts`; Runner what DurableJobRunner makes of a run and
-- how it settles it.
-- Json and Codec hold `canonicalize` and the decoding of persisted events (mission-codec.ts), Missions
-- `append` and `load` of mission events, Checkpoints `saveCheckpoint` and `loadCheckpoint`, with
-- mission/checkpoint.ts in Mission.Checkpoint; Json.Canonical, Codec.RoundTrip, Codec.Canonical and the
-- children of Missions and Checkpoints are proofs.
-- Machine is the abstract state machine of a job's row, Refinement shows that the operations move along
-- it, and Safety and Cancellation what follows for sequences of calls.
-- src/coordination: Coordination. Types and Outcomes hold the data of types.ts; Checks internal.ts;
-- Ownership the claims and their conflicts; Registry the specialists; Specs `normalizeTaskSpecs`
-- and the options; State a SpecialistCoordinator, its clock and how plans end; Planning the tests
-- of one task in `plan`, Plans the whole of it; Execution `execute`, `releasePlan` and
-- `activeLeases`; Reconcile and Verdict result.ts. A plan is made from Mission's snapshot and its
-- `runnableTasks`. The other modules are proofs: Ownership.Laws and Writers, Registry.Keys,
-- Planning.Fits, Plans.Partition, Verdict.Laws, Leases and Safety for the active leases, and the
-- children of Execution for plans that are started once.
-- Prelude holds what they share: a result monad, dictionaries, sets, JavaScript numbers and texts.
--
-- How the code is modelled.
-- A method is a function of the state that returns the new state, or an error. A thrown error is a
-- constructor without its message. A failed transaction leaves the old database.
-- Each method of MissionRuntime awaits the store twice. The model makes the batch from the loaded
-- snapshot first (`prepare`), and appends it and loads again later (`commit`); other calls may
-- come between.
-- A number from a caller is an integer or something else, with the check of `isSafeInteger`
-- written out; behind the check it is a natural number or an integer. The job store's numbers are
-- natural numbers with the bounds of `assertSafeInteger`.
-- Texts are sequences of Unicode scalar values; lengths are counted in UTF-16 units. A canonical
-- UTC timestamp of the job store is the number of its milliseconds, as text and number order agree
-- for the years 1970 to 9999.
-- A method of the coordinator returns the state that it leaves with its result or error, since some
-- errors come after a change. `execute` waits for workers, so its start, the end of each worker and
-- its own end are steps between which other calls run; a worker, its time limit and its abort
-- signal are seen as the events that they cause. The record that an execution holds is found by its
-- hash.
-- The recursion of `visit` takes fuel, one more than the number of tasks.
-- The durable store is open. In the job operations the byte bounds of `canonicalJson` are out of
-- reach of the bounded identifiers; for mission events they are checked. A SQLite table is a list
-- of rows in the order of insertion, its primary key the first row found.
-- TypeScript's types are taken as kept: checks that only tell a value of another type, or a field
-- that is missing or unknown, are not modelled, but for the decoding of persisted events and
-- checkpoints, which takes any JSON value.
-- Plain objects keyed by text are dictionaries. The names of the members of `Object.prototype` are
-- excluded as task ids, failure signatures and reason codes.
--
-- Parameters of the model: `Date.parse` and the JSON fingerprint of a batch (Events), the hashes of
-- canonical JSON and the order of `localeCompare` (Reliability, Coordination), the evidence
-- authority (Coordination.Verdict), SHA-256, the JSON hashes and the limits
-- (Durable.Jobs.Platform), SHA-256, the writing and parsing of JSON texts and the test of a
-- timestamp (Durable.Missions.Texts). The token of a lease and the readings of the clock are
-- arguments.
--
-- Not modelled: the runner's loop; routing, tools, memory, skills, clients and the
-- rest of the repository.
mod Prelude
pub mod Coordination
pub mod Durable
pub mod Events
pub mod Mission
pub mod Reliability
