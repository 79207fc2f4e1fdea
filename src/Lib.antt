-- ===== src/Lib.antt =====
-- FleetForge: the staged rollout of firmware releases to a fleet of devices.
--
-- The program. A release names the devices that it goes to; each gets a task. An agent claims the
-- task of its device under a lease, starts it, reports on it and confirms it; a lease that runs out
-- is reaped, a task that failed waits out a backoff, and a release with too many failures is rolled
-- back. The service keeps all releases, devices and tasks in maps. Each change is logged as an event
-- in the store, which also keeps a snapshot of the maps, and a restart replays the log over the
-- snapshot.
--
-- The files, and the code that they model:
--   Domain/Status, Model     internal/domain/status.go, model.go: statuses and records
--   Domain/State             internal/domain/state.go: `ValidTransition`; State/Graph the paths
--                            that it allows
--   Domain/Task              internal/domain/lifecycle.go, the methods of `Task`; Task/Leases and
--                            Task/Retry what they guarantee
--   Domain/Release           internal/domain/lifecycle.go, policy.go, model.go, the methods of
--                            `Release`; its child modules what they guarantee
--   Domain/Validation        internal/domain/validation.go
--   Events, Store            internal/events/event.go, internal/store/store.go (`State`, `Store`),
--                            internal/store/memory.go (Store/Memory)
--   Store/Disk, Lines, Json  what the stores use of Go's `os`, `bufio` and `encoding/json`, with
--                            `splitLines` of internal/store/store.go
--   Store/Durable            internal/store/durable.go: `Append`, `Snapshot`, `LoadReport`; its child
--                            modules what they do where no call fails (Healthy, Log, Load), after a
--                            torn write (Torn), and whatever fails (Replace, Atomic)
--   Store/Durable/Maintenance  internal/store/maintenance.go
--   Store/File               internal/store/store.go, `FileStore`
--   Store/Export, Journal    internal/store/export.go; journal.go and codec.go
--   Scheduler                internal/scheduler/limits.go (`Active`)
--   Scheduler/Plan           internal/scheduler/plan.go, scheduler.go (`Status`)
--   Service/Base             what a method of the service can do: the state, errors, panics, the
--                            store, the clock, the ids
--   Service/Core             internal/service/service.go: `New`, `Recover`, `emit`, `apply`,
--                            `reconcile`
--   Service/Releases,        internal/service/service.go, workflow.go, reporting.go, rollback.go:
--     Devices, Tasks         the commands on releases, devices and tasks
--   Service/Dispatch         internal/service/dispatch.go, query.go: `DispatchDecision`,
--                            `EligibleTasks`, `ClaimWithTTL`, `Claim`
--   Service/Rollback         internal/service/rollback.go: `QueueRollback`, `ClaimRollback`,
--                            `CompleteRollback`, `ReapExpired`
--   Service/Commands         all commands as one data type, and runs of them
--   Service/Keeps            rules by which a command keeps an invariant; Service/Preserved applies
--                            them to every command once, for all invariants that satisfy the laws
--   Service/WellFormed       one such invariant: keys are ids, and none occurs twice
--   Service/Sync             another: the log, replayed, gives the state, with and without the
--                            snapshot; Sync/Memory and Sync/Durable show it of the two stores
--   Service/Inversion,       what a command that returned has done, what a claim grants, when it
--     Grants, Outcomes       succeeds and when it fails
--   Service/Reaping          what a reaping counts and leaves of each task; Service/Stored what
--                            saving a record leaves in the maps
--   Service/Pages            internal/service/pagination.go, `ListReleases` of workflow.go
--   Service/Metrics          internal/service/metrics.go, `MetricsSnapshot`
--   Service/Views            what is read of the state in internal/service/query.go, reporting.go
--                            and workflow.go; `Once` of internal/recovery/replay.go
--   Service/Ticking          internal/scheduler/scheduler.go, `Tick` on the service
--   Recovery                 internal/recovery/check.go, report.go
--   Health, Audit            internal/health/health.go, detail.go; internal/audit/summary.go
--   Backoff                  internal/backoff/backoff.go, internal/lease/lease.go
--   Scenarios                the workflow of internal/cli/cli.go `RunSmoke` and the theorems at
--                            concrete inputs
--
-- How the code is modelled. A method of the service is a function from the service to a result (a
-- value, an error or a panic) and the service afterwards, which is there on errors and panics too.
-- `Time`, `Duration` and `int` are integers: nanoseconds from Go's zero time, with the wrap-around
-- of int64 written out (`int64`) where a result may leave the range. A Go map is a list of keys
-- and values in the order in which a loop visits it; what is shown holds for every order. A loop
-- over a map visits the entries that it had when the loop began, and a task that it finds is
-- written under the key at which it was found; claims, which sort what a loop found, write a task
-- under its id, which is the same key in a well-formed state. `sort.Slice` is an insertion sort.
-- The data of an event is the record that its JSON encodes (`Payload`), `raw` any other text. The
-- clock's readings and the ids are arbitrary streams, read in the order of the calls. `claimMu`
-- makes claims sequential; the other commands take no lock, and that commands run one after the
-- other is an assumption of the model. No function here uses fuel: loops are recursions on lists.
--
-- Files. A disk holds the files of the store's directory by name, and each call of `os` on it may
-- fail, as an arbitrary stream of faults says: it then has no effect, but for a write, which may
-- have written the beginning. A crash is a stream that fails from some call on. The reads of a
-- file that is open do not fail. An error that wraps another one is its cause. `bufio.Scanner`
-- gives lines up to one that fills its buffer. The details of a corrupt record are its offset.
--
-- Parameters. The store is a record of operations (`StoreOps`) over its own state; the recovery of
-- a restart needs a store that satisfies `Journal`, which Service/Sync/Memory shows of the store
-- in memory and Service/Sync/Durable of the durable store. JSON is a pair of functions (`Json`);
-- where a theorem needs it, `Unmarshal` reads back what `Marshal` wrote on one line (`IsJson`), or
-- what `MarshalIndent` wrote on many (`ReadsBack`), and Scenarios/Codes has such functions. What
-- is decoded is a record whose maps are not nil, with their entries in the order written.
--
-- Not modelled: what `Unmarshal` makes of an event's data that encodes a record of another type,
-- which is taken to write nothing; the float quotients `Progress` and `FailureRate`; that the maps
-- of a snapshot of MemoryStore are the live ones, and that `Merge` of internal/audit/summary.go
-- writes into the maps of its first argument; statuses other than the constants;
-- `ReleaseTaskCounts` (internal/service/pagination.go) and the views that only pass on another
-- function's result; the scheduler's ticker loop (internal/scheduler/scheduler.go, `Run`),
-- internal/audit/audit.go, the configuration, the HTTP routes and the command line, which are
-- input and output.
pub mod Prelude
pub mod Domain
pub mod Events
pub mod Store
pub mod Scheduler
pub mod Audit
pub mod Health
pub mod Backoff
pub mod Service
pub mod Recovery
mod Scenarios
