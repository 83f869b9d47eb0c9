-- ===== src/Lib.antt =====
-- MAR coordinates software agents: tasks are submitted, wait for resources, get a workspace, are
-- run by attempts, and change the world by side effects that are recorded beforehand. This
-- library models the Go code that decides who may do what, and proves that the decisions are
-- safe.
--
-- The parts, and the files that model them (paths from the repository's root):
-- - Governor.antt, of internal/resourcegov/governor.go: claims, admission (TryAcquire, Evaluate),
--   pressure on admitted work, leases and idle maintenance. Its children hold the proofs: Sums
--   and Admission on the arithmetic, Capacity on the limits, Leases and History on histories of
--   calls, Reservations on wrap-around and the order of the map, Pressure on running work.
-- - Domain/Task, Domain/Effect, Domain/Control, Domain/Goal, Domain/Verification,
--   Domain/Integration (with workspace.go) and Domain/Blocker, of the files of these names in
--   internal/domain: states, records, validation.
-- - Text.antt: what is used of the package strings. Sql.antt: how UPDATE, SELECT and COUNT are
--   read over lists of rows.
-- - Store.antt and its children, of internal/store. Projects and Tasks (sqlite.go), Recovery
--   (recovery.go), Controls, ControlQueries and Cancellation (control.go) and Effects (effect.go)
--   hold the calls, one function for each, as transactions: a result and the new store, or an
--   error and the store as it was. Tame, Calls, ControlCalls, ProjectCalls, Fencing, Authority,
--   History and Safety follow authority through any history of calls, in which the rest of
--   internal/store may set the states and times of tasks; Guards, Exclusion, Revocation, Replays
--   and ControlReplays speak of single calls; Dispatches, EffectBounds and OneDispatch count the
--   dispatches of an effect. Scheduling (scheduler.go) holds the ordered lists of tasks, Blockers
--   (task_blocker.go) the explanations of blocked tasks. Integration (integration.go) holds the
--   publication of verified candidates: Calls has the calls, each a read and then a transaction,
--   and Queries what the daemon reads; Places says where an attempt and its task may stand; Moves
--   and Kept follow that through each write, Steps through a step relation and Runs through lists
--   of calls, with the cancellation of tasks among them; Refusals, Unguarded and Ends speak of
--   single calls. Verification (verification.go) holds the call that stores the outcome of a
--   verification.
-- - Effects.antt, of internal/effects/manager.go: plans of side effects, over Store/Effects.
-- - Scheduler.antt, of internal/scheduler/scheduler.go: priorities that age, the choice of the
--   next task (Order, Candidates, Selection, MapOrder, Aging). Scheduler/Step models Step, which
--   asks the governor for a lease, reclaims disk space stage by stage and moves tasks in the
--   store; its proofs are in Scheduler/Release.
-- - Aci.antt, of internal/aci: Strings (count and replace of package strings), Paths
--   (pathguard.go), Files (WriteFile and ReplaceExact of runtime.go, and replace_many.go), over a
--   tree of files that maps paths to nodes; Edits, Guarded and Writes hold the proofs.
-- - Service/Budget.antt, of internal/service/convergence_budget.go: the limits of a task and of
--   an episode, and the owner's override, over the store's controls and attempts; Service/Retry
--   holds its proof.
--
-- The scheduler's step runs the governor and the store, and the publication moves the same task
-- rows that cancellation moves. The effects manager writes effect rows, which the store accepts
-- only from an attempt with authority; authority comes from BeginAttempt and goes by the other
-- calls.
--
-- Conventions. Identifiers and texts that are only compared are numbers, and the blank text is 0;
-- texts that are read are lists of code points. Hashes that differ in case or in surrounding
-- blanks are one number. Times are numbers. A uint64 sum is taken modulo 2 ^ 64, and a percentage
-- counts thousandths. A history is a list of calls, in the order in which the mutex or the
-- serializable transactions put them. The functions are structural recursions, so that no fuel is
-- needed.
--
-- Not modelled: I/O errors of the database, SQL migrations, processes, git, HTTP and the user
-- interface; of files, their permissions and what other processes do to them. SHA-256 digests,
-- the reading of JSON texts, the encoding of an effect's payload, path cleaning, the sensor's
-- readings and the workspace provisioner are arguments. The agent loop, the orchestrator, the
-- workspace manager, the MCP edge and the counting of usage are left out as well.
pub mod Prelude
pub mod Text
pub mod Sql
pub mod Governor
pub mod Domain
pub mod Store
pub mod Effects
pub mod Scheduler
pub mod Aci
pub mod Service
