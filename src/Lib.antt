-- ===== src/Lib.antt =====
-- A verification library for the multi-agent build system.
-- The program hands tasks to coding agents and keeps what happens in one SQLite database. A task
-- moves through the states of src/domain/states.ts. The store (src/store/records.ts) is the one
-- place that writes: it moves tasks, opens executions and their stages, gives out admission
-- leases, and records approvals, the capacity of providers and the lease of the one controller
-- that dispatches. The controller asks the scheduler (src/scheduling/admission.ts) and the
-- registry of launch capabilities (src/routing/capabilities.ts) before it starts work, the failure
-- classifier (src/core/failure.ts) when a process ends, the approval policy (src/domain/policy.ts)
-- before a consequential action, and governance (src/domain/project-policy.ts) and the review
-- policy (src/review/policy.ts) before work is accepted.
-- The modules:
--   Prelude       Boolean tests, lists, text and calls that may throw, with the library names that
--                 all share
--   Task          src/domain/states.ts: TaskState, TRANSITIONS as `transitions`, canTransition
--   Failure       src/core/failure.ts: classes and categories; Patterns has the tables, Classify
--                 has classifyFailure and classifyFromEnvelope, Diagnose has diagnoseFailure,
--                 Evidence what they guarantee
--   Policy        src/domain/policy.ts: evaluate, bindingMatches, describeStaleness
--   Execution     src/domain/execution.ts: stages and their states
--   Store         src/store/records.ts: the rows, and the database as a record of tables. Table
--                 has lookups and writes by key. Tasks, Stages, Leases and Approvals have one
--                 function for each method, from its arguments and the database to an error or the
--                 next database. Calls has any sequence of calls of these operations, where a call
--                 that throws leaves the database as it was, and Calls/Effect the step that each
--                 call is: what it has checked and changed.
--   Obligations   src/store/records.ts: recordObligation, reopenObligation, decideObligation,
--                 resolveObligation on the database with their table. Calls has any sequence of
--                 calls, with the store's other calls between them, Keeps what they keep, and
--                 Tracker the tracker of issues that the table stands for
--   Providers     src/store/records.ts: configureProvider, getProviderCapacity,
--                 noteProviderFailure, resetProvider
--   Routing       src/routing/capabilities.ts: findCapability, evaluateCapability;
--                 src/routing/router.ts: Routes has the default routes, Request what selectRoute is
--                 asked, Select selectRoute; Choice and Allowed say which route it chooses
--   Plan          src/domain/plan.ts: Draft has the plan as it is read, Checks what is asked of one
--                 task, Graph the searches (hasDependencyPath and the depth-first visit), Validate
--                 validateExecutionPlan, Fragments fragmentationWarnings, Ownership
--                 requirementOwnershipErrors; Accepted says what an accepted plan is
--   Scheduling    Scope (src/domain/plan.ts: scopesOverlap), Admission
--                 (src/scheduling/admission.ts: evaluateAdmission), Concurrency
--                 (AdaptiveConcurrency there), Fairness (fairOrder there)
--   Controller    src/store/records.ts: acquireControllerLease, releaseControllerLease;
--                 src/operator/liveness.ts: controllerLiveness
--   Governance    src/domain/project-policy.ts: resolveReviewChoice, evaluateProjectReadiness,
--                 assertGovernanceDecision
--   Review        src/review/policy.ts: normalizeReviewPolicy of a policy that has the declared types,
--                 evaluateReviewPolicy, the presets, weakensReview
--   Maintenance   Retention (src/maintenance/retention.ts: retentionCandidates, worktreeCandidates,
--                 pruneWorktrees) and Lock (src/maintenance/lock.ts: acquireMaintenanceLock by
--                 several processes, one call of the file system a step)
--   Intake        src/intake/types.ts, store.ts and service.ts. Briefs (setBriefState, insertProposal,
--                 invalidateAcceptance), Update (updateBrief for a patch of text fields) and Accept (acceptPlan
--                 from where the brief's governance has been found ready, the transaction of
--                 proposePlan, recordAcceptance). The digest of a proposal and toLowerCase are
--                 parameters; the unique index of src/store/schema.sql is record_acceptance's check
--   Examples      the theorems at concrete inputs
-- Conventions: an enumeration of strings is a data type, a nullable value an Option, and a thrown
-- error a value of an error type that names the message with what is put into it. Fresh ids,
-- tokens and the time are arguments. Versions, counters, limits and times are naturals, and the
-- sums that the code takes of them stay far below 2^53. The searches of
-- a plan's graph take fuel, one unit more than the plan has keys, which is enough since a call uses
-- up a key that is not on the stack (Plan/Graph/Fuel, Plan/Graph/Dependency); the rounds
-- of fairOrder take one unit more than there are candidates; every other loop runs over a list or a
-- text. The regular expression engine and the table of processes of the operating
-- system are parameters. Transactions are taken as SQLite documents them: all of one or nothing.
-- Not modelled: what only reads or writes the outside (processes, git, files, the command line,
-- dashboards), the reading of untyped JSON, the texts for a person, and the columns that no
-- modelled operation reads. To come: the writing of an accepted plan, attempts,
-- the questions of the intake and the decisions of the controller's loop.
mod Prelude
pub mod Task
pub mod Failure
pub mod Policy
pub mod Execution
pub mod Store
pub mod Providers
pub mod Routing
pub mod Scheduling
pub mod Controller
pub mod Governance
pub mod Review
mod Examples
pub mod Plan
pub mod Obligations
pub mod Maintenance
pub mod Intake
