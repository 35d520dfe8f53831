-- ===== src/Store.antt =====
-- src/store/records.ts, with the tables of src/store/schema.sql and
-- src/store/migrations/015_durable_execution.sql: the rows that the task, execution, admission and approval
-- operations read and write. Columns that none of them reads (times and free text) are left out.
-- A table is the list of its rows in the order of insertion. A statement that runs in `Store.tx`
-- and throws leaves the database as it was, so an operation is a function from the database to an
-- error or to the next database. Fresh ids and the fencing tokens that a caller leaves out are arguments.
pub mod Table
pub mod Tasks
pub mod Stages
pub mod Leases
pub mod Approvals
pub mod Calls
use multi_agent_build_system.Prelude.{ℕ, String, Option, none, some, List, Outcome, ok, throw}
use multi_agent_build_system.Task.{TaskState}
use multi_agent_build_system.Failure.{FailureClass}
use multi_agent_build_system.Policy.{ApprovalBinding}
use multi_agent_build_system.Execution.{ExecutionStage, StageState, EpisodeStatus}

pub record Task : Type 0 where
  pub id : String
  pub project_id : String
  pub state : TaskState
  pub record_version : ℕ
  pub claimed_by : Option String
  pub blocked_reason : Option String
  pub failure_class : Option FailureClass
  pub result_revision : Option String
  pub repair_limit : ℕ

pub data AttemptState : Type 0 where
  running succeeded failed cancelled : AttemptState

pub record Attempt : Type 0 where
  pub id : String
  pub task_id : String
  pub launch_id : String
  pub attempt_number : ℕ
  pub state : AttemptState

pub record Episode : Type 0 where
  pub id : String
  pub task_id : String
  pub episode_number : ℕ
  pub status : EpisodeStatus
  pub repair_limit : ℕ
  pub repairs_consumed : ℕ
  pub recovery_limit : ℕ
  pub recoveries_consumed : ℕ

pub record StageRun : Type 0 where
  pub id : String
  pub task_id : String
  pub episode_id : String
  pub stage : ExecutionStage
  pub ordinal : ℕ
  pub state : StageState
  pub attempt_id : Option String
  pub gate_id : Option String
  pub launch_key : String
  pub input_fingerprint : String
  pub engine_revision : String
  pub fencing_token : String
  pub failure_class : Option FailureClass
  pub failure_detail : Option String

pub data LeaseStatus : Type 0 where
  reserved active released expired cancelled : LeaseStatus

pub record AdmissionLease : Type 0 where
  pub id : String
  pub stage_run_id : String
  pub controller_id : String
  pub fencing_token : String
  pub provider : Option String
  pub quota_domain : Option String
  pub project_id : String
  pub resources : List String
  pub status : LeaseStatus

pub data ApprovalState : Type 0 where
  pending approved rejected invalidated consumed : ApprovalState

pub record Approval : Type 0 where
  pub id : String
  pub project_id : String
  pub task_id : Option String
  pub binding : ApprovalBinding
  pub state : ApprovalState

pub record Project : Type 0 where
  pub id : String
  pub base_branch : String
  pub config_version : String

-- A row of `events`: its kind with the ids and states that its data holds.
pub data Event : Type 0 where
  task_state_changed : String → TaskState → TaskState → Event
  task_claimed task_retry_requested : String → String → Event
  episode_started recovery_consumed : String → String → Event
  stage_reserved stage_launch_started : String → String → Event
  stage_finished : String → StageState → TaskState → Event
  admission_reserved admission_activated admission_released : String → String → Event
  approval_requested approval_approved approval_rejected : String → Event
  approval_invalidated approval_consumed : String → Event
  gate_result : String → String → Event

-- What `recordGate` compares and binds; the rest of its columns is the evidence that it stores.
pub record GateResult : Type 0 where
  pub id : String
  pub task_id : String
  pub name : String
  pub revision : String
  pub stage_run_id : Option String
  pub input_fingerprint : Option String

pub record Db : Type 0 where
  pub tasks : List Task
  pub attempts : List Attempt
  pub episodes : List Episode
  pub stages : List StageRun
  pub leases : List AdmissionLease
  pub approvals : List Approval
  pub projects : List Project
  pub gates : List GateResult
  pub events : List Event

-- What an operation throws: the message with the values put into it.
pub data StoreError : Type 0 where
  unknown_task unknown_stage unknown_episode unknown_lease unknown_approval : String → StoreError
  invalid_transition : TaskState → TaskState → StoreError
  invalid_task_fields : List String → StoreError
  version_changed : String → ℕ → ℕ → StoreError
  not_retryable task_is_over : String → TaskState → StoreError
  unresolved_attempt : String → String → StoreError
  episode_already_active episode_not_active : String → StoreError
  invalid_ordinal missing_provenance : StoreError
  repair_limit_reached recovery_limit_reached : String → StoreError
  stale_fencing_token : String → StoreError
  stage_not_launchable stage_terminal stage_not_reserved : String → StoreError
  lease_not_reservable lease_terminal : String → StoreError
  approval_not_pending approval_not_approved : String → ApprovalState → StoreError
  approval_stale : String → List String → StoreError
  different_evidence : String → StoreError
  gate_unbound : String → String → StoreError
  constraint_violation : StoreError

abbrev pub task_key : Task → String
task_key t = t.id

abbrev pub attempt_key : Attempt → String
attempt_key a = a.id

abbrev pub episode_key : Episode → String
episode_key e = e.id

abbrev pub stage_key : StageRun → String
stage_key s = s.id

abbrev pub lease_key : AdmissionLease → String
lease_key l = l.id

abbrev pub approval_key : Approval → String
approval_key a = a.id

abbrev pub gate_key : GateResult → String
gate_key g = g.id

abbrev pub project_key : Project → String
project_key p = p.id

-- `const row = get(…); if (!row) throw e`
abbrev pub require {ℓ} : {A : Type ℓ} → Option A → StoreError → Outcome StoreError A
require none e = throw e
require (some a) e = ok a
