-- ===== src/Examples/Rows.antt =====
-- A database with one project, a ready task, its episode, a reserved stage, its lease and an approval.
use multi_agent_build_system.Prelude.{none, some, List, [], ◌∷◌}
use multi_agent_build_system.Task.{TaskState}
use multi_agent_build_system.Policy.{merge, ApprovalBinding}
use multi_agent_build_system.Execution.{implement, StageState, EpisodeStatus}
use multi_agent_build_system.Store.{
  Task, Episode, StageRun, LeaseStatus, AdmissionLease, ApprovalState, Approval, Project,
  GateResult, Db,
}
use multi_agent_build_system.Store.Stages.{FinalState, StageOutcome}
use multi_agent_build_system.Store.Approvals.{approve}
use multi_agent_build_system.Store.Calls.{
  Call, call_transition, call_claim, call_retry, call_create_episode, call_consume_recovery,
  call_launch_started, call_finish_stage, call_record_gate, call_activate_admission,
  call_decide_approval, call_consume_approval,
}

abbrev pub ready_task : Task
ready_task = record {
  id = "task-1";
  project_id = "project-1";
  state = TaskState.ready;
  record_version = 3;
  claimed_by = none;
  blocked_reason = none;
  failure_class = none;
  result_revision = some "abc123";
  repair_limit = 2;
}

abbrev pub blocked_task : Task
blocked_task = record ready_task { id = "task-2"; state = TaskState.blocked; record_version = 7 }

abbrev pub done_task : Task
done_task = record ready_task { id = "task-3"; state = TaskState.done; record_version = 9 }

abbrev pub episode : Episode
episode = record {
  id = "episode-1";
  task_id = "task-1";
  episode_number = 1;
  status = EpisodeStatus.active;
  repair_limit = 2;
  repairs_consumed = 1;
  recovery_limit = 2;
  recoveries_consumed = 0;
}

abbrev pub stage_run : StageRun
stage_run = record {
  id = "stage-1";
  task_id = "task-1";
  episode_id = "episode-1";
  stage = implement;
  ordinal = 1;
  state = StageState.reserved;
  attempt_id = none;
  gate_id = none;
  launch_key = "task-1:implement:1";
  input_fingerprint = "f";
  engine_revision = "e";
  fencing_token = "token-1";
  failure_class = none;
  failure_detail = none;
}

abbrev pub lease : AdmissionLease
lease = record {
  id = "lease-1";
  stage_run_id = "stage-1";
  controller_id = "controller-1";
  fencing_token = "token-2";
  provider = some "provider-1";
  quota_domain = none;
  project_id = "project-1";
  resources = "port:8080" ∷ [];
  status = LeaseStatus.reserved;
}

abbrev pub binding : ApprovalBinding
binding = record { action = merge; target = "main"; revision = "abc123"; config_version = "v1" }

abbrev pub approval : Approval
approval = record {
  id = "approval-1";
  project_id = "project-1";
  task_id = some "task-1";
  binding = binding;
  state = ApprovalState.pending;
}

abbrev pub project : Project
project = record { id = "project-1"; base_branch = "main"; config_version = "v1" }

abbrev pub database : Db
database = record {
  tasks = ready_task ∷ blocked_task ∷ done_task ∷ [];
  attempts = [];
  episodes = episode ∷ [];
  stages = stage_run ∷ [];
  leases = lease ∷ [];
  approvals = approval ∷ [];
  projects = project ∷ [];
  gates = [];
  events = [];
}

abbrev pub failed_outcome : StageOutcome
failed_outcome = record {
  state = FinalState.failed;
  failure_class = none;
  failure_detail = some "the build broke";
  task_state = some TaskState.ready;
}

-- A launch that is activated and started, a claim, an approval, and calls that are refused.
abbrev pub gate : GateResult
gate = record {
  id = "gate-1";
  task_id = "task-1";
  name = "test";
  revision = "r1";
  stage_run_id = some "stage-1";
  input_fingerprint = none;
}

-- Calls of others, none of which brings the token of the stage.
abbrev pub foreign_calls : List Call
foreign_calls =
    call_launch_started "stage-1" "token-9" none none
    ∷ call_activate_admission "lease-1" "token-2"
    ∷ call_finish_stage "stage-1" "token-9" failed_outcome
    ∷ call_record_gate gate
    ∷ []

abbrev pub calls : List Call
calls =
    call_activate_admission "lease-1" "token-2"
    ∷ call_activate_admission "lease-1" "token-2"
    ∷ call_launch_started "stage-1" "token-1" none none
    ∷ call_finish_stage "stage-1" "token-9" failed_outcome
    ∷ call_claim "task-1" "launch-1"
    ∷ call_consume_recovery "episode-1" "stage-1"
    ∷ call_create_episode "episode-2" "task-2" 7 none none
    ∷ call_decide_approval "approval-1" approve
    ∷ call_consume_approval "approval-1"
    ∷ call_retry "task-2" 8
    ∷ call_record_gate gate
    ∷ call_transition "task-3" TaskState.running []
    ∷ []
