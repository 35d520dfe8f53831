-- ===== src/Examples/Operations.antt =====
-- The task, stage, lease and approval operations on the database of the examples.
use multi_agent_build_system.Prelude.{
  String, ◌≡◌, refl, ◌≢◌, ◌↔◌, ◌⊎◌, true, false, none, some, [], ◌∷◌, arith, is_empty, ok, throw,
}
use multi_agent_build_system.Task.{TaskState, state_eq, can_transition, state_eq_iff}
use multi_agent_build_system.Execution.{implement, StageState}
use multi_agent_build_system.Store.{
  Task, StageRun, ApprovalState, Approval, task_state_changed, task_claimed, task_retry_requested,
  stage_finished, Db, version_changed, stage_terminal, approval_stale, task_key, episode_key,
  stage_key,
}
use multi_agent_build_system.Store.Table.{lookup, update}
use multi_agent_build_system.Store.Tasks.{
  get_task, enter, transition, claim, claim_task, running_attempt, retried, retry_task,
}
use multi_agent_build_system.Store.Stages.{
  get_stage, FinalState, StageOutcome, next_task_state, finished_task, finished_stage,
  closed_episode, finish_stage,
}
use multi_agent_build_system.Store.Approvals.{
  get_approval, settled, drift, approve, decide_approval,
}
use multi_agent_build_system.Examples.Rows.{approval, project, database, calls}
use multi_agent_build_system.Store.Tasks.Claims.{claim_exclusive, retry_once}
use multi_agent_build_system.Store.Stages.Fences.{finish_once}
use multi_agent_build_system.Store.Calls.Stale.{Closed, stale_never_granted}
use multi_agent_build_system.Store.Calls.{run}
use multi_agent_build_system.Store.Approvals.Current.{IsCurrent, approve_iff}

state_ne : (a b : TaskState) → state_eq a b ≡ false → a ≢ b
state_ne a b h e = ground (arith, state_eq_iff a b)

abbrev claimed : Db
claimed = record database {
  tasks = update task_key "task-1" (claim "launch-1") database.tasks;
  events = task_claimed "task-1" "launch-1" ∷ [];
}

claims : claim_task "task-1" "launch-1" database ≡ some claimed
unfolding claim_task lookup
claims = refl

claim_exclusive_example :
    (t : Task) × (get_task "task-1" database ≡ some t)
    × (t.state ≡ TaskState.ready)
    × (t.claimed_by ≡ none)
    × (get_task "task-1" claimed ≡ some (claim "launch-1" t))
    × ((other : String) → claim_task "task-1" other claimed ≡ none)
claim_exclusive_example = claim_exclusive "task-1" "launch-1" database claimed claims

abbrev retried_once : Db
retried_once = record database {
  tasks = update task_key "task-2" retried database.tasks;
  events = task_retry_requested "task-2" "task-2" ∷ [];
}

retries : retry_task "task-2" 7 database ≡ ok retried_once
unfolding retry_task lookup can_transition
retries = refl

retry_once_example :
    (t : Task) × (get_task "task-2" database ≡ some t)
    × (t.record_version ≡ 7)
    × ((t.state ≡ TaskState.blocked) ⊎ (t.state ≡ TaskState.failed))
    × (running_attempt "task-2" database ≡ none)
    × (get_task "task-2" retried_once ≡ some (retried t))
    × (retry_task "task-2" 7 retried_once ≡ throw (version_changed "task-2" 7 8))
retry_once_example = retry_once "task-2" 7 database retried_once retries

abbrev moved : Db
moved = record database {
  tasks = update task_key "task-1" (enter TaskState.running []) database.tasks;
  events = task_state_changed "task-1" TaskState.ready TaskState.running ∷ [];
}

moves : transition "task-1" TaskState.running [] database ≡ ok moved
unfolding transition lookup can_transition
moves = refl

abbrev cancelled_outcome : StageOutcome
cancelled_outcome = record {
  state = FinalState.cancelled;
  failure_class = none;
  failure_detail = none;
  task_state = none;
}

abbrev finished : Db
finished = record database {
  stages = update stage_key "stage-1" (finished_stage cancelled_outcome) database.stages;
  tasks =
      update task_key "task-1" (finished_task cancelled_outcome TaskState.cancelled) database.tasks;
  episodes =
      update episode_key "episode-1" (closed_episode FinalState.cancelled implement)
        database.episodes;
  events = stage_finished "stage-1" StageState.cancelled TaskState.cancelled ∷ [];
}

finishes : finish_stage "stage-1" "token-1" cancelled_outcome database ≡ ok finished
unfolding finish_stage lookup can_transition
finishes = refl

finish_once_example :
    (s : StageRun) × (t : Task) × (get_stage "stage-1" database ≡ some s)
    × (get_task s.task_id database ≡ some t)
    × (get_stage "stage-1" finished ≡ some (finished_stage cancelled_outcome s))
    × (get_task s.task_id finished
        ≡ some
            (finished_task cancelled_outcome (next_task_state cancelled_outcome s.stage t.state) t))
    × ((t.state ≡ next_task_state cancelled_outcome s.stage t.state)
        ⊎ (can_transition t.state (next_task_state cancelled_outcome s.stage t.state) ≡ true))
    × ((again : StageOutcome)
        → finish_stage "stage-1" "token-1" again finished ≡ throw (stage_terminal "stage-1"))
finish_once_example =
    finish_once "stage-1" "token-1" cancelled_outcome database finished finishes refl

approve_iff_example : ((decide_approval "approval-1" approve database).1 ≡ ok tt) ↔ (
    (a : Approval) × (get_approval "approval-1" database ≡ some a)
    × (a.state ≡ ApprovalState.pending)
    × IsCurrent a database)
approve_iff_example = approve_iff "approval-1" database

grants_it : (decide_approval "approval-1" approve database).1 ≡ ok tt
unfolding decide_approval lookup
grants_it = refl

abbrev reconfigured : Db
reconfigured = record database { projects = record project { config_version = "v2" } ∷ [] }

has_drifted : is_empty (drift approval reconfigured) ≡ false
unfolding drift lookup
has_drifted = refl

finds_approval : get_approval "approval-1" reconfigured ≡ some approval
unfolding get_approval lookup
finds_approval = refl

stale_never_granted_example :
    ((decide_approval "approval-1" approve reconfigured).1
      ≡ throw (approval_stale "approval-1" (drift approval reconfigured)))
    × (get_approval "approval-1" (run calls (decide_approval "approval-1" approve reconfigured).0)
        ≡ some (settled ApprovalState.invalidated approval))
    × Closed "approval-1" (run calls (decide_approval "approval-1" approve reconfigured).0)
stale_never_granted_example =
    stale_never_granted "approval-1" reconfigured approval calls finds_approval refl has_drifted
