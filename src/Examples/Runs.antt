-- ===== src/Examples/Runs.antt =====
-- What holds of any sequence of calls, of the one of the examples.
use multi_agent_build_system.Prelude.{◌≤◌, ◌≡◌, refl, some, arith, str_eq_iff, All}
use multi_agent_build_system.Store.{Task, StageRun, AdmissionLease, Approval}
use multi_agent_build_system.Store.Tasks.{get_task}
use multi_agent_build_system.Store.Stages.{
  get_stage, record_launch_started, finish_stage, record_gate,
}
use multi_agent_build_system.Store.Leases.{get_lease, activate_admission}
use multi_agent_build_system.Store.Approvals.{get_approval}
use multi_agent_build_system.Store.Calls.{call_claim, perform, run}
use multi_agent_build_system.Examples.Rows.{
  ready_task, stage_run, lease, approval, database, foreign_calls, calls,
}
use multi_agent_build_system.Store.Calls.Tasks.{Moved, run-Moved}
use multi_agent_build_system.Execution.{StageState}
use multi_agent_build_system.Store.Calls.Episodes.{IsWithinBudget, run_budget}
use multi_agent_build_system.Store.Calls.Single.{IsSingle, run-IsSingle}
use multi_agent_build_system.Store.Calls.Stages.{StageKeeps, run-StageKeeps}
use multi_agent_build_system.Store.Calls.Leases.{LeaseKeeps, run-LeaseKeeps}
use multi_agent_build_system.Store.Calls.Approvals.{ApprovalKeeps, run-ApprovalKeeps}
use multi_agent_build_system.Store.Table.{lookup, update}

run-Moved_example :
    (u v : Task) × (get_task "task-1" (run calls database) ≡ some u)
    × (3 ≤ u.record_version)
    × (get_task "task-1" (perform (call_claim "task-1" "launch-2") (run calls database)) ≡ some v)
    × Moved u v
unfolding get_task lookup
run-Moved_example =
    run-Moved calls (call_claim "task-1" "launch-2") "task-1" database {t = ready_task} refl

-- The others admit the stage to its launch and bind a result to it, and do not start it.
others_bind :
    get_stage "stage-1" (run foreign_calls database)
    ≡ some (record stage_run { state = StageState.launching; gate_id = some "gate-1" })
unfolding run perform lookup update get_stage record_gate finish_stage activate_admission
    record_launch_started
others_bind = refl

budget_kept : All IsWithinBudget database.episodes
budget_kept = ((omega arith, omega arith), tt)

run_budget_example : All IsWithinBudget (run calls database).episodes
run_budget_example = run_budget calls database budget_kept

database-IsSingle : IsSingle database.episodes
unfolding lookup
database-IsSingle i j e f p q a b same =
    ground (arith, str_eq_iff "episode-1" i, str_eq_iff "episode-1" j)

run-IsSingle_example : IsSingle (run calls database).episodes
run-IsSingle_example = run-IsSingle calls database database-IsSingle

run-StageKeeps_example :
    (s' : StageRun) × (get_stage "stage-1" (run calls database) ≡ some s') × StageKeeps stage_run s'
unfolding get_stage lookup
run-StageKeeps_example = run-StageKeeps calls "stage-1" database {s = stage_run} refl

run-LeaseKeeps_example :
    (l' : AdmissionLease) × (get_lease "lease-1" (run calls database) ≡ some l')
    × LeaseKeeps lease l'
unfolding get_lease lookup
run-LeaseKeeps_example = run-LeaseKeeps calls "lease-1" database {l = lease} refl

run-ApprovalKeeps_example :
    (a' : Approval) × (get_approval "approval-1" (run calls database) ≡ some a')
    × ApprovalKeeps approval a'
unfolding get_approval lookup
run-ApprovalKeeps_example = run-ApprovalKeeps calls "approval-1" database {a = approval} refl
