-- ===== src/Execution.antt =====
-- src/domain/execution.ts: the stages of an execution, their states, and the state of the task that runs one.
use multi_agent_build_system.Prelude.{ℕ, Bool, ◌==◌}
use multi_agent_build_system.Task.{TaskState}

pub data ExecutionStage : Type 0 where
  prepare_workspace preflight implement finalize check review repair accept : ExecutionStage

pub data StageState : Type 0 where
  ready reserved launching running succeeded failed waiting cancelled unknown : StageState

-- The position of a stage in `EXECUTION_STAGES`.
abbrev pub stage_rank : ExecutionStage → ℕ
stage_rank prepare_workspace = 0
stage_rank preflight = 1
stage_rank implement = 2
stage_rank finalize = 3
stage_rank check = 4
stage_rank review = 5
stage_rank repair = 6
stage_rank accept = 7

-- `===` on stages
abbrev pub stage_eq : ExecutionStage → ExecutionStage → Bool
stage_eq a b = stage_rank a == stage_rank b

unfoldable pub task_state_for_stage : ExecutionStage → TaskState
task_state_for_stage check = TaskState.checking
task_state_for_stage finalize = TaskState.checking
task_state_for_stage review = TaskState.reviewing
task_state_for_stage accept = TaskState.reviewing
task_state_for_stage _ = TaskState.running

pub data EpisodeStatus : Type 0 where
  active completed failed cancelled : EpisodeStatus
