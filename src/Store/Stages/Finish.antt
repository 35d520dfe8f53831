-- ===== src/Store/Stages/Finish.antt =====
-- src/store/records.ts: `recordLaunchStarted` and `finishStage`.
use multi_agent_build_system.Prelude.{
  ◌+◌, String, Bool, true, false, ◌&&◌, not, Option, none, some, List, ◌∷◌, map, str_eq,
  if◌then◌else◌, or_default, any, filter, option_eq, includes, Outcome, ok, ◌>>=◌, ◌>>◌, throw_if,
}
use multi_agent_build_system.Task.{TaskState, state_eq}
use multi_agent_build_system.Failure.{FailureClass}
use multi_agent_build_system.Execution.{ExecutionStage, accept, StageState, stage_eq, EpisodeStatus}
use multi_agent_build_system.Store.{
  Task, Episode, StageRun, stage_launch_started, stage_finished, Db, StoreError, unknown_task,
  unknown_stage, stale_fencing_token, stage_not_launchable, stage_terminal, constraint_violation,
  task_key, attempt_key, episode_key, stage_key, gate_key, require,
}
use multi_agent_build_system.Store.Table.{update}
use multi_agent_build_system.Store.Tasks.{get_task, assert_move}
use multi_agent_build_system.Store.Stages.Episodes.{get_stage, touched}

-- `IN ('reserved','launching')`
abbrev pub is_launchable : StageState → Bool
is_launchable StageState.reserved = true
is_launchable StageState.launching = true
is_launchable _ = false

-- `IN ('reserved','launching','running','waiting','unknown')`
abbrev pub is_unfinished : StageState → Bool
is_unfinished StageState.reserved = true
is_unfinished StageState.launching = true
is_unfinished StageState.running = true
is_unfinished StageState.waiting = true
is_unfinished StageState.unknown = true
is_unfinished _ = false

-- `attempt_id` and `gate_id` name rows that exist, and no other stage names the same one.
abbrev pub is_free : Option String → List (Option String) → Bool
is_free none used = true
is_free (some h) used = not (any (λ u. option_eq u (some h)) used)

abbrev pub exists_in : Option String → List String → Bool
exists_in none ids = true
exists_in (some h) ids = includes ids h

abbrev pub others : String → List StageRun → List StageRun
others id rows = filter (λ s. not (str_eq s.id id)) rows

unfoldable pub assert_handles :
    String → Option String → Option String → Db → Outcome StoreError (Unit {0})
assert_handles id attempt gate d =
    throw_if
      (not (
        exists_in attempt (map attempt_key d.attempts)
        && exists_in gate (map gate_key d.gates)
        && is_free attempt (map (λ s. s.attempt_id) (others id d.stages))
        && is_free gate (map (λ s. s.gate_id) (others id d.stages))))
      constraint_violation

abbrev pub launched : Option String → Option String → StageRun → StageRun
launched attempt gate s = record s {
  state = StageState.running;
  attempt_id = attempt;
  gate_id = gate;
}

unfoldable pub record_launch_started :
    String → String → Option String → Option String → Db → Outcome StoreError Db
unfolding get_task get_stage assert_handles
record_launch_started id token attempt gate d = do
  s ← require (get_stage id d) (unknown_stage id)
  throw_if (not (str_eq s.fencing_token token)) (stale_fencing_token id)
  throw_if (not (is_launchable s.state)) (stage_not_launchable id)
  assert_handles id attempt gate d
  t ← require (get_task s.task_id d) (unknown_task s.task_id)
  ok (record d {
    stages = update stage_key id (launched attempt gate) d.stages;
    tasks = update task_key s.task_id touched d.tasks;
    events = stage_launch_started s.task_id id ∷ d.events;
  })

-- The states that `finishStage` accepts.
pub data FinalState : Type 0 where
  succeeded failed waiting cancelled unknown : FinalState

abbrev pub stage_state : FinalState → StageState
stage_state succeeded = StageState.succeeded
stage_state failed = StageState.failed
stage_state waiting = StageState.waiting
stage_state cancelled = StageState.cancelled
stage_state unknown = StageState.unknown

pub record StageOutcome : Type 0 where
  pub state : FinalState
  pub failure_class : Option FailureClass
  pub failure_detail : Option String
  pub task_state : Option TaskState

-- `nextTaskState` where the outcome names none
abbrev pub implied_task_state : FinalState → ExecutionStage → TaskState → TaskState
implied_task_state cancelled stage current = TaskState.cancelled
implied_task_state failed stage current = TaskState.blocked
implied_task_state waiting stage current = TaskState.blocked
implied_task_state unknown stage current = TaskState.blocked
implied_task_state succeeded stage current =
    if stage_eq stage accept then TaskState.done else current

unfoldable pub next_task_state : StageOutcome → ExecutionStage → TaskState → TaskState
next_task_state o stage current = or_default o.task_state (implied_task_state o.state stage current)

abbrev pub first_of_two {ℓ} : {A : Type ℓ} → Option A → Option A → Option A
first_of_two none b = b
first_of_two (some a) b = some a

abbrev pub finished_task : StageOutcome → TaskState → Task → Task
finished_task o next t =
    if state_eq next TaskState.blocked
    then record t {
      state = next;
      record_version = t.record_version + 1;
      blocked_reason = o.failure_detail;
      failure_class = first_of_two o.failure_class t.failure_class;
      claimed_by = none;
    }
    else record t { state = next; record_version = t.record_version + 1; blocked_reason = none }

abbrev pub finished_stage : StageOutcome → StageRun → StageRun
finished_stage o s = record s {
  state = stage_state o.state;
  failure_class = o.failure_class;
  failure_detail = o.failure_detail;
}

-- What becomes of the episode: completed by an accepted stage, cancelled by a cancelled one.
abbrev pub closed_status : FinalState → ExecutionStage → EpisodeStatus → EpisodeStatus
closed_status succeeded stage status =
    if stage_eq stage accept then EpisodeStatus.completed else status
closed_status cancelled stage status = EpisodeStatus.cancelled
closed_status _ stage status = status

abbrev pub closed_episode : FinalState → ExecutionStage → Episode → Episode
closed_episode state stage e = record e { status = closed_status state stage e.status }

unfoldable pub finish_stage : String → String → StageOutcome → Db → Outcome StoreError Db
unfolding get_task get_stage next_task_state assert_move
finish_stage id token o d = do
  s ← require (get_stage id d) (unknown_stage id)
  throw_if (not (str_eq s.fencing_token token)) (stale_fencing_token id)
  throw_if (not (is_unfinished s.state)) (stage_terminal id)
  t ← require (get_task s.task_id d) (unknown_task s.task_id)
  assert_move t.state (next_task_state o s.stage t.state)
  ok (record d {
    stages = update stage_key id (finished_stage o) d.stages;
    tasks = update task_key s.task_id (finished_task o (next_task_state o s.stage t.state)) d.tasks;
    episodes = update episode_key s.episode_id (closed_episode o.state s.stage) d.episodes;
    events = stage_finished id (stage_state o.state) (next_task_state o s.stage t.state) ∷ d.events;
  })
