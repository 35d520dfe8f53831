-- ===== src/Store/Stages/Reserve.antt =====
-- src/store/records.ts: `reserveStage` and `consumeRecovery`.
use multi_agent_build_system.Prelude.{
  ℕ, ◌+◌, String, Bool, true, false, ◌&&◌, ◌||◌, not, Option, none, ◌∷◌, str_eq, leb, ◌==◌,
  if◌then◌else◌, or_default, any, is_blank, Outcome, ok, ◌>>=◌, ◌>>◌, throw_if,
}
use multi_agent_build_system.Task.{TaskState}
use multi_agent_build_system.Execution.{
  ExecutionStage, repair, StageState, stage_eq, task_state_for_stage,
}
use multi_agent_build_system.Store.{
  Task, Episode, StageRun, recovery_consumed, stage_reserved, Db, StoreError, unknown_task,
  unknown_episode, task_is_over, episode_not_active, invalid_ordinal, missing_provenance,
  repair_limit_reached, recovery_limit_reached, constraint_violation, task_key, episode_key,
  require,
}
use multi_agent_build_system.Store.Table.{update, insert}
use multi_agent_build_system.Store.Tasks.{get_task, assert_move}
use multi_agent_build_system.Store.Stages.Episodes.{
  get_episode, get_stage, is_over, is_active, assert_version, assert_fresh,
}

pub record StageRequest : Type 0 where
  pub task_id : String
  pub episode_id : String
  pub stage : ExecutionStage
  pub ordinal : ℕ
  pub launch_key : String
  pub input_fingerprint : String
  pub engine_revision : String
  pub expected_task_version : ℕ
  pub consume_repair : Option Bool
  pub consume_recovery : Option Bool

-- `stage === "repair" && consumeRepair !== false`
abbrev pub charges_repair : StageRequest → Bool
charges_repair r = stage_eq r.stage repair && or_default r.consume_repair true

-- `consumeRecovery === true`
abbrev pub charges_recovery : StageRequest → Bool
charges_recovery r = or_default r.consume_recovery false

abbrev pub add_repair : Episode → Episode
add_repair e = record e { repairs_consumed = e.repairs_consumed + 1 }

abbrev pub add_recovery : Episode → Episode
add_recovery e = record e { recoveries_consumed = e.recoveries_consumed + 1 }

abbrev pub charge_repair : StageRequest → Episode → Episode
charge_repair r e = if charges_repair r then add_repair e else e

-- The two charges that `reserveStage` makes on the episode.
abbrev pub charged : StageRequest → Episode → Episode
charged r e = if charges_recovery r then add_recovery (charge_repair r e) else charge_repair r e

-- A null condition of `WHERE id = ? AND task_id = ?` or an episode that is not active.
abbrev pub is_open_for : String → Episode → Bool
is_open_for task e = str_eq e.task_id task && is_active e.status

-- `launch_key` and `fencing_token` are unique, and so is the triple of episode, stage and ordinal.
abbrev pub clashes : StageRequest → String → StageRun → Bool
clashes r token s =
    str_eq s.launch_key r.launch_key
    || str_eq s.fencing_token token
    || (str_eq s.episode_id r.episode_id && stage_eq s.stage r.stage && s.ordinal == r.ordinal)

abbrev pub new_stage : String → String → StageRequest → StageRun
new_stage id token r = record {
  id = id;
  task_id = r.task_id;
  episode_id = r.episode_id;
  stage = r.stage;
  ordinal = r.ordinal;
  state = StageState.reserved;
  attempt_id = none;
  gate_id = none;
  launch_key = r.launch_key;
  input_fingerprint = r.input_fingerprint;
  engine_revision = r.engine_revision;
  fencing_token = token;
  failure_class = none;
  failure_detail = none;
}

abbrev pub entered : TaskState → Task → Task
entered to t = record t { state = to; record_version = t.record_version + 1 }

-- The checks that read the request alone.
unfoldable pub assert_request : StageRequest → Outcome StoreError (Unit {0})
assert_request r = do
  throw_if (r.ordinal == 0) invalid_ordinal
  throw_if (is_blank r.launch_key || is_blank r.input_fingerprint || is_blank r.engine_revision)
      missing_provenance

-- The checks of the two budgets.
unfoldable pub assert_budget : StageRequest → Episode → Outcome StoreError (Unit {0})
assert_budget r e = do
  throw_if (charges_repair r && leb e.repair_limit e.repairs_consumed) (repair_limit_reached e.id)
  throw_if (charges_recovery r && leb e.recovery_limit e.recoveries_consumed)
      (recovery_limit_reached e.id)

unfoldable pub reserve_stage : String → String → StageRequest → Db → Outcome StoreError Db
reserve_stage id token r d = do
  assert_request r
  t ← require (get_task r.task_id d) (unknown_task r.task_id)
  assert_version t r.expected_task_version
  throw_if (is_over t.state) (task_is_over r.task_id t.state)
  e ← require (get_episode r.episode_id d) (episode_not_active r.episode_id)
  throw_if (not (is_open_for t.id e)) (episode_not_active r.episode_id)
  assert_budget r e
  assert_move t.state (task_state_for_stage r.stage)
  assert_fresh (get_stage id d)
  throw_if (any (clashes r token) d.stages) constraint_violation
  ok (record d {
    episodes = update episode_key r.episode_id (charged r) d.episodes;
    stages = insert (new_stage id token r) d.stages;
    tasks = update task_key r.task_id (entered (task_state_for_stage r.stage)) d.tasks;
    events = stage_reserved r.task_id id ∷ d.events;
  })

unfoldable pub consume_recovery : String → String → Db → Outcome StoreError Db
unfolding get_episode
consume_recovery episode stage d = do
  e ← require (get_episode episode d) (unknown_episode episode)
  throw_if (not (is_active e.status)) (episode_not_active episode)
  throw_if (leb e.recovery_limit e.recoveries_consumed) (recovery_limit_reached episode)
  ok (record d {
    episodes = update episode_key episode add_recovery d.episodes;
    events = recovery_consumed episode stage ∷ d.events;
  })
