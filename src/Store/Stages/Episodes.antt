-- ===== src/Store/Stages/Episodes.antt =====
-- src/store/records.ts: the rows of episodes and stages, and `createExecutionEpisode`. The constraints of
-- the tables stand where the statement that would break them stands.
use multi_agent_build_system.Prelude.{
  ℕ, ◌+◌, max, String, Bool, true, false, ◌&&◌, ◌||◌, not, Option, List, [], ◌∷◌, str_eq, ◌==◌,
  if◌then◌else◌, is_some, or_default, any, Outcome, ok, ◌>>=◌, ◌>>◌, throw_if,
}
use multi_agent_build_system.Task.{TaskState, state_eq}
use multi_agent_build_system.Execution.{EpisodeStatus}
use multi_agent_build_system.Store.{
  Task, Episode, StageRun, episode_started, Db, StoreError, unknown_task, version_changed,
  task_is_over, episode_already_active, constraint_violation, task_key, episode_key, stage_key,
  require,
}
use multi_agent_build_system.Store.Table.{lookup, update, insert}
use multi_agent_build_system.Store.Tasks.{get_task}

unfoldable pub get_episode : String → Db → Option Episode
get_episode id d = lookup episode_key id d.episodes

unfoldable pub get_stage : String → Db → Option StageRun
get_stage id d = lookup stage_key id d.stages

-- `["DONE", "CANCELLED"].includes(state)`
abbrev pub is_over : TaskState → Bool
is_over state = state_eq state TaskState.done || state_eq state TaskState.cancelled

abbrev pub is_active : EpisodeStatus → Bool
is_active EpisodeStatus.active = true
is_active _ = false

-- `task_id = ? AND status = 'active'`
abbrev pub is_active_of : String → Episode → Bool
is_active_of task e = str_eq e.task_id task && is_active e.status

-- `COALESCE(MAX(episode_number), 0) + 1` over the episodes of a task
pub next_episode_number : String → List Episode → ℕ
next_episode_number task [] = 1
next_episode_number task (e ∷ rows) =
    let rest = next_episode_number task rows in
    if str_eq e.task_id task then max (e.episode_number + 1) rest else rest

-- A write that bumps the version of a task.
abbrev pub touched : Task → Task
touched t = record t { record_version = t.record_version + 1 }

-- `input.expectedTaskVersion` against the version that is stored
unfoldable pub assert_version : Task → ℕ → Outcome StoreError (Unit {0})
assert_version t expected =
    throw_if (not (t.record_version == expected)) (version_changed t.id expected t.record_version)

-- A fresh id breaks no primary key.
unfoldable pub assert_fresh {ℓ} : {A : Type ℓ} → Option A → Outcome StoreError (Unit {0})
assert_fresh found = throw_if (is_some found) constraint_violation

abbrev pub new_episode : String → Task → List Episode → ℕ → ℕ → Episode
new_episode id t rows repairs recoveries = record {
  id = id;
  task_id = t.id;
  episode_number = next_episode_number t.id rows;
  status = EpisodeStatus.active;
  repair_limit = repairs;
  repairs_consumed = 0;
  recovery_limit = recoveries;
  recoveries_consumed = 0;
}

-- The limits are naturals, so the check of their sign has nothing to refuse.
unfoldable pub create_execution_episode :
    String → String → ℕ → Option ℕ → Option ℕ → Db → Outcome StoreError Db
unfolding get_task get_episode assert_version assert_fresh next_episode_number
create_execution_episode id task expected repairs recoveries d = do
  t ← require (get_task task d) (unknown_task task)
  assert_version t expected
  throw_if (is_over t.state) (task_is_over task t.state)
  throw_if (any (is_active_of t.id) d.episodes) (episode_already_active task)
  assert_fresh (get_episode id d)
  ok (record d {
    episodes =
        insert
          (new_episode id t d.episodes (or_default repairs t.repair_limit)
            (or_default recoveries 2))
          d.episodes;
    tasks = update task_key task touched d.tasks;
    events = episode_started task id ∷ d.events;
  })
