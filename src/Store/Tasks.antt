-- ===== src/Store/Tasks.antt =====
-- src/store/records.ts: `transition`, `claimTask`, `releaseClaim`, `retryTask`, `startAttempt` and
-- `finishAttempt`.
pub mod Moves
pub mod Claims
use multi_agent_build_system.Prelude.{
  ℕ, ◌+◌, String, Bool, true, false, ◌&&◌, ◌||◌, not, Option, none, some, List, [], ◌∷◌, str_eq,
  ◌==◌, if◌then◌else◌, is_some, is_empty, find, includes, Outcome, ok, throw, ◌>>=◌, ◌>>◌, throw_if,
}
use multi_agent_build_system.Task.{TaskState, state_eq, can_transition}
use multi_agent_build_system.Failure.{FailureClass}
use multi_agent_build_system.Store.{
  Task, AttemptState, Attempt, task_state_changed, task_claimed, task_retry_requested, Db,
  StoreError, unknown_task, invalid_transition, invalid_task_fields, version_changed, not_retryable,
  unresolved_attempt, task_key, require,
}
use multi_agent_build_system.Store.Table.{lookup, update}

unfoldable pub get_task : String → Db → Option Task
get_task id d = lookup task_key id d.tasks

-- A column that `transition` is asked to set. The columns that the model keeps carry their value;
-- any other carries its name.
pub data TaskField : Type 0 where
  set_claimed_by : Option String → TaskField
  set_blocked_reason : Option String → TaskField
  set_failure_class : Option FailureClass → TaskField
  set_result_revision : Option String → TaskField
  set_repair_limit : ℕ → TaskField
  other_column : String → TaskField

-- The rest of `TASK_MUTABLE_COLUMNS`.
abbrev mutable_columns : List String
mutable_columns =
    "role" ∷ "task_class" ∷ "complexity" ∷ "ambiguity" ∷ "change_risk" ∷ "language" ∷ "domain"
    ∷ "context_size" ∷ "required_tools" ∷ "allowed_scope" ∷ "priority" ∷ "execution_mode"
    ∷ "execution_reason" ∷ "in_scope_actions" ∷ "repairs_used" ∷ "deadline_at" ∷ "branch"
    ∷ "worktree_path" ∷ "base_revision" ∷ "claimed_at" ∷ "result_summary" ∷ []

invalid_fields : List TaskField → List String
invalid_fields [] = []
invalid_fields (other_column name ∷ fields) =
    let rest = invalid_fields fields in if includes mutable_columns name then rest else name ∷ rest
invalid_fields (_ ∷ fields) = invalid_fields fields

assert_task_fields : List TaskField → Outcome StoreError (Unit {0})
unfolding invalid_fields
assert_task_fields fields =
    throw_if (not (is_empty (invalid_fields fields))) (invalid_task_fields (invalid_fields fields))

set_field : TaskField → Task → Task
set_field (set_claimed_by v) t = record t { claimed_by = v }
set_field (set_blocked_reason v) t = record t { blocked_reason = v }
set_field (set_failure_class v) t = record t { failure_class = v }
set_field (set_result_revision v) t = record t { result_revision = v }
set_field (set_repair_limit v) t = record t { repair_limit = v }
set_field (other_column name) t = t

set_fields : List TaskField → Task → Task
unfolding set_field
set_fields [] t = t
set_fields (f ∷ fields) t = set_fields fields (set_field f t)

-- The row that `transition` writes.
unfoldable pub enter : TaskState → List TaskField → Task → Task
unfolding set_fields
enter to fields t =
    set_fields fields (record t { state = to; record_version = t.record_version + 1 })

unfoldable pub assert_transition : TaskState → TaskState → Outcome StoreError (Unit {0})
assert_transition from to = throw_if (not (can_transition from to)) (invalid_transition from to)

-- `if (from !== to) assertTransition(from, to)`
unfoldable pub assert_move : TaskState → TaskState → Outcome StoreError (Unit {0})
unfolding assert_transition
assert_move from to = if state_eq from to then ok tt else assert_transition from to

unfoldable pub transition : String → TaskState → List TaskField → Db → Outcome StoreError Db
unfolding get_task assert_task_fields assert_move enter
transition id to fields d = do
  assert_task_fields fields
  current ← require (get_task id d) (unknown_task id)
  assert_move current.state to
  ok (record d {
    tasks = update task_key id (enter to fields) d.tasks;
    events = task_state_changed id current.state to ∷ d.events;
  })

-- `WHERE id = ? AND state = 'READY' AND claimed_by IS NULL`
abbrev pub is_claimable : Task → Bool
is_claimable t = state_eq t.state TaskState.ready && not (is_some t.claimed_by)

abbrev pub claim : String → Task → Task
claim launch_id t = record t { claimed_by = some launch_id; record_version = t.record_version + 1 }

-- The result is null, here `none`, where the UPDATE changes no row.
unfoldable pub claim_task : String → String → Db → Option Db
unfolding get_task
claim_task id launch_id d = elim (get_task id d) [
  | none ↦ none
  | some t ↦
      if is_claimable t
      then some (record d {
        tasks = update task_key id (claim launch_id) d.tasks;
        events = task_claimed id launch_id ∷ d.events;
      })
      else none
]

abbrev pub unclaim : Task → Task
unclaim t = record t { claimed_by = none; record_version = t.record_version + 1 }

unfoldable pub release_claim : String → Db → Db
release_claim id d = record d { tasks = update task_key id unclaim d.tasks }

abbrev pub is_running : Attempt → Bool
is_running a = elim a.state [ AttemptState.running ↦ true | _ ↦ false ]

unfoldable pub running_attempt : String → Db → Option Attempt
running_attempt id d = find (λ a. str_eq a.task_id id && is_running a) d.attempts

abbrev pub retried : Task → Task
retried t = record t {
  state = TaskState.ready;
  claimed_by = none;
  blocked_reason = none;
  failure_class = none;
  record_version = t.record_version + 1;
}

no_attempt : String → Option Attempt → Outcome StoreError (Unit {0})
no_attempt id none = ok tt
no_attempt id (some a) = throw (unresolved_attempt id a.id)

unfoldable pub retry_task : String → ℕ → Db → Outcome StoreError Db
unfolding get_task assert_transition running_attempt no_attempt
retry_task id expected d = do
  current ← require (get_task id d) (unknown_task id)
  throw_if (not (current.record_version == expected))
      (version_changed id expected current.record_version)
  throw_if
      (not (state_eq current.state TaskState.blocked || state_eq current.state TaskState.failed))
      (not_retryable id current.state)
  no_attempt id (running_attempt id d)
  assert_transition current.state TaskState.ready
  ok (record d {
    tasks = update task_key id retried d.tasks;
    events = task_retry_requested id id ∷ d.events;
  })
