-- ===== src/Store/Tasks/Moves.antt =====
-- src/store/records.ts: what the task operations guarantee, on success and on refusal.
use multi_agent_build_system.Prelude.{
  ◌+◌, String, ◌≡◌, refl, ◌≢◌, ◌⊎◌, inl, inr, true, some, List, [], ◌∷◌, arith, Option-cases, ok,
}
use multi_agent_build_system.Task.{TaskState, can_transition, state_eq_iff}
use multi_agent_build_system.Store.{Task, task_state_changed, Db, task_key}
use multi_agent_build_system.Store.Tasks.{
  get_task, TaskField, set_field, set_fields, enter, assert_transition, assert_move, transition,
}
use multi_agent_build_system.Store.Table.{update, lookup-update_self, lookup-update_ne}

set_fields-id : (fields : List TaskField) (t : Task) → (set_fields fields t).id ≡ t.id
unfolding set_fields set_field
set_fields-id [] t = refl
set_fields-id (f ∷ fields) t = ground (arith, set_fields-id fields (set_field f t))

set_fields-state :
    (fields : List TaskField) (t : Task)
    → ((set_fields fields t).state ≡ t.state)
      × ((set_fields fields t).record_version ≡ t.record_version)
unfolding set_fields set_field
set_fields-state [] t = (refl, refl)
set_fields-state (f ∷ fields) t = ground (arith, set_fields-state fields (set_field f t))

-- What a successful `transition` has done.
pub record IsMoved (id : String) (to : TaskState) (d d' : Db) : Type 0 where
  pub before : Task
  pub after : Task
  pub found : get_task id d ≡ some before
  pub allowed : (before.state ≡ to) ⊎ (can_transition before.state to ≡ true)
  pub written : get_task id d' ≡ some after
  pub entered : (after.state ≡ to) × (after.record_version ≡ before.record_version + 1)
  pub others : (j : String) → id ≢ j → get_task j d' ≡ get_task j d
  pub logged : d'.events ≡ task_state_changed id before.state to ∷ d.events

pub enter-id : (to : TaskState) (fields : List TaskField) (t : Task) → (enter to fields t).id ≡ t.id
unfolding enter
enter-id to fields t = set_fields-id fields _

pub enter_state :
    (to : TaskState) (fields : List TaskField) (t : Task)
    → ((enter to fields t).state ≡ to) × ((enter to fields t).record_version ≡ t.record_version + 1)
unfolding enter
enter_state to fields t = set_fields-state fields _

pub move_allowed :
    (from to : TaskState)
    → assert_move from to ≡ ok tt
    → (from ≡ to) ⊎ (can_transition from to ≡ true)
unfolding assert_move assert_transition
move_allowed from to h = ground (arith, state_eq_iff from to)

pub transition-ok :
    (id : String) (to : TaskState) (fields : List TaskField) (d : Db) {d' : Db}
    → transition id to fields d ≡ ok d'
    → (t : Task) × (get_task id d ≡ some t)
      × (assert_move t.state to ≡ ok tt)
      × (d' ≡ record d {
        tasks = update task_key id (enter to fields) d.tasks;
        events = task_state_changed id t.state to ∷ d.events;
      })
unfolding transition
transition-ok id to fields d h = elim (Option-cases (get_task id d)) [
  | inl missing ↦ absurd (ground arith)
  | inr (t, found) ↦ (t, found, ground arith, ground arith)
]

-- A transition that succeeds was allowed.
pub transition-IsMoved :
    (id : String) (to : TaskState) (fields : List TaskField) (d : Db) {d' : Db}
    → transition id to fields d ≡ ok d'
    → IsMoved id to d d'
unfolding get_task
transition-IsMoved id to fields d h =
    let (t, found, moved, e) = transition-ok id to fields d h in
    record {
      before = t;
      after = enter to fields t;
      found = found;
      allowed = move_allowed t.state to moved;
      written =
          rw e
            (lookup-update_self task_key id (enter to fields) d.tasks (enter-id to fields) found);
      entered = enter_state to fields t;
      others = λ j ne.
          rw e (lookup-update_ne task_key id j (enter to fields) d.tasks (enter-id to fields) ne);
      logged = rw e;
    }
