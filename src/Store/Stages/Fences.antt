-- ===== src/Store/Stages/Fences.antt =====
-- src/store/records.ts: fencing tokens, and what `finishStage` leaves.
use multi_agent_build_system.Prelude.{
  String, ◌≡◌, refl, ◌≢◌, ◌⊎◌, true, false, Option, some, arith, str_eq_iff, ok, throw,
}
use multi_agent_build_system.Task.{TaskState, can_transition}
use multi_agent_build_system.Store.{
  Task, StageRun, AdmissionLease, Db, stale_fencing_token, stage_terminal, task_key, stage_key,
}
use multi_agent_build_system.Store.Table.{lookup-update_self}
use multi_agent_build_system.Store.Tasks.{get_task}
use multi_agent_build_system.Store.Tasks.Moves.{move_allowed}
use multi_agent_build_system.Store.Stages.Episodes.{get_stage}
use multi_agent_build_system.Store.Stages.Finish.{
  is_unfinished, record_launch_started, stage_state, StageOutcome, next_task_state, finished_task,
  finished_stage, finish_stage,
}
use multi_agent_build_system.Store.Leases.{get_lease, activate_admission, release_admission}
use multi_agent_build_system.Store.Calls.Accepted.{finish-ok}

-- A caller whose fencing token is not the stage's starts nothing and finishes nothing: both calls throw, whatever else
-- the caller passes.
pub stale_stage_token :
    (id token : String) (d : Db) (s : StageRun)
    → get_stage id d ≡ some s
    → s.fencing_token ≢ token
    → ((attempt gate : Option String)
        → record_launch_started id token attempt gate d ≡ throw (stale_fencing_token id))
      × ((o : StageOutcome) → finish_stage id token o d ≡ throw (stale_fencing_token id))
unfolding record_launch_started finish_stage
stale_stage_token id token d s found other = (
  λ attempt gate. ground (arith, str_eq_iff s.fencing_token token),
  λ o. ground (arith, str_eq_iff s.fencing_token token),
)

-- A caller whose fencing token is not the lease's neither activates nor releases it.
pub stale_lease_token :
    (id token : String) (d : Db) (l : AdmissionLease)
    → get_lease id d ≡ some l
    → l.fencing_token ≢ token
    → (activate_admission id token d ≡ throw (stale_fencing_token id))
      × (release_admission id token d ≡ throw (stale_fencing_token id))
unfolding activate_admission release_admission
stale_lease_token id token d l found other = (
  ground (arith, str_eq_iff l.fencing_token token),
  ground (arith, str_eq_iff l.fencing_token token),
)

pub finished_task-id :
    (o : StageOutcome) (to : TaskState) (t : Task) → (finished_task o to t).id ≡ t.id
finished_task-id o to t = ground arith

finish-terminal :
    (id token : String) (o : StageOutcome) (d : Db) {s : StageRun}
    → get_stage id d ≡ some s
    → s.fencing_token ≡ token
    → is_unfinished s.state ≡ false
    → finish_stage id token o d ≡ throw (stage_terminal id)
unfolding finish_stage
finish-terminal id token o d {s} found same over = ground (arith, str_eq_iff s.fencing_token token)

-- A stage that is finished with success, failure or cancellation has taken its task along the table of
-- transitions, and cannot be finished again with the same token.
pub finish_once :
    (id token : String) (o : StageOutcome) (d d' : Db)
    → finish_stage id token o d ≡ ok d'
    → is_unfinished (stage_state o.state) ≡ false
    → (s : StageRun) × (t : Task) × (get_stage id d ≡ some s)
      × (get_task s.task_id d ≡ some t)
      × (get_stage id d' ≡ some (finished_stage o s))
      × (get_task s.task_id d' ≡ some (finished_task o (next_task_state o s.stage t.state) t))
      × ((t.state ≡ next_task_state o s.stage t.state)
          ⊎ (can_transition t.state (next_task_state o s.stage t.state) ≡ true))
      × ((again : StageOutcome) → finish_stage id token again d' ≡ throw (stage_terminal id))
unfolding get_stage get_task
finish_once id token o d d' h final =
    let (s, t, at, found, fence, live, moved, e) = finish-ok id token o d h in
    let next : TaskState = next_task_state o s.stage t.state in
    let row : get_stage id d' ≡ some (finished_stage o s) =
      rw e (lookup-update_self stage_key id (finished_stage o) d.stages (λ x. refl) at) in
    (
      s,
      t,
      at,
      found,
      row,
      rw e (
          lookup-update_self task_key s.task_id (finished_task o next) d.tasks
            (finished_task-id o next) found),
      move_allowed t.state next moved,
      λ again.
          finish-terminal id token again d' row ((str_eq_iff s.fencing_token token).0 fence) final,
    )
