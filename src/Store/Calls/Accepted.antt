-- ===== src/Store/Calls/Accepted.antt =====
-- src/store/records.ts: what a call that does not throw has checked, and the database that it leaves.
use multi_agent_build_system.Prelude.{
  ℕ, ◌<◌, String, ◌≡◌, ◌⊎◌, inl, inr, true, false, Option, none, some, ◌∷◌, arith, str_eq,
  Option-cases, or_default, any, ok,
}
use multi_agent_build_system.Task.{TaskState, can_transition}
use multi_agent_build_system.Store.{
  Task, Episode, StageRun, LeaseStatus, AdmissionLease, ApprovalState, Approval, task_claimed,
  task_retry_requested, episode_started, recovery_consumed, stage_reserved, stage_launch_started,
  stage_finished, admission_reserved, admission_activated, admission_released, approval_requested,
  approval_consumed, Db, task_key, episode_key, stage_key, lease_key,
}
use multi_agent_build_system.Policy.{ApprovalBinding}
use multi_agent_build_system.Store.Table.{update, insert}
use multi_agent_build_system.Store.Tasks.{
  get_task, assert_move, is_claimable, claim, claim_task, running_attempt, retried, retry_task,
}
use multi_agent_build_system.Store.Stages.{
  get_episode, get_stage, is_over, is_active, is_active_of, touched, assert_fresh, new_episode,
  create_execution_episode, StageRequest, add_recovery, charged, is_open_for, new_stage, entered,
  assert_budget, reserve_stage, consume_recovery, is_launchable, is_unfinished, launched,
  record_launch_started, stage_state, StageOutcome, next_task_state, finished_task, finished_stage,
  closed_episode, finish_stage,
}
use multi_agent_build_system.Store.Approvals.{
  get_approval, request_approval, is_approved, settle, mark_approval_consumed,
}
use multi_agent_build_system.Store.Leases.{
  get_lease, AdmissionRequest, is_reserved_stage, lease_clashes, new_lease, reserve_admission,
  is_reserved_lease, is_held, with_status, launching_stage, activate_admission, release_admission,
}
use multi_agent_build_system.Execution.{task_state_for_stage}

pub claim-some :
    (id launch : String) (d : Db) {d' : Db}
    → claim_task id launch d ≡ some d'
    → (t : Task) × (get_task id d ≡ some t)
      × (is_claimable t ≡ true)
      × (d' ≡ record d {
        tasks = update task_key id (claim launch) d.tasks;
        events = task_claimed id launch ∷ d.events;
      })
unfolding claim_task
claim-some id launch d h = elim (Option-cases (get_task id d)) [
  | inl missing ↦ absurd (ground arith)
  | inr (t, found) ↦ (t, found, ground arith, ground arith)
]

pub retry-ok :
    (id : String) (expected : ℕ) (d : Db) {d' : Db}
    → retry_task id expected d ≡ ok d'
    → (t : Task) × (get_task id d ≡ some t)
      × (t.record_version ≡ expected)
      × ((t.state ≡ TaskState.blocked) ⊎ (t.state ≡ TaskState.failed))
      × (running_attempt id d ≡ none)
      × (can_transition t.state TaskState.ready ≡ true)
      × (d' ≡ record d {
        tasks = update task_key id retried d.tasks;
        events = task_retry_requested id id ∷ d.events;
      })
unfolding retry_task
retry-ok id expected d h = elim (Option-cases (get_task id d)) [
  | inl missing ↦ absurd (ground arith)
  | inr (t, found) ↦
      (t, found, ground arith, ground arith, ground arith, ground arith, ground arith)
]

pub create-ok :
    (id task : String) (expected : ℕ) (repairs recoveries : Option ℕ) (d : Db) {d' : Db}
    → create_execution_episode id task expected repairs recoveries d ≡ ok d'
    → (t : Task) × (get_task task d ≡ some t)
      × (is_over t.state ≡ false)
      × (any (is_active_of t.id) d.episodes ≡ false)
      × (assert_fresh (get_episode id d) ≡ ok tt)
      × (d' ≡ record d {
        episodes =
            insert
              (new_episode id t d.episodes
                (or_default repairs t.repair_limit)
                (or_default recoveries 2))
              d.episodes;
        tasks = update task_key task touched d.tasks;
        events = episode_started task id ∷ d.events;
      })
unfolding create_execution_episode
create-ok id task expected repairs recoveries d h = elim (Option-cases (get_task task d)) [
  | inl missing ↦ absurd (ground arith)
  | inr (t, found) ↦ (t, found, ground arith, ground arith, ground arith, ground arith)
]

pub reserve-ok :
    (id token : String) (r : StageRequest) (d : Db) {d' : Db}
    → reserve_stage id token r d ≡ ok d'
    → (t : Task) × (e : Episode) × (get_task r.task_id d ≡ some t)
      × (get_episode r.episode_id d ≡ some e)
      × (is_over t.state ≡ false)
      × (is_open_for t.id e ≡ true)
      × (assert_budget r e ≡ ok tt)
      × (assert_move t.state (task_state_for_stage r.stage) ≡ ok tt)
      × (d' ≡ record d {
        episodes = update episode_key r.episode_id (charged r) d.episodes;
        stages = insert (new_stage id token r) d.stages;
        tasks = update task_key r.task_id (entered (task_state_for_stage r.stage)) d.tasks;
        events = stage_reserved r.task_id id ∷ d.events;
      })
unfolding reserve_stage
reserve-ok id token r d h = elim (Option-cases (get_task r.task_id d)) [
  | inl missing ↦ absurd (ground arith)
  | inr (t, found) ↦ elim (Option-cases (get_episode r.episode_id d)) [
    | inl missing ↦ absurd (ground arith)
    | inr (e, at) ↦
        (t, e, found, at, ground arith, ground arith, ground arith, ground arith, ground arith)
  ]
]

pub consume-ok :
    (episode stage : String) (d : Db) {d' : Db}
    → consume_recovery episode stage d ≡ ok d'
    → (e : Episode) × (get_episode episode d ≡ some e)
      × (is_active e.status ≡ true)
      × (e.recoveries_consumed < e.recovery_limit)
      × (d' ≡ record d {
        episodes = update episode_key episode add_recovery d.episodes;
        events = recovery_consumed episode stage ∷ d.events;
      })
unfolding consume_recovery
consume-ok episode stage d h = elim (Option-cases (get_episode episode d)) [
  | inl missing ↦ absurd (ground arith)
  | inr (e, at) ↦ (e, at, ground arith, ground arith, ground arith)
]

pub launch-ok :
    (id token : String) (attempt gate : Option String) (d : Db) {d' : Db}
    → record_launch_started id token attempt gate d ≡ ok d'
    → (s : StageRun) × (get_stage id d ≡ some s)
      × (str_eq s.fencing_token token ≡ true)
      × (is_launchable s.state ≡ true)
      × (d' ≡ record d {
        stages = update stage_key id (launched attempt gate) d.stages;
        tasks = update task_key s.task_id touched d.tasks;
        events = stage_launch_started s.task_id id ∷ d.events;
      })
unfolding record_launch_started
launch-ok id token attempt gate d h = elim (Option-cases (get_stage id d)) [
  | inl missing ↦ absurd (ground arith)
  | inr (s, at) ↦ (s, at, ground arith, ground arith, ground arith)
]

pub finish-ok :
    (id token : String) (o : StageOutcome) (d : Db) {d' : Db}
    → finish_stage id token o d ≡ ok d'
    → (s : StageRun) × (t : Task) × (get_stage id d ≡ some s)
      × (get_task s.task_id d ≡ some t)
      × (str_eq s.fencing_token token ≡ true)
      × (is_unfinished s.state ≡ true)
      × (assert_move t.state (next_task_state o s.stage t.state) ≡ ok tt)
      × (d' ≡ record d {
        stages = update stage_key id (finished_stage o) d.stages;
        tasks =
            update task_key s.task_id (finished_task o (next_task_state o s.stage t.state)) d.tasks;
        episodes = update episode_key s.episode_id (closed_episode o.state s.stage) d.episodes;
        events =
            stage_finished id (stage_state o.state) (next_task_state o s.stage t.state) ∷ d.events;
      })
unfolding finish_stage
finish-ok id token o d h = elim (Option-cases (get_stage id d)) [
  | inl missing ↦ absurd (ground arith)
  | inr (s, at) ↦ elim (Option-cases (get_task s.task_id d)) [
    | inl missing ↦ absurd (ground arith)
    | inr (t, found) ↦ (s, t, at, found, ground arith, ground arith, ground arith, ground arith)
  ]
]

pub reserve_admission-ok :
    (id token : String) (r : AdmissionRequest) (d : Db) {d' : Db}
    → reserve_admission id token r d ≡ ok d'
    → (s : StageRun) × (t : Task) × (get_stage r.stage_run_id d ≡ some s)
      × (is_reserved_stage s.state ≡ true)
      × (any (lease_clashes r token) d.leases ≡ false)
      × (d' ≡ record d {
        leases = insert (new_lease id token t.project_id r) d.leases;
        events = admission_reserved t.id id ∷ d.events;
      })
unfolding reserve_admission
reserve_admission-ok id token r d h = elim (Option-cases (get_stage r.stage_run_id d)) [
  | inl missing ↦ absurd (ground arith)
  | inr (s, at) ↦ elim (Option-cases (get_task s.task_id d)) [
    | inl missing ↦ absurd (ground arith)
    | inr (t, found) ↦ (s, t, at, ground arith, ground arith, ground arith)
  ]
]

pub activate-ok :
    (id token : String) (d : Db) {d' : Db}
    → activate_admission id token d ≡ ok d'
    → (l : AdmissionLease) × (s : StageRun) × (t : Task) × (get_lease id d ≡ some l)
      × (get_stage l.stage_run_id d ≡ some s)
      × (str_eq l.fencing_token token ≡ true)
      × (is_reserved_lease l.status ≡ true)
      × (is_reserved_stage s.state ≡ true)
      × (d' ≡ record d {
        leases = update lease_key id (with_status LeaseStatus.active) d.leases;
        stages = update stage_key l.stage_run_id launching_stage d.stages;
        tasks = update task_key t.id touched d.tasks;
        events = admission_activated t.id id ∷ d.events;
      })
unfolding activate_admission
activate-ok id token d h = elim (Option-cases (get_lease id d)) [
  | inl missing ↦ absurd (ground arith)
  | inr (l, held) ↦ elim (Option-cases (get_stage l.stage_run_id d)) [
    | inl missing ↦ absurd (ground arith)
    | inr (s, at) ↦ elim (Option-cases (get_task s.task_id d)) [
      | inl missing ↦ absurd (ground arith)
      | inr (t, found) ↦ (l, s, t, held, at, ground arith, ground arith, ground arith, ground arith)
    ]
  ]
]

pub release_admission-ok :
    (id token : String) (d : Db) {d' : Db}
    → release_admission id token d ≡ ok d'
    → (l : AdmissionLease) × (t : Task) × (get_lease id d ≡ some l)
      × (str_eq l.fencing_token token ≡ true)
      × (is_held l.status ≡ true)
      × (d' ≡ record d {
        leases = update lease_key id (with_status LeaseStatus.released) d.leases;
        events = admission_released t.id id ∷ d.events;
      })
unfolding release_admission
release_admission-ok id token d h = elim (Option-cases (get_lease id d)) [
  | inl missing ↦ absurd (ground arith)
  | inr (l, held) ↦ elim (Option-cases (get_stage l.stage_run_id d)) [
    | inl missing ↦ absurd (ground arith)
    | inr (s, at) ↦ elim (Option-cases (get_task s.task_id d)) [
      | inl missing ↦ absurd (ground arith)
      | inr (t, found) ↦ (l, t, held, ground arith, ground arith, ground arith)
    ]
  ]
]

pub consumed-ok :
    (id : String) (d : Db) {d' : Db}
    → mark_approval_consumed id d ≡ ok d'
    → (a : Approval) × (get_approval id d ≡ some a)
      × (is_approved a.state ≡ true)
      × (d' ≡ settle id ApprovalState.consumed (approval_consumed id) d)
unfolding mark_approval_consumed
consumed-ok id d h = elim (Option-cases (get_approval id d)) [
  | inl missing ↦ absurd (ground arith)
  | inr (a, at) ↦ (a, at, ground arith, ground arith)
]

pub request-ok :
    (id project : String) (task : Option String) (b : ApprovalBinding) (d : Db) {d' : Db}
    → request_approval id project task b d ≡ ok d'
    → d' ≡ record d {
      approvals =
          insert
            (record {
              id = id;
              project_id = project;
              task_id = task;
              binding = b;
              state = ApprovalState.pending;
            })
            d.approvals;
      events = approval_requested id ∷ d.events;
    }
unfolding request_approval
request-ok id project task b d h = ground arith
