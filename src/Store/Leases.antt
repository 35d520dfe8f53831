-- ===== src/Store/Leases.antt =====
-- src/store/records.ts: `reserveAdmission`, `activateAdmission` and `releaseAdmission`.
use multi_agent_build_system.Prelude.{
  String, Bool, true, false, ◌||◌, not, Option, List, [], ◌∷◌, str_eq, any, filter, Outcome, ok,
  ◌>>=◌, ◌>>◌, throw_if,
}
use multi_agent_build_system.Execution.{StageState}
use multi_agent_build_system.Store.{
  StageRun, LeaseStatus, AdmissionLease, admission_reserved, admission_activated,
  admission_released, Db, StoreError, unknown_task, unknown_stage, unknown_lease,
  stale_fencing_token, stage_not_reserved, lease_not_reservable, lease_terminal,
  constraint_violation, task_key, stage_key, lease_key, require,
}
use multi_agent_build_system.Store.Table.{lookup, update, insert}
use multi_agent_build_system.Store.Tasks.{get_task}
use multi_agent_build_system.Store.Stages.{get_stage, touched, assert_fresh}

unfoldable pub get_lease : String → Db → Option AdmissionLease
get_lease id d = lookup lease_key id d.leases

pub record AdmissionRequest : Type 0 where
  pub stage_run_id : String
  pub controller_id : String
  pub provider : Option String
  pub quota_domain : Option String
  pub resources : List String

-- `[...new Set(xs)]`
unfoldable pub dedupe_text : List String → List String
dedupe_text [] = []
dedupe_text (x ∷ xs) = x ∷ filter (λ y. not (str_eq y x)) (dedupe_text xs)

abbrev pub is_reserved_stage : StageState → Bool
is_reserved_stage StageState.reserved = true
is_reserved_stage _ = false

-- `stage_run_id` and `fencing_token` are unique.
abbrev pub lease_clashes : AdmissionRequest → String → AdmissionLease → Bool
lease_clashes r token l = str_eq l.stage_run_id r.stage_run_id || str_eq l.fencing_token token

unfoldable pub new_lease : String → String → String → AdmissionRequest → AdmissionLease
unfolding dedupe_text
new_lease id token project r = record {
  id = id;
  stage_run_id = r.stage_run_id;
  controller_id = r.controller_id;
  fencing_token = token;
  provider = r.provider;
  quota_domain = r.quota_domain;
  project_id = project;
  resources = dedupe_text r.resources;
  status = LeaseStatus.reserved;
}

unfoldable pub reserve_admission : String → String → AdmissionRequest → Db → Outcome StoreError Db
unfolding get_stage get_task get_lease assert_fresh new_lease
reserve_admission id token r d = do
  s ← require (get_stage r.stage_run_id d) (unknown_stage r.stage_run_id)
  throw_if (not (is_reserved_stage s.state)) (stage_not_reserved r.stage_run_id)
  t ← require (get_task s.task_id d) (unknown_task s.task_id)
  assert_fresh (get_lease id d)
  throw_if (any (lease_clashes r token) d.leases) constraint_violation
  ok (record d {
    leases = insert (new_lease id token t.project_id r) d.leases;
    events = admission_reserved t.id id ∷ d.events;
  })

abbrev pub is_reserved_lease : LeaseStatus → Bool
is_reserved_lease LeaseStatus.reserved = true
is_reserved_lease _ = false

-- `IN ('reserved','active')`
abbrev pub is_held : LeaseStatus → Bool
is_held LeaseStatus.reserved = true
is_held LeaseStatus.active = true
is_held _ = false

abbrev pub with_status : LeaseStatus → AdmissionLease → AdmissionLease
with_status status l = record l { status = status }

abbrev pub launching_stage : StageRun → StageRun
launching_stage s = record s { state = StageState.launching }

unfoldable pub activate_admission : String → String → Db → Outcome StoreError Db
unfolding get_stage get_task get_lease
activate_admission id token d = do
  l ← require (get_lease id d) (unknown_lease id)
  throw_if (not (str_eq l.fencing_token token)) (stale_fencing_token id)
  throw_if (not (is_reserved_lease l.status)) (lease_not_reservable id)
  s ← require (get_stage l.stage_run_id d) (stage_not_reserved l.stage_run_id)
  throw_if (not (is_reserved_stage s.state)) (stage_not_reserved l.stage_run_id)
  t ← require (get_task s.task_id d) (unknown_task s.task_id)
  ok (record d {
    leases = update lease_key id (with_status LeaseStatus.active) d.leases;
    stages = update stage_key l.stage_run_id launching_stage d.stages;
    tasks = update task_key t.id touched d.tasks;
    events = admission_activated t.id id ∷ d.events;
  })

unfoldable pub release_admission : String → String → Db → Outcome StoreError Db
unfolding get_stage get_task get_lease
release_admission id token d = do
  l ← require (get_lease id d) (unknown_lease id)
  throw_if (not (str_eq l.fencing_token token)) (stale_fencing_token id)
  throw_if (not (is_held l.status)) (lease_terminal id)
  s ← require (get_stage l.stage_run_id d) (unknown_stage l.stage_run_id)
  t ← require (get_task s.task_id d) (unknown_task s.task_id)
  ok (record d {
    leases = update lease_key id (with_status LeaseStatus.released) d.leases;
    events = admission_released t.id id ∷ d.events;
  })
