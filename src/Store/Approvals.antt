-- ===== src/Store/Approvals.antt =====
-- src/store/records.ts: `requestApproval`, `decideApproval`, `markApprovalConsumed`,
-- `invalidateProjectApprovals` and `invalidateApprovals`.
pub mod Current
pub mod Sweep
use multi_agent_build_system.Prelude.{
  String, Bool, true, false, ◌&&◌, not, Option, none, some, List, [], ◌∷◌, ◌++◌, map, str_eq,
  if◌then◌else◌, is_some, filter, when, option_eq, Outcome, ok, throw, ◌>>=◌, ◌>>◌, throw_if,
}
use multi_agent_build_system.Policy.{merge, action_eq, ApprovalBinding}
use multi_agent_build_system.Store.{
  ApprovalState, Approval, Project, Event, approval_requested, approval_approved, approval_rejected,
  approval_invalidated, approval_consumed, Db, StoreError, unknown_approval, approval_not_pending,
  approval_not_approved, approval_stale, constraint_violation, approval_key, project_key, require,
}
use multi_agent_build_system.Store.Table.{lookup, update, insert}
use multi_agent_build_system.Store.Tasks.{get_task}
use multi_agent_build_system.Store.Stages.{assert_fresh}

unfoldable pub get_approval : String → Db → Option Approval
get_approval id d = lookup approval_key id d.approvals

unfoldable pub get_project : String → Db → Option Project
get_project id d = lookup project_key id d.projects

-- The project exists, and so does the task if one is named.
unfoldable pub assert_owners : String → Option String → Db → Outcome StoreError (Unit {0})
unfolding get_project get_task
assert_owners project none d = throw_if (not (is_some (get_project project d))) constraint_violation
assert_owners project (some t) d =
    throw_if (not (is_some (get_project project d) && is_some (get_task t d))) constraint_violation

unfoldable pub request_approval :
    String → String → Option String → ApprovalBinding → Db → Outcome StoreError Db
unfolding get_approval assert_fresh assert_owners
request_approval id project task binding d = do
  assert_owners project task d
  assert_fresh (get_approval id d)
  ok (record d {
    approvals =
        insert
          (record {
            id = id;
            project_id = project;
            task_id = task;
            binding = binding;
            state = ApprovalState.pending;
          })
          d.approvals;
    events = approval_requested id ∷ d.events;
  })

abbrev pub is_pending : ApprovalState → Bool
is_pending ApprovalState.pending = true
is_pending _ = false

abbrev pub is_approved : ApprovalState → Bool
is_approved ApprovalState.approved = true
is_approved _ = false

-- `state IN ('pending','approved')`
abbrev pub is_open : ApprovalState → Bool
is_open ApprovalState.pending = true
is_open ApprovalState.approved = true
is_open _ = false

abbrev pub settled : ApprovalState → Approval → Approval
settled state a = record a { state = state }

abbrev pub settle : String → ApprovalState → Event → Db → Db
settle id state event d = record d {
  approvals = update approval_key id (settled state) d.approvals;
  events = event ∷ d.events;
}

-- `!project || project.configVersion !== approval.configVersion`
abbrev pub config_drifted : Option Project → Approval → Bool
config_drifted none a = true
config_drifted (some p) a = not (str_eq p.config_version a.binding.config_version)

-- `task?.resultRevision && task.resultRevision !== approval.revision`; an empty revision is no revision
abbrev pub revision_drifted : Option String → Approval → Bool
revision_drifted none a = false
revision_drifted (some r) a = not (str_eq r "") && not (str_eq r a.binding.revision)

-- `approval.action === "merge" && project && approval.target !== project.baseBranch`
abbrev pub target_drifted : Option Project → Approval → Bool
target_drifted none a = false
target_drifted (some p) a =
    action_eq a.binding.action merge && not (str_eq a.binding.target p.base_branch)

-- `approval.taskId ? getTask(approval.taskId) : null`, and its result revision
unfoldable pub task_revision : Option String → Db → Option String
unfolding get_task
task_revision none d = none
task_revision (some id) d = elim (get_task id d) [ none ↦ none | some t ↦ t.result_revision ]

unfoldable pub drift : Approval → Db → List String
unfolding get_project task_revision
drift a d =
    when (config_drifted (get_project a.project_id d) a) "project configuration changed"
    ++ when (revision_drifted (task_revision a.task_id d) a) "task revision changed"
    ++ when (target_drifted (get_project a.project_id d) a) "target branch changed"

pub data Verdict : Type 0 where
  approve reject : Verdict

-- The state that the transaction leaves, and what is thrown: an approval found stale is invalidated
-- in a transaction that commits, and the error is thrown after it.
abbrev pub decide_pending :
    Verdict → Approval → List String → Db → Db × Outcome StoreError (Unit {0})
decide_pending reject a drifts d =
    (settle a.id ApprovalState.rejected (approval_rejected a.id) d, ok tt)
decide_pending approve a [] d =
    (settle a.id ApprovalState.approved (approval_approved a.id) d, ok tt)
decide_pending approve a (x ∷ drifts) d = (
  settle a.id ApprovalState.invalidated (approval_invalidated a.id) d,
  throw (approval_stale a.id (x ∷ drifts)),
)

unfoldable pub decide_approval : String → Verdict → Db → Db × Outcome StoreError (Unit {0})
unfolding get_approval drift
decide_approval id verdict d = elim (get_approval id d) [
  | none ↦ (d, throw (unknown_approval id))
  | some a ↦
      if is_pending a.state
      then decide_pending verdict a (drift a d) d
      else (d, throw (approval_not_pending id a.state))
]

unfoldable pub mark_approval_consumed : String → Db → Outcome StoreError Db
unfolding get_approval
mark_approval_consumed id d = do
  a ← require (get_approval id d) (unknown_approval id)
  throw_if (not (is_approved a.state)) (approval_not_approved id a.state)
  ok (settle id ApprovalState.consumed (approval_consumed id) d)

abbrev pub swept : (Approval → Bool) → Approval → Approval
swept test a = if is_open a.state && test a then settled ApprovalState.invalidated a else a

-- The loop over the open approvals that a test selects.
unfoldable pub invalidate_where : (Approval → Bool) → List Approval → List Approval
invalidate_where test [] = []
invalidate_where test (a ∷ rows) = swept test a ∷ invalidate_where test rows

unfoldable pub invalidations : (Approval → Bool) → List Approval → List Event
invalidations test rows =
    map (λ a. approval_invalidated a.id) (filter (λ a. is_open a.state && test a) rows)

unfoldable pub invalidate_all : (Approval → Bool) → Db → Db
unfolding invalidate_where invalidations
invalidate_all test d = record d {
  approvals = invalidate_where test d.approvals;
  events = invalidations test d.approvals ++ d.events;
}

unfoldable pub invalidate_project_approvals : String → Db → Db
unfolding invalidate_all
invalidate_project_approvals project d = invalidate_all (λ a. str_eq a.project_id project) d

-- `keepRevision && approval.revision === keepRevision`
abbrev pub keeps : Option String → Approval → Bool
keeps none a = false
keeps (some r) a = not (str_eq r "") && str_eq a.binding.revision r

unfoldable pub invalidate_approvals : String → Option String → Db → Db
unfolding invalidate_all
invalidate_approvals task keep_revision d =
    invalidate_all (λ a. option_eq a.task_id (some task) && not (keeps keep_revision a)) d
