-- ===== src/Maintenance/Retention.antt =====
-- src/maintenance/retention.ts: which evidence and which worktrees are reclaimed. The file system and git are
-- arguments; times are naturals, in milliseconds.
pub mod Safe
use multi_agent_build_system.Prelude.{
  ℕ, ◌-◌, ◌/◌, String, Bool, true, false, ◌&&◌, ◌||◌, not, Option, none, some, List, [], ◌∷◌, ◌++◌,
  map, str_eq, ltb, if◌then◌else◌, is_some, or_default, find, when,
}
use multi_agent_build_system.Task.{TaskState, done, failed, cancelled}

-- `RETENTION_POLICY`
abbrev pub completed_artifact_days : ℕ
completed_artifact_days = 30

abbrev pub failed_artifact_days : ℕ
failed_artifact_days = 90

abbrev pub completed_worktree_days : ℕ
completed_worktree_days = 30

abbrev pub failed_worktree_days : ℕ
failed_worktree_days = 90

-- The columns of the task that are read; `finished_at` is `updatedAt ?? createdAt`.
pub record RetainedTask : Type 0 where
  pub id : String
  pub project_id : String
  pub state : TaskState
  pub worktree_path : Option String
  pub branch : Option String
  pub result_revision : Option String
  pub finished_at : ℕ

pub record RetainedAttempt : Type 0 where
  pub id : String
  pub task_id : String
  pub ended_at : Option ℕ

pub record RetainedProject : Type 0 where
  pub id : String
  pub repo_path : String
  pub base_branch : String

-- The disk: which paths exist; what `workspaceIsDirty` and `branchIsMerged` answer, none if they fail; and
-- whether `removeWorktree` succeeds.
pub record Disk : Type 0 where
  pub exists_path : String → Bool
  pub is_dirty : String → Option Bool
  pub is_merged : String → String → String → Option Bool
  pub can_remove : String → Bool

-- A day has 86,400,000 milliseconds. An age below zero counts as zero, which no limit asks for.
unfoldable pub age_days : ℕ → ℕ → ℕ
age_days value now = (now - value) / 86400000

unfoldable pub retention_days : TaskState → Option ℕ
retention_days done = some completed_artifact_days
retention_days failed = some failed_artifact_days
retention_days cancelled = some failed_artifact_days
retention_days _ = none

pub record PruneCandidate : Type 0 where
  pub task_id : String
  pub attempt_id : String
  pub age : ℕ
  pub limit : ℕ

-- `path_exists task attempt` says whether the directory of the attempt's evidence is there.
module _ (path_exists : String → String → Bool) (now : ℕ) where
  attempt_candidate : RetainedTask → ℕ → RetainedAttempt → List PruneCandidate
  unfolding age_days
  attempt_candidate t days a = elim a.ended_at [
    | none ↦ []
    | some at ↦
        when (not (ltb (age_days at now) days) && path_exists t.id a.id)
          (record { task_id = t.id; attempt_id = a.id; age = age_days at now; limit = days })
  ]

  attempt_candidates : RetainedTask → ℕ → List RetainedAttempt → List PruneCandidate
  unfolding attempt_candidate
  attempt_candidates t days [] = []
  attempt_candidates t days (a ∷ rest) =
      (if str_eq a.task_id t.id then attempt_candidate t days a else [])
      ++ attempt_candidates t days rest

  unfoldable pub retention_candidates :
      List RetainedTask → List RetainedAttempt → List PruneCandidate
  unfolding attempt_candidates retention_days
  retention_candidates [] attempts = []
  retention_candidates (t ∷ ts) attempts =
      elim (retention_days t.state) [ none ↦ [] | some days ↦ attempt_candidates t days attempts ]
      ++ retention_candidates ts attempts

pub data Refusal : Type 0 where
  project_gone uncommitted_changes unmerged_work removal_failed : Refusal

pub record WorktreeCandidate : Type 0 where
  pub task_id : String
  pub project_id : String
  pub path : String
  pub branch : Option String
  pub age : ℕ
  pub limit : ℕ
  pub refusal : Option Refusal

unfoldable pub worktree_retention_days : TaskState → Option ℕ
worktree_retention_days done = some completed_worktree_days
worktree_retention_days failed = some failed_worktree_days
worktree_retention_days cancelled = some failed_worktree_days
worktree_retention_days _ = none

unfoldable pub project_named : List RetainedProject → String → Option RetainedProject
project_named projects id = find (λ p. str_eq p.id id) projects

-- `!text`
abbrev pub is_missing : Option String → Bool
is_missing none = true
is_missing (some s) = str_eq s ""

-- `task.branch && await branchIsMerged(…).catch(() => false)`
abbrev pub merged_branch : Disk → RetainedProject → Option String → Bool
merged_branch disk p none = false
merged_branch disk p (some branch) =
    not (str_eq branch "") && or_default (disk.is_merged p.repo_path branch p.base_branch) false

unfoldable pub refusal_of : Disk → List RetainedProject → RetainedTask → String → Option Refusal
unfolding project_named
refusal_of disk projects t path = elim (project_named projects t.project_id) [
  | none ↦ some project_gone
  | some p ↦
      if or_default (disk.is_dirty path) true
      then some uncommitted_changes
      else if is_missing t.result_revision && not (merged_branch disk p t.branch)
      then some unmerged_work
      else none
]

-- The path of a worktree that is there.
unfoldable pub present_worktree : Disk → RetainedTask → Option String
present_worktree disk t = elim t.worktree_path [
  | none ↦ none
  | some path ↦ if not (str_eq path "") && disk.exists_path path then some path else none
]

unfoldable pub worktree_candidate :
    Disk → List RetainedProject → ℕ → RetainedTask → List WorktreeCandidate
unfolding worktree_retention_days present_worktree age_days
worktree_candidate disk projects now t = elim (worktree_retention_days t.state) [
  | none ↦ []
  | some days ↦ elim (present_worktree disk t) [
    | none ↦ []
    | some path ↦ when (not (ltb (age_days t.finished_at now) days)) (record {
      task_id = t.id;
      project_id = t.project_id;
      path = path;
      branch = t.branch;
      age = age_days t.finished_at now;
      limit = days;
      refusal = refusal_of disk projects t path;
    })
  ]
]

unfoldable pub worktree_candidates :
    Disk → List RetainedProject → ℕ → List RetainedTask → List WorktreeCandidate
unfolding worktree_candidate
worktree_candidates disk projects now [] = []
worktree_candidates disk projects now (t ∷ ts) =
    worktree_candidate disk projects now t ++ worktree_candidates disk projects now ts

-- What the removal of a candidate leaves of it, and whether its directory was removed.
unfoldable pub remove_candidate :
    Disk → List RetainedProject → WorktreeCandidate → WorktreeCandidate × Bool
unfolding project_named
remove_candidate disk projects c =
    if is_some c.refusal || not (is_some (project_named projects c.project_id))
    then (c, false)
    else if disk.can_remove c.path
    then (c, true)
    else (record c { refusal = some removal_failed }, false)

-- `UPDATE tasks SET worktree_path = NULL WHERE id = ?`
abbrev pub clear_worktree : String → List RetainedTask → List RetainedTask
clear_worktree id tasks =
    map (λ t. if str_eq t.id id then record t { worktree_path = none } else t) tasks

-- The candidates as they are returned, those whose directory was removed, and the tasks afterwards.
pub record Pruned : Type 0 where
  pub candidates : List WorktreeCandidate
  pub removed : List WorktreeCandidate
  pub tasks : List RetainedTask

unfoldable pub remove_all :
    Disk → List RetainedProject → List WorktreeCandidate → List RetainedTask → Pruned
unfolding remove_candidate
remove_all disk projects [] tasks = record { candidates = []; removed = []; tasks = tasks }
remove_all disk projects (c ∷ cs) tasks =
    let (after, gone) = remove_candidate disk projects c in
    let rest =
      remove_all disk projects cs (if gone then clear_worktree c.task_id tasks else tasks) in
    record rest {
      candidates = after ∷ rest.candidates;
      removed = if gone then c ∷ rest.removed else rest.removed;
    }

unfoldable pub prune_worktrees : Disk → List RetainedProject → ℕ → Bool → List RetainedTask → Pruned
unfolding worktree_candidates remove_all
prune_worktrees disk projects now apply tasks =
    let found = worktree_candidates disk projects now tasks in
    if apply
    then remove_all disk projects found tasks
    else record { candidates = found; removed = []; tasks = tasks }
