-- ===== src/Plan/Validate.antt =====
-- src/domain/plan.ts: `validateExecutionPlan`. `none` says that the fuel of a graph search ran out.
use mathlib.Core.Option
use multi_agent_build_system.Prelude.{
  ℕ, suc, String, Bool, true, ◌&&◌, ◌||◌, not, Option, none, some, List, [], ◌∷◌, ◌++◌, map, str_eq,
  if◌then◌else◌, or_default, is_empty, any, filter, when, codes, is_blank, includes, unique,
}
use multi_agent_build_system.Plan.Draft.{
  PlannedTask, ExecutionPlan, TaskLabel, named, numbered, PlanError, blank_key, duplicate_key,
  unknown_dependency, self_dependency, dependency_cycle, parallel_overlap, PlanValidation,
  same_error,
}
use multi_agent_build_system.Plan.Checks.{task_errors, plan_errors}
use multi_agent_build_system.Plan.Fragments.{fragmentation_warnings}
use multi_agent_build_system.Plan.Graph.{walk, has_dependency_path}
use multi_agent_build_system.Scheduling.Scope.{scopes_overlap}

abbrev pub keys_of : List PlannedTask → List String
keys_of tasks = map (λ t. t.key) tasks

abbrev pub label_of : ℕ → String → TaskLabel
label_of index key = if str_eq key "" then numbered index else named key

-- What the loop over the tasks adds to `errors`, and the tasks that it puts into `byKey`. `seen` has the
-- keys that are there.
unfoldable pub index_tasks : ℕ → List String → List PlannedTask → List PlanError × List PlannedTask
unfolding task_errors
index_tasks index seen [] = ([], [])
index_tasks index seen (t ∷ ts) =
    let here = task_errors (label_of index t.key) t in
    let skipped = index_tasks (suc index) seen ts in
    let added = index_tasks (suc index) (t.key ∷ seen) ts in
    if is_blank t.key
    then (blank_key ∷ here ++ skipped.0, skipped.1)
    else if includes seen t.key
    then (duplicate_key t.key ∷ here ++ skipped.0, skipped.1)
    else (here ++ added.0, t ∷ added.1)

abbrev pub declared_deps : PlannedTask → List String
declared_deps t = unique (or_default t.depends_on [])

-- `dependencies.get(key) ?? []`
unfoldable pub deps_of : List PlannedTask → String → List String
deps_of [] key = []
deps_of (t ∷ ts) key = if str_eq t.key key then declared_deps t else deps_of ts key

abbrev pub dependency_check : List String → String → String → List PlanError
dependency_check keys key d =
    when (not (includes keys d)) (unknown_dependency key d)
    ++ when (str_eq d key) (self_dependency key)

unfoldable pub each_dependency : List String → String → List String → List PlanError
each_dependency keys key [] = []
each_dependency keys key (d ∷ ds) = dependency_check keys key d ++ each_dependency keys key ds

unfoldable pub dependency_errors : List String → List PlannedTask → List PlanError
unfolding each_dependency
dependency_errors keys [] = []
dependency_errors keys (t ∷ ts) =
    each_dependency keys t.key (declared_deps t) ++ dependency_errors keys ts

abbrev pub scope_of : PlannedTask → List (List ℕ)
scope_of t = map codes (or_default t.allowed_scope [])

abbrev pub overlap_error : PlannedTask → PlannedTask → Bool → List PlanError
overlap_error left right ordered =
    when (not ordered && scopes_overlap (scope_of left) (scope_of right))
      (parallel_overlap left.key right.key)

module _ (by_key : List PlannedTask) where
  -- `hasDependencyPath(left, right) || hasDependencyPath(right, left)`
  unfoldable pub is_ordered : String → String → Option Bool
  is_ordered left right = elim (has_dependency_path (keys_of by_key) (deps_of by_key) left right) [
    | none ↦ none
    | some there ↦
        let back = has_dependency_path (keys_of by_key) (deps_of by_key) right left in
        if there then some true else back
  ]

  unfoldable pub pair_errors : PlannedTask → List PlannedTask → Option (List PlanError)
  unfolding is_ordered
  pair_errors left [] = some []
  pair_errors left (right ∷ rest) = elim (is_ordered left.key right.key) [
    | none ↦ none
    | some ordered ↦
        Option.map (λ es. overlap_error left right ordered ++ es) (pair_errors left rest)
  ]

  unfoldable pub parallel_errors : List PlannedTask → Option (List PlanError)
  unfolding pair_errors
  parallel_errors [] = some []
  parallel_errors (left ∷ rest) = elim (pair_errors left rest) [
    | none ↦ none
    | some es ↦ Option.map (λ more. es ++ more) (parallel_errors rest)
  ]

unfoldable pub unique_errors : List PlanError → List PlanError → List PlanError
unique_errors seen [] = []
unique_errors seen (e ∷ es) =
    let rest = unique_errors seen es in
    let more = unique_errors (e ∷ seen) es in
    if any (λ x. same_error x e) seen then rest else e ∷ more

abbrev pub is_parallel : ExecutionPlan → PlannedTask → Bool
is_parallel plan t = str_eq t.execution_mode "parallel" || str_eq plan.mode "parallel"

-- The value that is returned, from the errors in the order of the calls of `push`.
unfoldable pub conclude :
    ExecutionPlan → List PlannedTask → List String → List PlanError → PlanValidation
unfolding unique_errors
conclude plan by_key order errors = record {
  valid = is_empty errors;
  errors = unique_errors [] errors;
  warnings =
      if is_empty errors then fragmentation_warnings plan (deps_of by_key) (keys_of by_key) else [];
  topological_order = order;
}

unfoldable pub validate_execution_plan : ExecutionPlan → Option PlanValidation
unfolding plan_errors index_tasks dependency_errors walk parallel_errors conclude
validate_execution_plan plan =
    let (indexed, by_key) = index_tasks 0 [] plan.tasks in
    let keys = keys_of by_key in
    elim (walk keys (deps_of by_key)) [
      | none ↦ none
      | some w ↦ elim (parallel_errors by_key (filter (is_parallel plan) by_key)) [
        | none ↦ none
        | some overlaps ↦ some (
            conclude plan by_key w.order (
              plan_errors plan
              ++ indexed
              ++ dependency_errors keys by_key
              ++ map dependency_cycle w.cycles
              ++ overlaps))
      ]
    ]
