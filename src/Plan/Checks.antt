-- ===== src/Plan/Checks.antt =====
-- src/domain/plan.ts: the checks that `validateExecutionPlan` makes of the plan's texts and of each
-- task by itself. The regular expressions are written out over code points.
use multi_agent_build_system.Prelude.{
  ℕ, String, Bool, false, ◌&&◌, ◌||◌, not, Option, none, some, List, [], ◌∷◌, ◌++◌, ltb, leb, ◌==◌,
  if◌then◌else◌, or_default, is_empty, any, all, filter, when, is_space, codes, is_blank, includes,
}
use multi_agent_build_system.Plan.Draft.{
  PlannedTask, ExecutionPlan, TaskLabel, PlanError, no_objective, no_reason, no_tasks, unknown_mode,
  no_title, no_task_objective, no_criterion, no_execution_reason, unknown_task_mode,
  unknown_task_class, unknown_level, bad_tools, bad_resources, bad_requirements, bad_priority,
  bad_scope, glob_scopes,
}
use multi_agent_build_system.Scheduling.Scope.{
  slashes, drop_dot_slash, normalize_scope, path_eq, has_prefix,
}

abbrev pub execution_modes : List String
execution_modes = "single" ∷ "sequential" ∷ "parallel" ∷ "mixed" ∷ []

abbrev levels : List String
levels = "low" ∷ "medium" ∷ "high" ∷ []

-- `TASK_CLASSES`
abbrev task_classes : List String
task_classes =
    "mechanical" ∷ "small_implementation" ∷ "complex_coding" ∷ "diagnosis" ∷ "planning" ∷ "research"
    ∷ "review" ∷ "troubleshooting" ∷ "curation" ∷ []

-- `[a-z]`
abbrev is_lower : ℕ → Bool
is_lower c = leb 97 c && leb c 122

-- `[a-z0-9_-]`
abbrev is_kind : ℕ → Bool
is_kind c = is_lower c || (leb 48 c && leb c 57) || c == 95 || c == 45

-- `/^[a-z0-9_-]*:\S+$/`
after_kind : List ℕ → Bool
after_kind [] = false
after_kind (c ∷ cs) =
    let rest = after_kind cs in
    if c == 58 then not (is_empty cs) && all (λ x. not (is_space x)) cs else is_kind c && rest

-- `/^[a-z][a-z0-9_-]*:\S+$/`
unfoldable pub is_resource : List ℕ → Bool
unfolding after_kind
is_resource [] = false
is_resource (c ∷ cs) = is_lower c && after_kind cs

split_onto : List ℕ → List ℕ → List (List ℕ)
split_onto segment [] = segment ∷ []
split_onto segment (c ∷ cs) =
    let next = split_onto [] cs in
    let same = split_onto (segment ++ c ∷ []) cs in if c == 47 then segment ∷ next else same

-- `path.split("/")`
unfoldable pub segments : List ℕ → List (List ℕ)
unfolding split_onto
segments path = split_onto [] path

abbrev parent_segment : List ℕ
parent_segment = 46 ∷ 46 ∷ []

-- A scope that is no path below the repository.
unfoldable pub escapes_repository : List ℕ → Bool
unfolding slashes drop_dot_slash segments has_prefix path_eq
escapes_repository scope =
    let path = drop_dot_slash (slashes scope) in
    is_empty path || has_prefix path (47 ∷ []) || any (path_eq parent_segment) (segments path)

-- `/[*?[\]{}]/.test(path)`
unfoldable pub has_glob : List ℕ → Bool
has_glob path = any (λ c. c == 42 || c == 63 || c == 91 || c == 93 || c == 123 || c == 125) path

-- `value !== undefined && !words.includes(value)`
abbrev unknown_word : List String → Option String → Option String
unknown_word words none = none
unknown_word words (some w) = if includes words w then none else some w

level_errors : TaskLabel → String → Option String → List PlanError
level_errors label field value = elim (unknown_word levels value) [
  | none ↦ []
  | some w ↦ unknown_level label field w ∷ []
]

class_errors : TaskLabel → Option String → List PlanError
class_errors label value = elim (unknown_word task_classes value) [
  | none ↦ []
  | some w ↦ unknown_task_class label w ∷ []
]

unfoldable pub scope_errors : TaskLabel → Option (List String) → List PlanError
scope_errors label none = []
scope_errors label (some scopes) =
    let globs = filter (λ s. has_glob (normalize_scope (codes s))) scopes in
    if any (λ s. escapes_repository (codes s)) scopes
    then bad_scope label ∷ []
    else when (not (is_empty globs)) (glob_scopes label globs)

abbrev some_blank : Option (List String) → Bool
some_blank words = any is_blank (or_default words [])

-- `Number.MAX_SAFE_INTEGER`
abbrev max_safe : ℕ
max_safe = 9007199254740991

unfoldable pub text_errors : TaskLabel → PlannedTask → List PlanError
text_errors label t =
    when (is_blank t.title) (no_title label)
    ++ when (is_blank t.objective) (no_task_objective label)
    ++ when (is_empty t.acceptance_criteria || any is_blank t.acceptance_criteria)
        (no_criterion label)
    ++ when (not (includes execution_modes t.execution_mode))
        (unknown_task_mode label t.execution_mode)
    ++ when (is_blank t.execution_reason) (no_execution_reason label)

unfoldable pub word_errors : TaskLabel → PlannedTask → List PlanError
unfolding class_errors level_errors
word_errors label t =
    class_errors label t.task_class
    ++ level_errors label "complexity" t.complexity
    ++ level_errors label "ambiguity" t.ambiguity
    ++ level_errors label "changeRisk" t.change_risk
    ++ level_errors label "contextSize" t.context_size

unfoldable pub list_errors : TaskLabel → PlannedTask → List PlanError
unfolding is_resource
list_errors label t =
    when (some_blank t.required_tools) (bad_tools label)
    ++ when (any (λ r. not (is_resource (codes r))) (or_default t.resources []))
        (bad_resources label)
    ++ when (some_blank t.requirements) (bad_requirements label)
    ++ when (ltb max_safe (or_default t.priority 0)) (bad_priority label)

-- The errors of one task, less those of its key.
unfoldable pub task_errors : TaskLabel → PlannedTask → List PlanError
task_errors label t =
    text_errors label t
    ++ word_errors label t
    ++ list_errors label t
    ++ scope_errors label t.allowed_scope

-- The errors of the plan's own texts and of its number of tasks.
unfoldable pub plan_errors : ExecutionPlan → List PlanError
plan_errors plan =
    when (is_blank plan.objective) no_objective
    ++ when (is_blank plan.reason) no_reason
    ++ when (not (includes execution_modes plan.mode)) (unknown_mode plan.mode)
    ++ when (is_empty plan.tasks) no_tasks
