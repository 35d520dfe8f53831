-- ===== src/Examples/Plans.antt =====
-- Execution plans at concrete inputs.
use multi_agent_build_system.Prelude.{
  String, ◌≡◌, refl, ◌↔◌, ◌⊎◌, Bool, true, false, Option, none, some, List, [], ◌∷◌, arith, str_eq,
  str_eq_iff, if◌then◌else◌, is_some, is_empty, any, All, is_blank, includes, unique_beside,
}
use mathlib.Core.Option
use multi_agent_build_system.Scheduling.Scope.{normalize_scope, scopes_overlap}
use multi_agent_build_system.Plan.Checks.{
  escapes_repository, has_glob, scope_errors, text_errors, word_errors, list_errors,
}
use multi_agent_build_system.Plan.Draft.{PlannedTask, ExecutionPlan, PlanValidation}
use multi_agent_build_system.Plan.Validate.{deps_of, validate_execution_plan}
use multi_agent_build_system.Plan.Accepted.{IsAccepted, validate_execution_plan-IsAccepted}
use multi_agent_build_system.Plan.Ownership.{
  Requirement, requirement_ownership_errors, OwnsKnown, HasOwner, requirement_ownership_errors_iff,
}
use multi_agent_build_system.Plan.Graph.{Walk, walk, has_dependency_path}
use multi_agent_build_system.Plan.Graph.Topological.{IsTopological, walk-IsTopological}
use multi_agent_build_system.Plan.Graph.Cycles.{IsCycle}
use multi_agent_build_system.Plan.Graph.Paths.{DependsOn}
use multi_agent_build_system.Plan.Graph.Dependency.{has_dependency_path_iff}

abbrev planned : String → List String → String → Option (List String) → PlannedTask
planned key deps scope owned = record {
  key = key;
  title = "t";
  objective = "o";
  acceptance_criteria = "c" ∷ [];
  depends_on = some deps;
  role = none;
  task_class = some "small_implementation";
  complexity = none;
  ambiguity = none;
  change_risk = some "low";
  language = none;
  domain = none;
  context_size = none;
  required_tools = none;
  allowed_scope = some (scope ∷ []);
  execution_mode = "parallel";
  execution_reason = "r";
  priority = some 1;
  requirements = owned;
  resources = some ("port:3000" ∷ []);
}

abbrev pub sample_plan : ExecutionPlan
sample_plan = record {
  objective = "o";
  mode = "mixed";
  reason = "r";
  assumptions = none;
  milestones = none;
  tasks =
      planned "ui" ("api" ∷ []) "src/ui" none
      ∷ planned "api" [] "src/api" (some ("R1" ∷ []))
      ∷ planned "docs" [] "docs" none
      ∷ [];
}

sample_plan_valid :
    Option.map {B = Bool × List String}
      (λ (v : PlanValidation). (v.valid, v.topological_order))
      (validate_execution_plan sample_plan)
    ≡ some (true, "api" ∷ "ui" ∷ "docs" ∷ [])
unfolding validate_execution_plan is_blank deps_of unique_beside has_dependency_path text_errors
    word_errors list_errors scope_errors escapes_repository has_glob normalize_scope scopes_overlap
sample_plan_valid = refl

validate_execution_plan-IsAccepted_example :
    (v : PlanValidation) × (validate_execution_plan sample_plan ≡ some v)
    × (v.valid ≡ true → IsAccepted sample_plan v.topological_order)
validate_execution_plan-IsAccepted_example = validate_execution_plan-IsAccepted sample_plan

-- Two tasks that wait for one another, and one that waits for the first.
abbrev circular_deps : String → List String
circular_deps key =
    if str_eq key "a"
    then "b" ∷ []
    else if str_eq key "b"
    then "a" ∷ []
    else if str_eq key "c"
    then "a" ∷ []
    else []

abbrev circular_keys : List String
circular_keys = "a" ∷ "b" ∷ "c" ∷ []

circular_cycles :
    Option.map (λ (w : Walk). w.cycles) (walk circular_keys circular_deps)
    ≡ some (("a" ∷ "b" ∷ "a" ∷ []) ∷ [])
unfolding walk
circular_cycles = refl

walk-IsTopological_example :
    (w : Walk) × (walk circular_keys circular_deps ≡ some w)
    × All (IsCycle circular_keys circular_deps) w.cycles
    × (w.cycles ≡ [] → IsTopological circular_keys circular_deps w.order)
walk-IsTopological_example = walk-IsTopological circular_keys circular_deps

circular_unknown : (k : String) → includes circular_keys k ≡ false → circular_deps k ≡ []
circular_unknown k h = ground (
  arith,
  str_eq_iff k "a",
  str_eq_iff "a" k,
  str_eq_iff k "b",
  str_eq_iff "b" k,
  str_eq_iff k "c",
  str_eq_iff "c" k,
)

has_dependency_path_iff_example :
    (found : Bool) × (has_dependency_path circular_keys circular_deps "c" "b" ≡ some found)
    × ((found ≡ true) ↔ DependsOn circular_deps "c" "b")
has_dependency_path_iff_example =
    has_dependency_path_iff circular_keys circular_deps "c" "b" circular_unknown

abbrev sample_requirements : List Requirement
sample_requirements =
    record { id = "R1"; mandatory = none; global = none }
    ∷ record { id = "R2"; mandatory = none; global = some true }
    ∷ []

requirement_ownership_errors_iff_example :
    (is_empty (requirement_ownership_errors sample_plan sample_requirements) ≡ true) ↔ (
      (any (λ t. is_some t.requirements) sample_plan.tasks ≡ false)
      ⊎ (All (OwnsKnown sample_requirements) sample_plan.tasks
          × All (HasOwner sample_plan.tasks) sample_requirements))
requirement_ownership_errors_iff_example =
    requirement_ownership_errors_iff sample_plan sample_requirements
