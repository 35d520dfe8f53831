-- ===== src/Plan/Draft.antt =====
-- src/domain/plan.ts: the plan, and what its validation says.
use native.Mathlib.Decide.{ℕ_discrete}
use mathlib.Core.List.{List-discrete}
use multi_agent_build_system.Prelude.{ℕ, String, Bool, true, false, Option, List, String-discrete}

pub record PlannedTask : Type 0 where
  pub key : String
  pub title : String
  pub objective : String
  pub acceptance_criteria : List String
  pub depends_on : Option (List String)
  pub role : Option String
  pub task_class : Option String
  pub complexity : Option String
  pub ambiguity : Option String
  pub change_risk : Option String
  pub language : Option String
  pub domain : Option String
  pub context_size : Option String
  pub required_tools : Option (List String)
  pub allowed_scope : Option (List String)
  pub execution_mode : String
  pub execution_reason : String
  pub priority : Option ℕ
  pub requirements : Option (List String)
  pub resources : Option (List String)

pub record ExecutionPlan : Type 0 where
  pub objective : String
  pub mode : String
  pub reason : String
  pub assumptions : Option (List String)
  pub milestones : Option (List String)
  pub tasks : List PlannedTask

-- `key || `task[${index}]``
pub data TaskLabel : Type 0 where
  named : String → TaskLabel
  numbered : ℕ → TaskLabel

-- A message with the values put into it.
pub data PlanError : Type 0 where
  no_objective no_reason no_tasks blank_key : PlanError
  unknown_mode duplicate_key : String → PlanError
  no_title no_task_objective no_criterion no_execution_reason : TaskLabel → PlanError
  unknown_task_mode unknown_task_class : TaskLabel → String → PlanError
  unknown_level : TaskLabel → String → String → PlanError
  bad_tools bad_resources bad_requirements bad_priority bad_scope : TaskLabel → PlanError
  glob_scopes : TaskLabel → List String → PlanError
  unknown_dependency : String → String → PlanError
  self_dependency : String → PlanError
  dependency_cycle : List String → PlanError
  parallel_overlap : String → String → PlanError

-- The advice that `fragmentationWarnings` gives.
pub data PlanWarning : Type 0 where
  only_tests_or_docs : String → List String → PlanWarning
  strict_chain : ℕ → PlanWarning

pub record PlanValidation : Type 0 where
  pub valid : Bool
  pub errors : List PlanError
  pub warnings : List PlanWarning
  pub topological_order : List String

pub PlanError-discrete : Discrete PlanError
PlanError-discrete = hlevel (String-discrete, ℕ_discrete, List-discrete)

-- The messages are equal.
unfoldable pub same_error : PlanError → PlanError → Bool
unfolding PlanError-discrete
same_error a b = elim (PlanError-discrete a b) [ yes e ↦ true | no e ↦ false ]
