-- ===== src/Routing/Routes.antt =====
-- src/routing/router.ts: the routes of a task class and the tables that stand above `selectRoute`.
use multi_agent_build_system.Prelude.{
  ℕ, String, Bool, true, Option, none, some, List, [], ◌∷◌, str_eq, if◌then◌else◌, Outcome, ok,
  throw,
}
use multi_agent_build_system.Task.{
  TaskClass, mechanical, small_implementation, complex_coding, diagnosis, planning, research,
  review, troubleshooting, curation,
}

pub record RouteCandidate : Type 0 where
  pub adapter : String
  pub model : Option String
  pub effort : Option String
  pub reason : String

pub record RoutingPolicy : Type 0 where
  pub version : String
  pub provisional : Bool
  pub routes : TaskClass → List RouteCandidate

-- `active` counts the work that runs on the provider.
pub record ProviderAvailability : Type 0 where
  pub provider : String
  pub available : Bool
  pub active : ℕ
  pub limit : ℕ
  pub reason : Option String

abbrev route : String → String → String → String → RouteCandidate
route adapter model effort reason = record {
  adapter = adapter;
  model = some model;
  effort = some effort;
  reason = reason;
}

abbrev codex_model : String
codex_model = "gpt-5.6-sol"

abbrev default_routes : TaskClass → List RouteCandidate
default_routes mechanical = []
default_routes small_implementation =
    route "codex" codex_model "medium" "Accepted Phase 0 bug-fix and feature tasks."
    ∷ route "claude" "claude-sonnet-5" "medium" "Subscription fallback with verified model ID."
    ∷ []
default_routes complex_coding =
    route "codex" codex_model "high" "Accepted the resumed Phase 0 complex task."
    ∷ route "claude" "claude-opus-5" "high"
        "Capable fallback; Phase 0 complex run was quota-limited."
    ∷ []
default_routes diagnosis =
    route "codex" codex_model "high" "Accepted the Phase 0 diagnosis task."
    ∷ route "claude" "claude-sonnet-5" "high" "Verified subscription fallback."
    ∷ []
default_routes planning =
    route "claude" "claude-opus-5" "high"
      "Provisional reasoning route pending representative evaluation."
    ∷ route "codex" codex_model "high" "Subscription fallback for planning."
    ∷ []
default_routes research =
    route "codex" codex_model "medium" "Provisional research route."
    ∷ route "claude" "claude-sonnet-5" "medium" "Subscription fallback for research."
    ∷ []
default_routes review =
    route "claude" "claude-sonnet-5" "medium"
      "Separate-context review route; provisional until Phase 3 evaluation."
    ∷ route "codex" codex_model "high" "Subscription fallback for review."
    ∷ []
default_routes troubleshooting =
    route "codex" codex_model "high" "Diagnosis-capable default."
    ∷ route "claude" "claude-opus-5" "high" "Capable troubleshooting fallback."
    ∷ []
default_routes curation =
    route "claude" "claude-opus-5" "high"
      "Provisional curator route; activation remains approval-gated."
    ∷ route "codex" codex_model "high" "Subscription fallback for curation."
    ∷ []

-- `DEFAULT_ROUTING_POLICY`
abbrev pub default_routing_policy : RoutingPolicy
default_routing_policy = record {
  version = "phase2-routing-v1";
  provisional = true;
  routes = default_routes;
}

abbrev class_words : List (String × TaskClass)
class_words =
    ("mechanical", mechanical)
    ∷ ("small_implementation", small_implementation)
    ∷ ("complex_coding", complex_coding)
    ∷ ("diagnosis", diagnosis)
    ∷ ("planning", planning)
    ∷ ("research", research)
    ∷ ("review", review)
    ∷ ("troubleshooting", troubleshooting)
    ∷ ("curation", curation)
    ∷ []

class_named : List (String × TaskClass) → String → Option TaskClass
class_named [] value = none
class_named ((word, c) ∷ words) value =
    let rest = class_named words value in if str_eq word value then some c else rest

-- The error is the class that is unknown.
unfoldable pub normalize_task_class : String → Outcome String TaskClass
unfolding class_named
normalize_task_class value = elim (class_named class_words value) [
  | none ↦ throw value
  | some c ↦ ok c
]
