-- ===== src/Routing/Request.antt =====
-- src/routing/router.ts: what `selectRoute` is asked and what it returns, and the candidates that it starts
-- from. A candidate is known by its place in the list of candidates, as the source finds it by `indexOf`;
-- a reason is the kind of its message with the values put into it.
use multi_agent_build_system.Prelude.{
  ℕ, ◌+◌, String, Bool, false, ◌&&◌, ◌||◌, not, Option, none, some, List, [], ◌∷◌, ◌++◌, map,
  str_eq, ltb, if◌then◌else◌, filter, when, option_eq,
}
use multi_agent_build_system.Task.{TaskClass, small_implementation, complex_coding, class_eq}
use multi_agent_build_system.Routing.{CapabilityRegistry, IneligibleReason, EligibilityEvidence}
use multi_agent_build_system.Routing.Routes.{RouteCandidate, RoutingPolicy, ProviderAvailability}

-- The columns of the task that the selection reads. The deadline is its time in milliseconds, and none if
-- the task has no deadline or one that is no date.
pub record RouteTask : Type 0 where
  pub task_class : String
  pub complexity : String
  pub ambiguity : String
  pub change_risk : String
  pub context_size : String
  pub deadline_at : Option ℕ
  pub required_tools : List String

-- `wait` is `capacityFallback === "wait"`, and `adapters` are the keys of the map.
pub record RouteInput : Type 0 where
  pub task : RouteTask
  pub policy : RoutingPolicy
  pub adapters : List String
  pub providers : List ProviderAvailability
  pub preferred_adapter : Option String
  pub pinned_adapter : Option String
  pub excluded_adapters : List String
  pub excluded_quota_domains : List String
  pub available_tools : Option (List String)
  pub capability_registry : CapabilityRegistry
  pub delegation : Option String
  pub waits : Bool
  pub now : ℕ

pub data RejectReason : Type 0 where
  pinned_to : String → RejectReason
  tools_unavailable : List String → RejectReason
  adapter_missing already_failed : RejectReason
  capability_ineligible : List IneligibleReason → RejectReason
  domain_exhausted : String → RejectReason
  provider_unavailable : Option String → RejectReason

-- The place is none for a candidate that is not in the list, whose index is -1.
pub record Rejected : Type 0 where
  pub place : Option ℕ
  pub candidate : RouteCandidate
  pub reason : RejectReason

pub record Placed : Type 0 where
  pub place : ℕ
  pub candidate : RouteCandidate
  pub quota_domain : String

pub data Escalation : Type 0 where
  class_raised : TaskClass → TaskClass → Escalation
  effort_raised : Option String → Escalation

pub data RouteDecision : Type 0 where
  primary provider_fallback capacity_fallback capability_escalation : RouteDecision
  capacity_wait no_route deterministic : RouteDecision

pub data RouteMode : Type 0 where
  by_policy preferred pinned : RouteMode

pub data FallbackReason : Type 0 where
  busy_ahead : List String → String → FallbackReason
  skipped : List (String × RejectReason) → FallbackReason

pub data SelectionReason : Type 0 where
  selected : RouteCandidate → TaskClass → SelectionReason
  at_limits : SelectionReason
  no_model_route : TaskClass → SelectionReason
  pin_has_no_route pin_cannot_run : SelectionReason
  none_available : SelectionReason

pub record RouteSelection : Type 0 where
  pub chosen : Option RouteCandidate
  pub eligible : List Placed
  pub deferred : List Placed
  pub rejected : List Rejected
  pub reason : SelectionReason
  pub policy_version : String
  pub capability_registry_version : String
  pub decision : RouteDecision
  pub fallback_reason : Option FallbackReason
  pub escalations : List Escalation
  pub quota_domain : Option String
  pub eligibility : List EligibilityEvidence
  pub requested : Option RouteCandidate
  pub route_mode : RouteMode

abbrev is_high : String → Bool
is_high level = str_eq level "high"

unfoldable pub effective_class : RouteTask → TaskClass → TaskClass
unfolding class_eq
effective_class t c =
    if class_eq c small_implementation
      && (is_high t.complexity || is_high t.change_risk || is_high t.context_size)
    then complex_coding
    else c

-- `Date.parse(deadlineAt) - Date.now() < 24 * 60 * 60_000`
abbrev pub is_urgent : RouteInput → Bool
is_urgent input = elim input.task.deadline_at [
  | none ↦ false
  | some deadline ↦ ltb deadline (input.now + 86400000)
]

abbrev raises_effort : Bool → RouteCandidate → Bool
raises_effort urgent c =
    urgent && str_eq c.adapter "codex" && not (option_eq c.effort (some "high"))

unfoldable pub raise_effort : Bool → RouteCandidate → RouteCandidate
raise_effort urgent c = if raises_effort urgent c then record c { effort = some "high" } else c

unfoldable pub effort_escalations : Bool → List RouteCandidate → List Escalation
effort_escalations urgent [] = []
effort_escalations urgent (c ∷ cs) =
    when (raises_effort urgent c) (effort_raised c.effort) ++ effort_escalations urgent cs

-- The routes of the class, before a pin or a preference.
unfoldable pub policy_routes : RouteInput → TaskClass → List RouteCandidate
unfolding effective_class raise_effort
policy_routes input c =
    map (raise_effort (is_urgent input)) (input.policy.routes (effective_class input.task c))

-- `if (name)`: an empty name is none
abbrev pub given : Option String → Option String
given none = none
given (some name) = if str_eq name "" then none else some name

-- `candidates.sort(…)`, which is stable: those of the preferred adapter first.
unfoldable pub prefer : String → List RouteCandidate → List RouteCandidate
prefer name cs =
    filter (λ c. str_eq c.adapter name) cs ++ filter (λ c. not (str_eq c.adapter name)) cs

unfoldable pub candidates_of : RouteInput → List RouteCandidate → List RouteCandidate
unfolding prefer
candidates_of input routes = elim (given input.pinned_adapter) [
  | some name ↦ filter (λ c. str_eq c.adapter name) routes
  | none ↦ elim (given input.preferred_adapter) [ none ↦ routes | some name ↦ prefer name routes ]
]

abbrev pub pinned_elsewhere : RouteInput → List RouteCandidate → List Rejected
pinned_elsewhere input routes = elim (given input.pinned_adapter) [
  | none ↦ []
  | some name ↦
      map (λ c. record { place = none; candidate = c; reason = pinned_to name })
        (filter (λ c. not (str_eq c.adapter name)) routes)
]

abbrev pub mode_of : RouteInput → RouteMode
mode_of input = elim (given input.pinned_adapter) [
  | some name ↦ pinned
  | none ↦ elim (given input.preferred_adapter) [ none ↦ by_policy | some name ↦ preferred ]
]
