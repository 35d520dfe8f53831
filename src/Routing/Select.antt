-- ===== src/Routing/Select.antt =====
-- src/routing/router.ts: `selectRoute`.
use mathlib.Core.Option
use multi_agent_build_system.Prelude.{
  ℕ, suc, String, Bool, true, ◌&&◌, not, Option, none, some, List, [], ◌∷◌, ◌++◌, map, str_eq, ltb,
  leb, if◌then◌else◌, is_empty, filter, when, includes, Outcome, ok, ◌>>=◌,
}
use multi_agent_build_system.Task.{TaskClass, class_eq}
use multi_agent_build_system.Routing.{
  RouteCapability, CapabilityRequest, EligibilityEvidence, evaluate_capability,
}
use multi_agent_build_system.Routing.Routes.{
  RouteCandidate, ProviderAvailability, normalize_task_class,
}
use multi_agent_build_system.Routing.Request.{
  RouteInput, RejectReason, tools_unavailable, adapter_missing, already_failed,
  capability_ineligible, domain_exhausted, provider_unavailable, Rejected, Placed, class_raised,
  RouteDecision, primary, provider_fallback, capacity_fallback, capability_escalation,
  capacity_wait, no_route, deterministic, RouteMode, by_policy, preferred, pinned, FallbackReason,
  busy_ahead, skipped, SelectionReason, selected, at_limits, no_model_route, pin_has_no_route,
  pin_cannot_run, none_available, RouteSelection, effective_class, is_urgent, effort_escalations,
  policy_routes, candidates_of, pinned_elsewhere, mode_of,
}

-- What the loop does with a candidate.
pub data Verdict : Type 0 where
  refuse : RejectReason → Verdict
  defer accept : String → Verdict

abbrev pub missing_tools : RouteInput → List String
missing_tools input = elim input.available_tools [
  | none ↦ []
  | some tools ↦ filter (λ tool. not (includes tools tool)) input.task.required_tools
]

-- `providerMap.get(name)`: of two entries for one provider the map keeps the last
unfoldable pub provider_named : List ProviderAvailability → String → Option ProviderAvailability
provider_named [] name = none
provider_named (p ∷ ps) name = elim (provider_named ps name) [
  | some q ↦ some q
  | none ↦ if str_eq p.provider name then some p else none
]

abbrev pub request_of : RouteInput → RouteCandidate → CapabilityRequest
request_of input c = record {
  provider = c.adapter;
  model = c.model;
  effort = c.effort;
  auth_mode = none;
  delegation = input.delegation;
}

-- What is asked once the capability is eligible.
unfoldable pub capacity_verdict : RouteInput → RouteCandidate → String → Verdict
unfolding provider_named
capacity_verdict input c domain =
    if includes input.excluded_adapters c.adapter
    then refuse already_failed
    else if includes input.excluded_quota_domains domain
    then refuse (domain_exhausted domain)
    else elim (provider_named input.providers c.adapter) [
      | none ↦ accept domain
      | some p ↦
          if not p.available
          then refuse (provider_unavailable p.reason)
          else if leb p.limit p.active
          then defer domain
          else accept domain
    ]

unfoldable pub evaluated :
    RouteInput → RouteCandidate → Option RouteCapability × EligibilityEvidence
evaluated input c = evaluate_capability input.capability_registry (request_of input c) input.now

-- The verdict on a candidate, and the evidence if the capability was evaluated.
unfoldable pub judge : RouteInput → RouteCandidate → Verdict × List EligibilityEvidence
judge input c =
    if not (is_empty (missing_tools input))
    then (refuse (tools_unavailable (missing_tools input)), [])
    else if not (includes input.adapters c.adapter)
    then (refuse adapter_missing, [])
    else let evidence = (evaluated input c).1 in
      elim (evaluated input c).0 [
        | none ↦ (refuse (capability_ineligible evidence.reasons), evidence ∷ [])
        | some capability ↦
            if evidence.eligible
            then (capacity_verdict input c capability.quota_domain, evidence ∷ [])
            else (refuse (capability_ineligible evidence.reasons), evidence ∷ [])
      ]

-- The lists that the loop fills.
pub record Sorted : Type 0 where
  pub eligible : List Placed
  pub deferred : List Placed
  pub rejected : List Rejected
  pub eligibility : List EligibilityEvidence

unfoldable pub place_candidate :
    ℕ → RouteCandidate → Verdict × List EligibilityEvidence → Sorted → Sorted
place_candidate i c (verdict, evidence) rest =
    let seen = evidence ++ rest.eligibility in
    elim verdict [
      | refuse why ↦ record rest {
        rejected = record { place = some i; candidate = c; reason = why } ∷ rest.rejected;
        eligibility = seen;
      }
      | defer domain ↦ record rest {
        deferred = record { place = i; candidate = c; quota_domain = domain } ∷ rest.deferred;
        eligibility = seen;
      }
      | accept domain ↦ record rest {
        eligible = record { place = i; candidate = c; quota_domain = domain } ∷ rest.eligible;
        eligibility = seen;
      }
    ]

unfoldable pub sort_candidates : RouteInput → ℕ → List RouteCandidate → Sorted
unfolding judge place_candidate
sort_candidates input i [] = record {
  eligible = [];
  deferred = [];
  rejected = [];
  eligibility = [];
}
sort_candidates input i (c ∷ cs) =
    place_candidate i c (judge input c) (sort_candidates input (suc i) cs)

abbrev pub head_of {ℓ} : {A : Type ℓ} → List A → Option A
head_of [] = none
head_of (x ∷ xs) = some x

unfoldable pub busy_before : Sorted → List Placed
busy_before s = elim (head_of s.eligible) [
  | none ↦ []
  | some first ↦ filter (λ d. ltb d.place first.place) s.deferred
]

unfoldable pub chosen_of : Bool → Sorted → Option Placed
unfolding busy_before
chosen_of waits s = if not (is_empty (busy_before s)) && waits then none else head_of s.eligible

-- `candidates.indexOf(item.candidate) < chosenIndex`
abbrev stands_before : ℕ → Option ℕ → Bool
stands_before i none = true
stands_before i (some place) = ltb place i

abbrev fallback_of : Sorted → List Rejected → Option Placed → Option FallbackReason
fallback_of s rejected none = none
fallback_of s rejected (some p) =
    if not (is_empty (busy_before s))
    then some (busy_ahead (map (λ d. d.candidate.adapter) (busy_before s)) p.candidate.adapter)
    else if ltb 0 p.place
    then some (
        skipped (
          map (λ r. (r.candidate.adapter, r.reason))
            (filter (λ r. stands_before p.place r.place) rejected)))
    else none

unfoldable pub decision_of : Sorted → Option Placed → Bool → Bool → Bool → RouteDecision
unfolding busy_before
decision_of s none escalated no_candidates policy_had_routes =
    if not (is_empty s.deferred)
    then capacity_wait
    else if no_candidates && not policy_had_routes
    then deterministic
    else no_route
decision_of s (some p) escalated no_candidates policy_had_routes =
    if not (is_empty (busy_before s))
    then capacity_fallback
    else if ltb 0 p.place
    then provider_fallback
    else if escalated
    then capability_escalation
    else primary

abbrev reason_of :
    TaskClass → TaskClass → RouteMode → Sorted → Option Placed → Bool → Bool → SelectionReason
reason_of class effective mode s (some p) no_candidates policy_had_routes =
    selected p.candidate effective
reason_of class effective mode s none no_candidates policy_had_routes =
    if not (is_empty s.deferred)
    then at_limits
    else if no_candidates && not policy_had_routes
    then no_model_route class
    else if no_candidates
    then pin_has_no_route
    else elim mode [
      | by_policy ↦ none_available
      | preferred ↦ none_available
      | pinned ↦ pin_cannot_run
    ]

-- The selection for a task whose class is known.
unfoldable pub select_for : RouteInput → TaskClass → RouteSelection
unfolding policy_routes effective_class candidates_of sort_candidates chosen_of decision_of
select_for input class =
    let effective = effective_class input.task class in
    let routes = policy_routes input class in
    let candidates = candidates_of input routes in
    let s = sort_candidates input 0 candidates in
    let rejected = pinned_elsewhere input routes ++ s.rejected in
    let chosen = chosen_of input.waits s in
    let escalations =
      when (not (class_eq effective class)) (class_raised class effective)
      ++ effort_escalations (is_urgent input) (input.policy.routes effective) in
    let no_candidates = is_empty candidates in
    let policy_had_routes = not (is_empty routes) in
    record {
      chosen = Option.map (λ p. p.candidate) chosen;
      eligible = s.eligible;
      deferred = s.deferred;
      rejected = rejected;
      reason = reason_of class effective (mode_of input) s chosen no_candidates policy_had_routes;
      policy_version = input.policy.version;
      capability_registry_version = input.capability_registry.version;
      decision = decision_of s chosen (not (is_empty escalations)) no_candidates policy_had_routes;
      fallback_reason = fallback_of s rejected chosen;
      escalations = escalations;
      quota_domain = Option.map (λ p. p.quota_domain) chosen;
      eligibility = s.eligibility;
      requested = head_of candidates;
      route_mode = mode_of input;
    }

unfoldable pub select_route : RouteInput → Outcome String RouteSelection
unfolding normalize_task_class select_for
select_route input =
    normalize_task_class input.task.task_class >>= λ class. ok (select_for input class)
