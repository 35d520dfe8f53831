-- ===== src/Examples/Routes.antt =====
-- The selection of a route at concrete inputs.
use multi_agent_build_system.Prelude.{
  ℕ, String, ◌≡◌, refl, ◌↔◌, Bool, true, false, none, some, [], ◌∷◌,
}
use multi_agent_build_system.Task.{small_implementation}
use multi_agent_build_system.Routing.{
  verified_entitlement, enforced, RouteCapability, evaluate_capability,
}
use multi_agent_build_system.Routing.Routes.{
  RouteCandidate, ProviderAvailability, default_routing_policy,
}
use multi_agent_build_system.Routing.Request.{
  RouteTask, RouteInput, capacity_fallback, capacity_wait, policy_routes, candidates_of,
}
use multi_agent_build_system.Routing.Select.{capacity_verdict, evaluated, judge, select_for}
use multi_agent_build_system.Routing.Choice.{IsFirst, chosen_iff}
use multi_agent_build_system.Routing.Allowed.{IsAllowed, chosen-IsAllowed}

abbrev entry_for : String → String → String → RouteCapability
entry_for provider model domain = record {
  provider = provider;
  model = model;
  efforts = "low" ∷ "medium" ∷ "high" ∷ [];
  auth_modes = "subscription" ∷ [];
  quota_domain = domain;
  entitlement = verified_entitlement;
  delegation_control = enforced;
  delegation_observable = true;
  evidence = "probe";
}

abbrev provider_at : String → ℕ → ProviderAvailability
provider_at name active = record {
  provider = name;
  available = true;
  active = active;
  limit = 2;
  reason = none;
}

abbrev feature : RouteTask
feature = record {
  task_class = "small_implementation";
  complexity = "low";
  ambiguity = "low";
  change_risk = "low";
  context_size = "low";
  deadline_at = none;
  required_tools = "git" ∷ [];
}

-- Codex stands first and is at its limit; Claude is free.
abbrev codex_busy : Bool → RouteInput
codex_busy waits = record {
  task = feature;
  policy = default_routing_policy;
  adapters = "codex" ∷ "claude" ∷ [];
  providers = provider_at "codex" 2 ∷ provider_at "claude" 0 ∷ [];
  preferred_adapter = none;
  pinned_adapter = none;
  excluded_adapters = [];
  excluded_quota_domains = [];
  available_tools = some ("git" ∷ []);
  capability_registry = record {
    version = "v1";
    entries =
        entry_for "codex" "gpt-5.6-sol" "codex"
        ∷ entry_for "claude" "claude-sonnet-5" "claude"
        ∷ [];
  };
  delegation = none;
  waits = waits;
  now = 0;
}

abbrev claude_route : RouteCandidate
claude_route = record {
  adapter = "claude";
  model = some "claude-sonnet-5";
  effort = some "medium";
  reason = "Subscription fallback with verified model ID.";
}

busy_falls_back : (select_for (codex_busy false) small_implementation).decision ≡ capacity_fallback
unfolding select_for judge evaluate_capability evaluated capacity_verdict
busy_falls_back = refl

busy_waits : (select_for (codex_busy true) small_implementation).decision ≡ capacity_wait
unfolding select_for judge evaluate_capability evaluated capacity_verdict
busy_waits = refl

claude_chosen : (select_for (codex_busy false) small_implementation).chosen ≡ some claude_route
unfolding select_for judge evaluate_capability evaluated capacity_verdict
claude_chosen = refl

chosen_iff_example :
    ((select_for (codex_busy false) small_implementation).chosen ≡ some claude_route)
    ↔ IsFirst
        (codex_busy false)
        (candidates_of (codex_busy false) (policy_routes (codex_busy false) small_implementation))
        claude_route
chosen_iff_example = chosen_iff (codex_busy false) small_implementation claude_route

chosen-IsAllowed_example : IsAllowed (codex_busy false) claude_route
chosen-IsAllowed_example =
    chosen-IsAllowed (codex_busy false) small_implementation claude_route claude_chosen
