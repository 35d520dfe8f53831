-- ===== src/Routing/Allowed.antt =====
-- src/routing/router.ts: what holds of the route that `selectRoute` chooses.
use multi_agent_build_system.Prelude.{
  ◌<◌, String, ◌≡◌, refl, sym, subst, inl, inr, Bool, true, false, not, some, List, [], ◌∷◌, ◌++◌,
  arith, str_eq, str_eq_iff, Bool-cases, Option-cases, is_empty, any, all, filter, is_empty-filter,
  List-cases, includes,
}
use multi_agent_build_system.Routing.{RouteCapability, find_capability, evaluate_capability}
use multi_agent_build_system.Routing.Eligible.{IsPermitted, eligible_iff}
use multi_agent_build_system.Routing.Routes.{RouteCandidate, ProviderAvailability}
use multi_agent_build_system.Routing.Request.{RouteInput, policy_routes, given, candidates_of}
use multi_agent_build_system.Routing.Select.{
  missing_tools, provider_named, request_of, capacity_verdict, evaluated, judge, select_for,
}
use multi_agent_build_system.Routing.Choice.{is_accepted, chosen_iff}
use multi_agent_build_system.Task.{TaskClass}

-- A route that the pin, the registry, the installed adapters, the tools, the exclusions and the provider's
-- capacity allow.
pub record IsAllowed (input : RouteInput) (c : RouteCandidate) : Type 0 where
  pub pinned_here : (name : String) → given input.pinned_adapter ≡ some name → c.adapter ≡ name
  pub permitted : IsPermitted input.capability_registry (request_of input c)
  pub installed : includes input.adapters c.adapter ≡ true
  pub equipped :
      (tools : List String)
      → input.available_tools ≡ some tools
      → all (includes tools) input.task.required_tools ≡ true
  pub not_failed : includes input.excluded_adapters c.adapter ≡ false
  pub domain_open :
      (entry : RouteCapability)
      → find_capability input.capability_registry c.adapter c.model ≡ some entry
      → includes input.excluded_quota_domains entry.quota_domain ≡ false
  pub has_capacity :
      (p : ProviderAvailability)
      → provider_named input.providers c.adapter ≡ some p
      → (p.available ≡ true) × (p.active < p.limit)

not-any : (p : String → Bool) (xs : List String) → not (any (λ x. not (p x)) xs) ≡ all p xs
not-any p [] = refl
not-any p (x ∷ xs) = ground (arith, not-any p xs)

has_tools :
    (input : RouteInput) (tools : List String)
    → is_empty (missing_tools input) ≡ true
    → input.available_tools ≡ some tools
    → all (includes tools) input.task.required_tools ≡ true
has_tools input tools h at = ground (
  arith,
  not-any (includes tools) input.task.required_tools,
  is_empty-filter (λ tool. not (includes tools tool)) input.task.required_tools,
)

-- What an accepting verdict rests on.
record Accepted (input : RouteInput) (c : RouteCandidate) : Type 0 where
  pub tools : is_empty (missing_tools input) ≡ true
  pub adapter : includes input.adapters c.adapter ≡ true
  pub entry : RouteCapability
  pub registered : (evaluated input c).0 ≡ some entry
  pub evidence : (evaluated input c).1.eligible ≡ true
  pub capacity : is_accepted (capacity_verdict input c entry.quota_domain) ≡ true

verdict-Accepted :
    (input : RouteInput) (c : RouteCandidate)
    → is_accepted (judge input c).0 ≡ true
    → Accepted input c
unfolding judge
verdict-Accepted input c h = elim (Option-cases (evaluated input c).0) [
  | inl missing ↦ absurd (ground arith)
  | inr (entry, found) ↦ record {
    tools = ground arith;
    adapter = ground arith;
    entry = entry;
    registered = found;
    evidence = ground arith;
    capacity = ground arith;
  }
]

evaluated-entry :
    (input : RouteInput) (c : RouteCandidate)
    → (evaluated input c).0 ≡ find_capability input.capability_registry c.adapter c.model
unfolding evaluated evaluate_capability
evaluated-entry input c = refl

capacity_left :
    (input : RouteInput) (c : RouteCandidate) (domain : String)
    → is_accepted (capacity_verdict input c domain) ≡ true
    → (includes input.excluded_adapters c.adapter ≡ false)
      × (includes input.excluded_quota_domains domain ≡ false)
unfolding capacity_verdict
capacity_left input c domain h = ground arith

provider_left :
    (input : RouteInput) (c : RouteCandidate) (domain : String) (p : ProviderAvailability)
    → is_accepted (capacity_verdict input c domain) ≡ true
    → provider_named input.providers c.adapter ≡ some p
    → (p.available ≡ true) × (p.active < p.limit)
unfolding capacity_verdict
provider_left input c domain p h at = ground arith

filter_one :
    (p : RouteCandidate → Bool) (cs before after : List RouteCandidate) (c : RouteCandidate)
    → filter p cs ≡ before ++ c ∷ after
    → p c ≡ true
filter_one p [] [] after c h = cc
filter_one p [] (b ∷ before) after c h = cc
filter_one p (x ∷ cs) before after c h = elim (Bool-cases (p x)) [
  | inr drops ↦ filter_one p cs before after c (ground arith)
  | inl keeps ↦ elim (List-cases before) [
    | inl none_before ↦ let e : x ≡ c = ground arith in subst (λ y. p y ≡ true) e keeps
    | inr (b, rest, at) ↦ filter_one p cs rest after c (ground arith)
  ]
]

pinned_candidates :
    (input : RouteInput) (routes before after : List RouteCandidate) (c : RouteCandidate)
    (name : String)
    → candidates_of input routes ≡ before ++ c ∷ after
    → given input.pinned_adapter ≡ some name
    → c.adapter ≡ name
unfolding candidates_of
pinned_candidates input routes before after c name h at =
    (str_eq_iff c.adapter name).0
      (filter_one (λ x. str_eq x.adapter name) routes before after c (ground arith))

-- The route that is chosen is one of the pinned provider where one is pinned; its launch is permitted by the
-- registry; its adapter is installed; the tools that the task requires are there, where they are known;
-- neither its provider nor its quota domain is excluded; and its provider, where its capacity is known,
-- is available and below its limit.
pub chosen-IsAllowed :
    (input : RouteInput) (class : TaskClass) (c : RouteCandidate)
    → (select_for input class).chosen ≡ some c
    → IsAllowed input c
unfolding evaluated
chosen-IsAllowed input class c h =
    let first = (chosen_iff input class c).0 h in
    let a = verdict-Accepted input c first.accepted in
    let (not_failed, domain_open) = capacity_left input c a.entry.quota_domain a.capacity in
    record {
      pinned_here = λ name at.
          pinned_candidates input (policy_routes input class) first.before first.after c name
            first.split at;
      permitted =
          (eligible_iff input.capability_registry (request_of input c) input.now).0 a.evidence;
      installed = a.adapter;
      equipped = λ tools at. has_tools input tools a.tools at;
      not_failed = not_failed;
      domain_open = λ entry found.
          let same : entry ≡ a.entry =
            ground (arith, found, a.registered, evaluated-entry input c) in
          subst (λ e. includes input.excluded_quota_domains e.quota_domain ≡ false) (sym same)
            domain_open;
      has_capacity = λ p found. provider_left input c a.entry.quota_domain p a.capacity found;
    }
